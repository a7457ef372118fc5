-- ===== src/Web/Router.antt =====
-- internal/web/server.go: Handler, the table of routes, as `http.ServeMux` reads it. A path is the list
-- of its segments, with an empty last one where it ends in a slash; it is clean, since the mux redirects
-- any other. A pattern for GET takes HEAD too.
use http_debug.Base.{
  Bool, false, not, ◌&&◌, ◌||◌, ◌==◌, Option, none, List, [], ◌∷◌, Str, codes, str_eq, length,
  if◌then◌else◌,
}
use http_debug.Time.{Time}
use http_debug.Store.Entry.{Side}
use http_debug.Store.Result.{ok, err}
use http_debug.Store.Action.{Outcome, Action, returns, panics}
use http_debug.Store.Sqlite.{Sqlite}
use http_debug.Store.Ops.{Store}
use http_debug.Proxy.Exchange.{Libraries}
use http_debug.Proxy.Replay.{ReplayRequest, Sending}
use http_debug.Web.Routes.{
  Answer, list_requests, get_request, get_body, clear_requests, replay_request, get_config,
}

-- What a pattern leads to; the last ones are the page, for the addresses of entries, and a file.
pub data Route : Type 0 where
  listing replaying clearing watching settings page : Route
  showing : Str → Route
  serving : Str → Side → Route
  file : List Str → Route

pub data Routed : Type 0 where
  leads : Route → Routed
  not_allowed : Routed

abbrev pub is_get : Str → Bool
is_get method = str_eq method (codes "GET") || str_eq method (codes "HEAD")

-- What GET has at a path.
abbrev pub get_route : List Str → Route
get_route (a ∷ b ∷ []) =
    if str_eq a (codes "api") && str_eq b (codes "requests")
    then listing
    else if str_eq a (codes "api") && str_eq b (codes "events")
    then watching
    else if str_eq a (codes "api") && str_eq b (codes "config")
    then settings
    else if str_eq a (codes "r") && not (length b == 0)
    then page
    else file (a ∷ b ∷ [])
get_route (a ∷ b ∷ id ∷ []) =
    if str_eq a (codes "api") && (str_eq b (codes "requests") && not (length id == 0))
    then showing id
    else file (a ∷ b ∷ id ∷ [])
get_route (a ∷ b ∷ id ∷ c ∷ side ∷ []) =
    if str_eq a (codes "api")
      && (str_eq b (codes "requests")
          && (not (length id == 0) && (str_eq c (codes "body") && not (length side == 0))))
    then serving id side
    else file (a ∷ b ∷ id ∷ c ∷ side ∷ [])
get_route path = file path

abbrev pub is_collection : List Str → Bool
is_collection (a ∷ b ∷ []) = str_eq a (codes "api") && str_eq b (codes "requests")
is_collection path = false

-- Handler
unfoldable pub routed : Str → List Str → Routed
unfolding str_eq
routed method path =
    if is_get method
    then leads (get_route path)
    else if is_collection path && str_eq method (codes "POST")
    then leads replaying
    else if is_collection path && str_eq method (codes "DELETE")
    then leads clearing
    else not_allowed

-- A request to the interface: its method, its path, the values of the query's `limit` and `before`, and
-- its body.
pub record WebRequest : Type 0 where
  pub method : Str
  pub path : List Str
  pub limit : Str
  pub before : Str
  pub body : Str

-- What the client gets: an answer of the API, the event stream, which `events` of Web/Stream then
-- serves, the page, a file, or 405.
pub data Served : Type 0 where
  answered : Answer → Served
  streaming page_served refused : Served
  file_served : List Str → Served

-- What the interface takes from outside of the program: the reader of an Ollama fragment, the decoder
-- of a composed request, the other libraries, and the address of the target.
pub record WebContext : Type 0 where
  pub fragment : Str → Option (Str × Str)
  pub decode : Str → Option ReplayRequest
  pub lib : Libraries
  pub target : Str

module _ {sql : Sqlite} where
  abbrev pub given : Outcome (Store sql) Answer → Outcome (Store sql) (Served × Option Sending)
  given (returns (ok a) s) = returns (ok (answered a, none)) s
  given (returns (err e) s) = returns (err e) s
  given panics = panics

  abbrev pub given_replay :
      Outcome (Store sql) (Answer × Option Sending) → Outcome (Store sql) (Served × Option Sending)
  given_replay (returns (ok (a, p)) s) = returns (ok (answered a, p)) s
  given_replay (returns (err e) s) = returns (err e) s
  given_replay panics = panics

  -- The handler of a route, with the replay that goes on to be sent.
  abbrev pub handle :
      WebContext
      → Option Str
      → Time
      → WebRequest
      → Route
      → Action (Store sql) (Served × Option Sending)
  handle c fresh now r listing s = given (list_requests c.lib.json r.limit r.before s)
  handle c fresh now r replaying s = given_replay (replay_request c.decode c.lib fresh now r.body s)
  handle c fresh now r clearing s = given (clear_requests s)
  handle c fresh now r (showing id) s = given (get_request c.fragment c.lib.json id s)
  handle c fresh now r (serving id side) s = given (get_body c.lib.json id side s)
  handle c fresh now r settings s = returns (ok (answered (get_config c.target), none)) s
  handle c fresh now r watching s = returns (ok (streaming, none)) s
  handle c fresh now r page s = returns (ok (page_served, none)) s
  handle c fresh now r (file path) s = returns (ok (file_served path, none)) s

  abbrev pub handle_routed :
      WebContext
      → Option Str
      → Time
      → WebRequest
      → Routed
      → Action (Store sql) (Served × Option Sending)
  handle_routed c fresh now r (leads route) s = handle c fresh now r route s
  handle_routed c fresh now r not_allowed s = returns (ok (refused, none)) s

  unfoldable pub serve_web :
      WebContext → Option Str → Time → WebRequest → Action (Store sql) (Served × Option Sending)
  unfolding routed list_requests replay_request clear_requests get_request get_body
  serve_web c fresh now r s = handle_routed c fresh now r (routed r.method r.path) s
