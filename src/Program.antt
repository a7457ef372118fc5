-- ===== src/Program.antt =====
-- cmd/debugproxy/main.go: run, from the start to the end of the program, and main. What the program meets
-- is a list of happenings; a handler runs to its end before the next one starts, and what happens when
-- the calls of several handlers mix is in Store/Ops/Calls.
pub mod Turns
pub mod Closing
pub mod Ended
use http_debug.Base.{ℕ, ◌*◌, Bool, Option, none, some, List, [], ◌∷◌, ◌++◌, Str, codes}
use http_debug.Time.{Time, Duration}
use http_debug.Store.Disk.{Disk}
use http_debug.Store.Result.{Result, ok, err}
use http_debug.Store.Action.{Outcome, returns, panics}
use http_debug.Store.Sqlite.{Sqlite, SqlDb}
use http_debug.Store.Ops.{Store}
use http_debug.Store.Ops.Finish.{sweep_pending}
use http_debug.Store.Ops.Calls.{subscribes, receives, drops, call, done}
use http_debug.Store.Ops.Opening.{Options, new_store, close_store}
use http_debug.Proxy.Url.{Url}
use http_debug.Proxy.Exchange.{ProxyConfig, Request, Upstream, Libraries}
use http_debug.Proxy.Relay.{serve_http}
use http_debug.Proxy.Replay.{ReplayRequest, Sending, send}
use http_debug.Web.Router.{WebRequest, Served, WebContext, serve_web}
use http_debug.Config.{ConfigError, Loaded, loaded, rejects, Config, Environment, load_config}

-- What the program takes from outside: the libraries, time.ParseDuration, the text of a duration, the
-- reader of an Ollama fragment and the decoder of a composed request.
pub record Outside : Type 0 where
  pub lib : Libraries
  pub durations : Str → Option Duration
  pub duration_text : Duration → Str
  pub fragment : Str → Option (Str × Str)
  pub decode : Str → Option ReplayRequest

-- What the machine has at the start: the environment, whether the two directories can be made, the
-- database if it opens, the disk, and whether the database closes without an error.
pub record Machine (sql : Sqlite) : Type 0 where
  pub env : Environment
  pub made_data : Bool
  pub made_blobs : Bool
  pub db : Option (SqlDb sql)
  pub disk : Disk
  pub closes : Bool

-- What the program does for others: it relays a request, it serves a request to the interface and sends
-- the replay that comes of it, it sweeps, and its event streams come, receive and go. The arguments are
-- the ones of the handlers.
pub data Turn : Type 0 where
  relays : (Request → Upstream) → Bool → Option Str → Time → Request → Turn
  asks :
      Option Str
      → Time
      → WebRequest
      → (Str → Str → Option (Str × Time))
      → (Sending → Upstream)
      → Turn
  ticks : Time → Turn
  follows : Turn
  hears leaves : ℕ → Turn

pub data Server : Type 0 where
  proxy_server web_server : Server

-- The errors of ListenAndServe; the first one is http.ErrServerClosed.
pub data ListenError : Type 0 where
  server_closed : ListenError
  listen_failed : Str → ListenError

-- What happens while `run` waits: a turn, a signal, or the return of a server's ListenAndServe.
pub data Happening : Type 0 where
  works : Turn → Happening
  interrupted : Happening
  server_ends : Server → Option ListenError → Happening

-- The errors of `run`.
pub data RunError : Type 0 where
  config_refused : ConfigError → RunError
  target_refused : Str → RunError
  store_refused : RunError
  server_failed : Str → RunError

abbrev pub name_of : Server → Str
name_of proxy_server = codes "proxy"
name_of web_server = codes "web"

abbrev pub addr_of : Config → Server → Str
addr_of c proxy_server = c.listen_addr
addr_of c web_server = c.web_addr

-- serve: the error that it sends, if any
abbrev pub serve : Str → Str → Option ListenError → Option Str
serve name addr none = none
serve name addr (some server_closed) = none
serve name addr (some (listen_failed message)) =
    some (name ++ codes " server on " ++ addr ++ codes ": " ++ message)

abbrev pub options_of : Config → Options
options_of c = record {
  data_dir = c.data_dir;
  max_inline_body_size = c.max_inline_body_size;
  max_entries = c.max_entries;
}

abbrev pub proxy_config : Config → Url → ProxyConfig
proxy_config c target = record {
  target = target;
  public_url = c.public_url;
  set_debug_cookie = c.set_debug_cookie;
}

abbrev pub web_context : Outside → Config → WebContext
web_context o c = record {
  fragment = o.fragment;
  decode = o.decode;
  lib = o.lib;
  target = c.target_url;
}

abbrev pub gave_up : Outside → Config → Str
gave_up o c = codes "no response after " ++ o.duration_text c.pending_timeout

-- `exits` has the error of `run`, if any, and the store that it had opened.
pub data Run (sql : Sqlite) : Type 0 where
  still_running : Store sql → Run sql
  exits : Option RunError → Option (Store sql) → Run sql
  panicked : Run sql

-- main: the status with which the process exits, once it does. A panic exits with 2.
unfoldable pub exit_code : {sql : Sqlite} → Run sql → Option ℕ
exit_code (still_running s) = none
exit_code (exits none s) = some 0
exit_code (exits (some e) s) = some 1
exit_code panicked = some 2

module _ {sql : Sqlite} where
  -- The deferred Close, whose error is dropped.
  abbrev pub closed_run : Option RunError → Outcome (Store sql) (Unit {0}) → Run sql
  closed_run e (returns r s) = exits e (some s)
  closed_run e panics = panicked

module _ {sql : Sqlite} (o : Outside) where
  -- The replay that a request started, on its own.
  abbrev pub then_send :
      (Str → Str → Option (Str × Time))
      → (Sending → Upstream)
      → Outcome (Store sql) (Served × Option Sending)
      → Option (Store sql)
  then_send built client (returns (ok (a, some p)) s) = done (send o.lib built client p s)
  then_send built client (returns (ok (a, none)) s) = some s
  then_send built client (returns (err e) s) = some s
  then_send built client panics = none

  -- The state after a turn; `none` is a panic. A tick is one of `sweepPending`.
  unfoldable pub turn : Config → Url → Turn → Store sql → Option (Store sql)
  unfolding serve_http serve_web send sweep_pending
  turn c target (relays backend complete fresh now r) s =
      done (serve_http o.lib (proxy_config c target) backend complete fresh now r s)
  turn c target (asks fresh now r built client) s =
      then_send built client (serve_web (web_context o c) fresh now r s)
  turn c target (ticks now) s =
      done (sweep_pending o.lib.json c.pending_timeout (gave_up o c) now s)
  turn c target follows s = call o.lib.json subscribes s
  turn c target (hears ch) s = call o.lib.json (receives ch) s
  turn c target (leaves ch) s = call o.lib.json (drops ch) s

  -- shutdown: what the handlers that it waits for still do; what else happens has no effect.
  unfoldable pub shutdown : Config → Url → List Happening → Store sql → Option (Store sql)
  unfolding turn
  shutdown c target [] s = some s
  shutdown c target (works t ∷ hs) s = elim (turn c target t s) [
    | none ↦ none
    | some s' ↦ shutdown c target hs s'
  ]
  shutdown c target (h ∷ hs) s = shutdown c target hs s

  abbrev pub finish : Bool → Config → Url → Option RunError → List Happening → Store sql → Run sql
  finish closes c target e hs s = elim (shutdown c target hs s) [
    | none ↦ panicked
    | some s' ↦ closed_run e (close_store closes s')
  ]

  -- `run` from the start of the servers: the wait for the first signal or error, and the end.
  unfoldable pub await : Bool → Config → Url → List Happening → Store sql → Run sql
  unfolding turn shutdown close_store
  await closes c target [] s = still_running s
  await closes c target (works t ∷ hs) s = elim (turn c target t s) [
    | none ↦ panicked
    | some s' ↦ await closes c target hs s'
  ]
  await closes c target (interrupted ∷ hs) s = finish closes c target none hs s
  await closes c target (server_ends srv r ∷ hs) s = elim (serve (name_of srv) (addr_of c srv) r) [
    | none ↦ await closes c target hs s
    | some message ↦ finish closes c target (some (server_failed message)) hs s
  ]

  abbrev pub with_store : Bool → Config → Url → List Happening → Result (Store sql) × Disk → Run sql
  with_store closes c target hs (ok s, d) = await closes c target hs s
  with_store closes c target hs (err e, d) = exits (some store_refused) none

  abbrev pub with_config : Machine sql → List Happening → Loaded Config → Run sql
  with_config m hs (rejects e) = exits (some (config_refused e)) none
  with_config m hs (loaded c) = elim (o.lib.urls.parse c.target_url) [
    | none ↦ exits (some (target_refused c.target_url)) none
    | some target ↦
        with_store m.closes c target hs
          (new_store (options_of c) m.made_data m.made_blobs m.db m.disk)
  ]

  -- run
  unfoldable pub run : Machine sql → List Happening → Run sql
  unfolding load_config new_store await
  run m hs = with_config m hs (load_config o.lib.urls o.durations m.env)
