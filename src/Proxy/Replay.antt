-- ===== src/Proxy/Replay.antt =====
-- internal/proxy/replay.go: a request that is composed in the interface, sent by the server and
-- captured. `Replay` returns as soon as the entry is there; `send` runs on its own.
use http_debug.Base.{
  ◌-◌, leb, ◌==◌, Bool, true, not, ◌&&◌, ◌||◌, Option, none, some, List, [], ◌∷◌, Str, codes,
  length, map, str_eq, is_member, if◌then◌else◌,
}
use http_debug.Time.{Time}
use http_debug.Store.Entry.{Entry, Header}
use http_debug.Store.Action.{Action, pure, ◌>>=◌, ◌>>◌}
use http_debug.Store.Sqlite.{Sqlite}
use http_debug.Store.Ops.{Store}
use http_debug.Proxy.Format.{detect_format, is_ollama_path, to_lower, trim_space}
use http_debug.Proxy.Header.{header_get, header_add}
use http_debug.Proxy.Url.{Url, UrlText}
use http_debug.Proxy.Exchange.{
  Upstream, answers, breaks_off, switches, fails, Exchange, Libraries, blank_entry, content_type,
  reader_of,
}
use http_debug.Proxy.Relay.{open_exchange, finalize_exchange, modify_response, drain_body}

-- `headers` is the map, in the order in which a loop over it happens to visit it.
pub record ReplayRequest : Type 0 where
  pub method : Str
  pub url : Str
  pub headers : Header
  pub body : Str

abbrev pub stripped_headers : List Str
stripped_headers =
    codes "content-length"
    ∷ codes "connection"
    ∷ codes "keep-alive"
    ∷ codes "transfer-encoding"
    ∷ codes "upgrade"
    ∷ codes "host"
    ∷ []

abbrev pub add_all : Str → List Str → Header → Header
add_all name [] h = h
add_all name (v ∷ vs) h = add_all name vs (header_add name v h)

unfoldable pub is_stripped : Str → Bool
unfolding to_lower str_eq
is_stripped name = is_member (to_lower name) stripped_headers

-- The loop over the headers.
unfoldable pub kept_headers : Header → Header → Header
unfolding header_add is_stripped
kept_headers [] h = h
kept_headers ((name, values) ∷ rest) h =
    kept_headers rest (if is_stripped name then h else add_all name values h)

-- strings.ToUpper, on ASCII
abbrev upper : Str → Str
upper = map (λ c. if leb b'a' c && leb c b'z' then c - 32 else c)

-- The method, GET where it is missing.
unfoldable pub method_of : Str → Str
unfolding trim_space
method_of m = let up = upper (trim_space m) in if length up == 0 then codes "GET" else up

pub data ReplayError : Type 0 where
  invalid_url not_absolute unsupported_scheme capture_failed : ReplayError

pub data Target : Type 0 where
  accepted : Url → Target
  rejected : ReplayError → Target

abbrev pub checked : Url → Target
checked u =
    if (length u.scheme == 0) || (length u.host == 0)
    then rejected not_absolute
    else if not (str_eq u.scheme (codes "http")) && not (str_eq u.scheme (codes "https"))
    then rejected unsupported_scheme
    else accepted u

abbrev pub parsed : Option Url → Target
parsed none = rejected invalid_url
parsed (some u) = checked u

-- The address, if `Replay` accepts it. An address is absolute when it has a scheme.
unfoldable pub replay_target : UrlText → Str → Target
unfolding trim_space str_eq
replay_target urls text = parsed (urls.parse (trim_space text))

module _ (lib : Libraries) where
  unfoldable pub replay_entry : Time → Str → Url → Header → Str → Entry
  unfolding detect_format is_ollama_path header_get
  replay_entry now method target header body = record (blank_entry now) {
    method = method;
    url = lib.urls.print target;
    request_headers = header;
    request_format = detect_format lib.valid (header_get content_type header) body;
    is_ollama = is_ollama_path target.path;
    is_replay = true;
  }

-- What `send` gets.
pub record Sending : Type 0 where
  pub exchange : Exchange
  pub method : Str
  pub target : Url
  pub header : Header
  pub body : Str

-- What `Replay` returns: the id goes to the caller, all of it to `send`.
pub data Replayed : Type 0 where
  refused : ReplayError → Replayed
  sending : Sending → Replayed

abbrev pub started : Str → Url → Header → Str → Option Exchange → Replayed
started method u header body none = refused capture_failed
started method u header body (some ex) =
    sending (record { exchange = ex; method = method; target = u; header = header; body = body })

module _ {sql : Sqlite} (lib : Libraries) where
  abbrev pub replay_to : Option Str → Time → ReplayRequest → Target → Action (Store sql) Replayed
  replay_to fresh now r (rejected e) = pure (refused e)
  replay_to fresh now r (accepted u) =
      let method = method_of r.method in
      let header = kept_headers r.headers [] in
      open_exchange fresh now (replay_entry lib now method u header r.body) r.body >>= λ ex.
      pure (started method u header r.body ex)

  -- Replay, up to the start of `send`
  unfoldable pub replay : Option Str → Time → ReplayRequest → Action (Store sql) Replayed
  unfolding open_exchange replay_target kept_headers method_of replay_entry
  replay fresh now r = replay_to fresh now r (replay_target lib.urls r.url)

  -- send. `built` is the error of `NewRequestWithContext`, if any, with its time; `client` is what
  -- becomes of a request that is sent. The reads of the response go nowhere else, and an
  -- error of `io.Copy` is only logged. The client gives a 101 as any other response; where it has
  -- taken the connection over, none of the body is read.
  abbrev pub sent : Exchange → Upstream → Action (Store sql) (Unit {0})
  sent ex (fails message now) = finalize_exchange lib ex none (some message) now
  sent ex (answers now resp reads closed) =
      modify_response lib ex now resp >> drain_body lib ex reads closed (reader_of lib ex resp)
  sent ex (breaks_off now resp reads closed) =
      modify_response lib ex now resp >> drain_body lib ex reads closed (reader_of lib ex resp)
  sent ex (switches now resp message at) =
      modify_response lib ex now resp >> drain_body lib ex [] at (reader_of lib ex resp)

  unfoldable pub send :
      (Str → Str → Option (Str × Time))
      → (Sending → Upstream)
      → Sending
      → Action (Store sql) (Unit {0})
  unfolding finalize_exchange modify_response drain_body
  send built client p = elim (built p.method (lib.urls.print p.target)) [
    | some (message, now) ↦ finalize_exchange lib p.exchange none (some message) now
    | none ↦ sent p.exchange (client p)
  ]
