-- ===== src/Tests/Exchanges.antt =====
-- Exchanges, on the empty store.
use http_debug.Base.{
  ◌↔◌, ◌≡◌, refl, true, false, Option, none, some, List, [], ◌∷◌, Str, codes, str_eq,
}
use http_debug.Base.Map.{lookup}
use http_debug.Base.Int.{pos}
use http_debug.Time.{Time}
use http_debug.Store.Events.Wired.{new_broker-IsWired}
use http_debug.Store.Result.{ok}
use http_debug.Store.Action.{returns}
use http_debug.Store.Sqlite.Engine.{engine}
use http_debug.Store.Ops.{Store}
use http_debug.Proxy.Format.{to_lower}
use http_debug.Proxy.Header.{canonical_key, values_of}
use http_debug.Proxy.Url.{Url, join_path, detail_url}
use http_debug.Proxy.Exchange.{
  ProxyConfig, Request, Response, Upstream, answers, fails, Libraries, relayed_entry, target_of,
  Reply, correlated,
}
use http_debug.Proxy.Relay.{serve_http}
use http_debug.Proxy.Replay.{
  ReplayRequest, accepted, replay_target, kept_headers, method_of, Sending, sending, replay, send,
  is_stripped,
}
use http_debug.Proxy.Captured.{Captured, Describes}
use http_debug.Proxy.Client.{Is502}
use http_debug.Proxy.Answered.{IsHealthy, relayed_reply, serve_http-Captured}
use http_debug.Proxy.Failed.{Failed, serve_http-Failed}
use http_debug.Proxy.Replayed.{sending_of, entry_of, replay-Captured, replay-Failed}
use http_debug.Proxy.Sent.{kept_headers-values, replay_target-accepted, IsRelayable}
use http_debug.Proxy.Forwarded.{join_path-one_slash, lookup-correlated}
use http_debug.Tests.Rows.{one_header, json_header}
use http_debug.Tests.Calls.{empty_store}

abbrev pub backend_url : Url
backend_url = record {
  scheme = codes "http";
  host = codes "backend";
  path = codes "/v1/";
  raw_path = [];
  raw_query = [];
  other = [];
}

-- Libraries that know one URL, and take every text for JSON.
abbrev pub libraries : Libraries
libraries = record {
  valid = λ s. true;
  json = one_header;
  urls = record { parse = λ s. some backend_url; print = λ u. codes "http://backend/v1/" };
  cookie = λ name value path. value;
}

abbrev pub config : ProxyConfig
config = record { target = backend_url; public_url = codes "http://ui/"; set_debug_cookie = true }

abbrev pub request : Request
request = record {
  method = codes "POST";
  url = record backend_url { path = codes "/api/chat"; host = [] };
  host = codes "proxy";
  header = json_header;
  body = codes "{\"a\":1}";
}

abbrev pub response : Response
response = record { status_code = 200; header = json_header }

abbrev pub reads : List (Time × Str)
reads = (pos 30, codes "{\"b\"") ∷ (pos 40, codes ":2}") ∷ []

abbrev upstream : Upstream
upstream = answers (pos 20) response reads (pos 50)

abbrev pub replies : Request → Upstream
replies r = upstream

abbrev refuses : Request → Upstream
refuses r = fails (codes "connection refused") (pos 20)

pub healthy : IsHealthy libraries empty_store
healthy = record {
  wired = new_broker-IsWired;
  unique = tt;
  db_works = refl;
  disk_works = refl;
  marshals = λ h. (_, refl);
}

serve_http-Captured_example :
    (final : Store engine) × (serve_http libraries config replies true
        (some (codes "a1"))
        (pos 10)
        request
        empty_store
      ≡ returns
          (ok (relayed_reply libraries config (codes "a1") response (codes "{\"b\":2}")))
          final)
    × (c : Captured one_header
        (codes "a1")
        (relayed_entry libraries config (pos 10) request)
        request.body
        response
        (codes "{\"b\":2}")
        empty_store
        (returns (ok tt) final))
    × Describes c.entry request.method
        (libraries.urls.print (target_of config request))
        request.header
        false
serve_http-Captured_example =
    serve_http-Captured libraries config replies (codes "a1") (pos 10) (pos 20) request response
      reads (pos 50) empty_store healthy refl

serve_http-Failed_example :
    (final : Store engine) × (reply : Reply) × (serve_http libraries config refuses true
        (some (codes "a1"))
        (pos 10)
        request
        empty_store
      ≡ returns (ok reply) final)
    × Is502 libraries config (codes "connection refused") reply
    × (f : Failed one_header
        (codes "a1")
        (relayed_entry libraries config (pos 10) request)
        request.body
        (codes "connection refused")
        empty_store
        (returns (ok tt) final))
    × Describes f.entry request.method
        (libraries.urls.print (target_of config request))
        request.header
        false
serve_http-Failed_example =
    serve_http-Failed libraries config refuses (codes "a1") (pos 10) (pos 20) request
      (codes "connection refused") empty_store healthy refl

abbrev composed : ReplayRequest
composed = record {
  method = codes " get ";
  url = codes "http://backend/v1/";
  headers =
      (codes "x-token", codes "1" ∷ [])
      ∷ (codes "HOST", codes "me" ∷ [])
      ∷ (codes "X-Token", codes "2" ∷ [])
      ∷ [];
  body = codes "hello";
}

abbrev builds : Str → Str → Option (Str × Time)
builds method url = none

abbrev client : Sending → Upstream
client p = upstream

abbrev broken_client : Sending → Upstream
broken_client p = fails (codes "no route") (pos 20)

accepted_lem : replay_target libraries.urls composed.url ≡ accepted backend_url
unfolding replay_target str_eq
accepted_lem = refl

replay-Captured_example :
    (s₁ : Store engine) × (final : Store engine) × (replay libraries
        (some (codes "a1"))
        (pos 10)
        composed
        empty_store
      ≡ returns (ok (sending (sending_of (codes "a1") (pos 10) composed backend_url))) s₁)
    × (send libraries builds client (sending_of (codes "a1") (pos 10) composed backend_url) s₁
        ≡ returns (ok tt) final)
    × (c : Captured one_header
        (codes "a1")
        (entry_of libraries (pos 10) composed backend_url)
        (codes "hello")
        response
        (codes "{\"b\":2}")
        empty_store
        (returns (ok tt) final))
    × Describes c.entry
        (method_of composed.method)
        (libraries.urls.print backend_url)
        (kept_headers composed.headers [])
        true
replay-Captured_example =
    replay-Captured libraries builds client (codes "a1") (pos 10) (pos 20) composed backend_url
      response reads (pos 50) empty_store healthy accepted_lem refl refl

replay-Failed_example :
    (s₁ : Store engine) × (final : Store engine) × (replay libraries
        (some (codes "a1"))
        (pos 10)
        composed
        empty_store
      ≡ returns (ok (sending (sending_of (codes "a1") (pos 10) composed backend_url))) s₁)
    × (send libraries builds broken_client
          (sending_of (codes "a1") (pos 10) composed backend_url)
          s₁
        ≡ returns (ok tt) final)
    × (f : Failed one_header
        (codes "a1")
        (entry_of libraries (pos 10) composed backend_url)
        (codes "hello")
        (codes "no route")
        empty_store
        (returns (ok tt) final))
    × Describes f.entry
        (method_of composed.method)
        (libraries.urls.print backend_url)
        (kept_headers composed.headers [])
        true
replay-Failed_example =
    replay-Failed libraries builds broken_client (codes "a1") (pos 10) (pos 20) composed backend_url
      (codes "no route") empty_store healthy accepted_lem refl refl

-- The token is sent once for each of its two spellings, and the host is not.
kept_headers-values_example :
    values_of (lookup (codes "X-Token") (kept_headers composed.headers []))
    ≡ codes "1" ∷ codes "2" ∷ []
unfolding str_eq lookup canonical_key to_lower is_stripped
kept_headers-values_example = kept_headers-values (codes "X-Token") composed.headers []

replay_target-accepted_example :
    (replay_target libraries.urls (codes " x ") ≡ accepted backend_url)
    ↔ IsRelayable libraries.urls (codes " x ") backend_url
replay_target-accepted_example = replay_target-accepted libraries.urls (codes " x ") backend_url

join_path-one_slash_example : join_path (codes "/v1/") (codes "/api/chat") ≡ codes "/v1/api/chat"
join_path-one_slash_example =
    join_path-one_slash (codes "/v1") (codes "api/chat") true true refl refl

lookup-correlated_example :
    (lookup (codes "X-Debug-Url") (correlated libraries config (codes "a1") json_header)
      ≡ some (codes "http://ui/r/a1" ∷ []))
    × (lookup (codes "Content-Type") (correlated libraries config (codes "a1") json_header)
        ≡ some (codes "application/json" ∷ []))
unfolding str_eq lookup detail_url
lookup-correlated_example =
    lookup-correlated libraries config (codes "a1") (codes "Content-Type") json_header refl refl
