-- ===== src/Tests/Starts.antt =====
-- The program from its start to its end, a request to the interface, and a relayed body that is looked
-- up.
use http_debug.Base.{◌≡◌, refl, true, Option, none, some, List, [], ◌∷◌, Str, codes, arith}
use http_debug.Base.Int.{pos}
use http_debug.Store.Entry.{side_response}
use http_debug.Store.Result.{ok}
use http_debug.Store.Rows.RoundTrip.{IsFaithful}
use http_debug.Store.Action.{returns}
use http_debug.Store.Sqlite.Engine.{engine}
use http_debug.Store.Ops.{Store}
use http_debug.Proxy.Capture.{drain}
use http_debug.Proxy.Capture.Lines.{Drained, drain_lem}
use http_debug.Proxy.Exchange.{Upstream, fails, relayed_entry}
use http_debug.Proxy.Relay.{serve_http}
use http_debug.Proxy.Replay.{ReplayRequest, Sending}
use http_debug.Proxy.Answered.{relayed_reply}
use http_debug.Web.Routes.{raw, write_json, get_body}
use http_debug.Web.Router.{WebContext, WebRequest, is_get, serve_web}
use http_debug.Web.Reads.{Serves}
use http_debug.Web.Served.{serve_web-Serves}
use http_debug.Web.Recalled.{response_type, serve_http-get_body}
use http_debug.Program.{
  Outside, Machine, Happening, relays, asks, ticks, follows, works, interrupted, server_ends,
  web_server, server_closed,
}
use http_debug.Tests.Rows.{one_header, json_header}
use http_debug.Tests.Bodies.{empty_disk}
use http_debug.Tests.Calls.{empty_store}
use http_debug.Tests.Endings.{one_in_flight, one_in_flight-IsSound}
use http_debug.Tests.Settings.{environment, no_duration}
use http_debug.Tests.Exchanges.{libraries, config, request, response, reads, replies, healthy}

abbrev lines : Str
lines = codes "a\nb\nc"

drain_lem_example : (drain 9 lines ≡ drain 5 lines) × Drained lines (drain 9 lines)
drain_lem_example = drain_lem 9 lines (omega arith)

-- The codec gives the one header back.
knows_header : IsFaithful one_header json_header
knows_header = record { text = _; marshals = refl; not_empty = λ e. cc; unmarshals = refl }

serve_http-get_body_example :
    (final : Store engine) × (s' : Store engine) × (serve_http libraries config replies true
        (some (codes "a1"))
        (pos 10)
        request
        empty_store
      ≡ returns
          (ok (relayed_reply libraries config (codes "a1") response (codes "{\"b\":2}")))
          final)
    × (get_body one_header (codes "a1") side_response final
        ≡ returns (ok (write_json 200 (raw (response_type json_header) 7 (codes "{\"b\":2}")))) s')
unfolding relayed_entry
serve_http-get_body_example =
    serve_http-get_body libraries config replies (codes "a1") (pos 10) (pos 20) request response
      reads (pos 50) empty_store healthy (λ n. knows_header) (λ n. knows_header) (omega arith) refl

abbrev no_replay : Str → Option ReplayRequest
no_replay s = none

abbrev context : WebContext
context = record {
  fragment = λ s. none;
  decode = no_replay;
  lib = libraries;
  target = codes "http://backend/v1/";
}

abbrev lists_first : WebRequest
lists_first = record {
  method = codes "GET";
  path = codes "api" ∷ codes "requests" ∷ [];
  limit = codes "1";
  before = [];
  body = [];
}

serve_web-Serves_example :
    Serves
      (is_get (codes "GET"))
      one_in_flight
      (serve_web context none (pos 10) lists_first one_in_flight)
serve_web-Serves_example =
    serve_web-Serves context none (pos 10) lists_first one_in_flight one_in_flight-IsSound

abbrev outside : Outside
outside = record {
  lib = libraries;
  durations = no_duration;
  duration_text = λ d. codes "5m0s";
  fragment = λ s. none;
  decode = no_replay;
}

abbrev machine : Machine engine
machine = record {
  env = environment (codes "50");
  made_data = true;
  made_blobs = true;
  db = some (record { table = []; faults = [] });
  disk = empty_disk;
  closes = true;
}

abbrev unreachable : Sending → Upstream
unreachable p = fails (codes "connection refused") (pos 30)

abbrev happenings : List Happening
happenings =
    works follows
    ∷ works (relays replies true (some (codes "a1")) (pos 10) request)
    ∷ works (asks none (pos 20) lists_first (λ method url. none) unreachable)
    ∷ server_ends web_server (some server_closed)
    ∷ works (ticks (pos 40))
    ∷ interrupted
    ∷ []
