-- ===== src/Tests/Captures.antt =====
-- A streamed response, read in two chunks that are cut inside a line.
use http_debug.Base.{
  some, ◌≡◌, Bool, true, false, none, List, [], ◌∷◌, ◌++◌, Str, codes, length, map, has, refl,
}
use http_debug.Base.Int.{pos}
use http_debug.Time.{Time}
use http_debug.Store.Entry.{format_raw, format_ndjson, format_sse, format_json}
use http_debug.Store.Blobs.Body.{concat}
use http_debug.Proxy.Format.{detect_format, is_ollama_path}
use http_debug.Proxy.Capture.{new_capture_reader, read_all, close_reader}
use http_debug.Proxy.Capture.Lines.{appended, announces}
use http_debug.Proxy.Capture.Whole.{streams, read_all-close_reader}
use http_debug.Proxy.Capture.Stored.{read_all-body}
use http_debug.Store.Entry.{side_response}
use http_debug.Store.Result.{ok}
use http_debug.Store.Action.{returns}
use http_debug.Store.Events.Wired.{new_broker-IsWired}
use http_debug.Store.Sqlite.Engine.{engine}
use http_debug.Store.Ops.{Store}
use http_debug.Store.Ops.Calls.{run_calls}
use http_debug.Store.Ops.Read.{body}
use http_debug.Tests.Rows.{one_header}
use http_debug.Tests.Endings.{live, one_in_flight, one_in_flight-live}

-- A parser that takes everything.
abbrev any_json : Str → Bool
any_json s = true

abbrev reads : List (Time × Str)
reads = (pos 1, codes "{}\n{") ∷ (pos 2, codes "}\n{}") ∷ []

read_all-close_reader_example :
    let r = read_all any_json reads (new_capture_reader (codes "a1") format_raw) in
    let last = close_reader (pos 3) r.1 in
    (appended (r.0 ++ last.0) ≡ concat (map (λ c. c.1) reads))
    × (announces (streams any_json format_raw reads) r.0 ≡ true)
    × (has 10 r.1.pending ≡ false)
    × (last.2.pending ≡ [])
    × (close_reader (pos 4) last.2 ≡ ([], none, last.2))
read_all-close_reader_example =
    read_all-close_reader any_json (codes "a1") format_raw reads (pos 3) (pos 4)

read_all-body_example :
    let r = read_all any_json reads (new_capture_reader (codes "a1") format_raw) in
    let bytes = concat (map (λ c. c.1) reads) in
    (s₁ : Store engine) × (s₂ : Store engine) × (run_calls one_header
        (r.0 ++ (close_reader (pos 3) r.1).0)
        one_in_flight
      ≡ some s₁)
    × (body one_header (codes "a1") side_response s₁ ≡ returns (ok (bytes, length bytes)) s₂)
read_all-body_example =
    read_all-body any_json one_header (codes "a1") format_raw live reads (pos 3) one_in_flight
      new_broker-IsWired one_in_flight-live refl refl

-- The header decides before the bytes do.
header_first :
    detect_format any_json (codes " Text/Event-Stream; charset=utf-8") (codes "{}") ≡ format_sse
unfolding detect_format
header_first = refl

sniffed_lines : detect_format any_json [] (codes " {}\n\n{}\n") ≡ format_ndjson
unfolding detect_format
sniffed_lines = refl

sniffed_document : detect_format any_json (codes "text/plain") (codes "{}") ≡ format_json
unfolding detect_format
sniffed_document = refl

chat_path : is_ollama_path (codes "/proxy/api/chat") ≡ true
unfolding is_ollama_path
chat_path = refl
