-- ===== src/Tests/Rows.antt =====
-- Entries, rows and retention.
use http_debug.Base.{ℕ, ◌+◌, ◌≡◌, refl, true, false, none, some, List, [], ◌∷◌, Str, codes, str_eq}
use http_debug.Base.Int.{pos}
use http_debug.Store.Entry.{Entry, Header, status_done, format_json}
use http_debug.Store.Result.{ok}
use http_debug.Store.Rows.{Codec, Row, to_row, scan_entry, row_of}
use http_debug.Store.Rows.RoundTrip.{stored, scan_entry-to_row}
use http_debug.Store.Sqlite.{SqlDb, apply_retention}
use http_debug.Store.Sqlite.Engine.{engine}
use http_debug.Store.Sqlite.Retention.{Retained, apply_retention-Retained}

abbrev pub json_header : Header
json_header = (codes "Content-Type", codes "application/json" ∷ []) ∷ []

-- A codec that knows one header.
abbrev pub one_header : Codec
one_header = record {
  marshal = λ h. some (codes "{\"Content-Type\":[\"application/json\"]}");
  unmarshal = λ s. some json_header;
}

abbrev pub entry_at : Str → ℕ → Entry
entry_at id t = record {
  id = id;
  method = codes "GET";
  url = codes "http://backend/api";
  status = status_done;
  status_code = 200;
  error = [];
  request_format = [];
  response_format = format_json;
  is_ollama = false;
  is_replay = false;
  request_headers = [];
  response_headers = json_header;
  request_body = [];
  request_body_path = [];
  request_body_size = 0;
  request_spilled = false;
  response_body = codes "{";
  response_body_path = codes "/data/blobs/a1-response";
  response_body_size = 9;
  response_spilled = true;
  started_at = pos t;
  finished_at = some (pos (t + 1500000));
  ttfb_ms = some (pos 1);
  stream_ms = none;
  total_ms = some (pos 1);
}

scan_entry-to_row_example :
    (r : Row) × (to_row one_header (entry_at (codes "a1") 2700000) ≡ some r)
    × (scan_entry one_header r ≡ some (stored (entry_at (codes "a1") 2700000)))
scan_entry-to_row_example =
    scan_entry-to_row one_header (entry_at (codes "a1") 2700000) (λ n. absurd (n refl))
      (λ _. record {
        text = codes "{\"Content-Type\":[\"application/json\"]}";
        marshals = refl;
        not_empty = λ e. cc;
        unmarshals = refl;
      })
      (record { request = refl; response = refl })

abbrev row_at : Str → ℕ → Row
row_at id t = row_of none none (entry_at id t)

abbrev three_rows : SqlDb engine
three_rows = record {
  table = row_at (codes "b") 3000000 ∷ row_at (codes "a") 1000000 ∷ row_at (codes "c") 2000000 ∷ [];
  faults = [];
}

apply_retention-Retained_example :
    (victims : List Str) × (db' : SqlDb engine) × (apply_retention engine 2 three_rows
      ≡ (ok victims, db'))
    × Retained engine 2 three_rows victims db'
unfolding str_eq
apply_retention-Retained_example =
    apply_retention-Retained engine 2 three_rows (refl, (refl, (refl, tt))) refl
