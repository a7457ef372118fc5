-- ===== src/Store/Entry.antt =====
-- The data model of internal/store/store.go: an entry is one captured exchange. A Go string type
-- (Status, Format, Side) is its bytes, so that a value read back from outside needs no case of its
-- own; a nil and an empty header are the same list.
use http_debug.Base.{ℕ, Bool, Option, List, Str, codes}
use http_debug.Base.Int.{ℤ}
use http_debug.Time.{Time}

abbrev pub Status : Type 0
Status = Str

abbrev pub status_pending : Status
status_pending = codes "pending"

abbrev pub status_done : Status
status_done = codes "done"

abbrev pub status_error : Status
status_error = codes "error"

abbrev pub Format : Type 0
Format = Str

abbrev pub format_json : Format
format_json = codes "json"

abbrev pub format_xml : Format
format_xml = codes "xml"

abbrev pub format_ndjson : Format
format_ndjson = codes "ndjson"

abbrev pub format_sse : Format
format_sse = codes "sse"

abbrev pub format_raw : Format
format_raw = codes "raw"

abbrev pub Side : Type 0
Side = Str

abbrev pub side_request : Side
side_request = codes "request"

abbrev pub side_response : Side
side_response = codes "response"

-- http.Header
abbrev pub Header : Type 0
Header = List (Str × List Str)

pub record Entry : Type 0 where
  pub id : Str
  pub method : Str
  pub url : Str
  pub status : Status
  pub status_code : ℕ
  pub error : Str
  pub request_format : Format
  pub response_format : Format
  pub is_ollama : Bool
  pub is_replay : Bool
  pub request_headers : Header
  pub response_headers : Header
  pub request_body : Str
  pub request_body_path : Str
  pub request_body_size : ℕ
  pub request_spilled : Bool
  pub response_body : Str
  pub response_body_path : Str
  pub response_body_size : ℕ
  pub response_spilled : Bool
  pub started_at : Time
  pub finished_at : Option Time
  pub ttfb_ms : Option ℤ
  pub stream_ms : Option ℤ
  pub total_ms : Option ℤ
