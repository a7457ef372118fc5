-- ===== src/Store/Rows.antt =====
-- The rows of internal/store/sqlite.go: an entry as the columns of the table `requests`, and back. A
-- column that may be NULL is an `Option`. The JSON text of a header is made and read by a codec.
pub mod RoundTrip
use http_debug.Base.{
  ℕ, ◌==◌, Bool, true, false, not, ◌||◌, Option, none, some, List, [], ◌∷◌, Str, length,
  if◌then◌else◌,
}
use mathlib.Core.Option
use http_debug.Base.Int.{ℤ}
use http_debug.Time.{Time, unix_milli, of_unix_milli}
use http_debug.Store.Entry.{Entry, Header}

-- encoding/json at `http.Header`. `none` is an error.
pub record Codec : Type 0 where
  pub marshal : Header → Option Str
  pub unmarshal : Str → Option Header

pub record Row : Type 0 where
  pub id : Str
  pub method : Str
  pub url : Str
  pub status : Str
  pub status_code : Option ℕ
  pub error : Option Str
  pub request_format : Option Str
  pub response_format : Option Str
  pub is_ollama : Bool
  pub is_replay : Bool
  pub request_headers : Option Str
  pub request_body : Option Str
  pub request_body_path : Option Str
  pub request_body_size : ℕ
  pub response_headers : Option Str
  pub response_body : Option Str
  pub response_body_path : Option Str
  pub response_body_size : ℕ
  pub started_at : ℤ
  pub finished_at : Option ℤ
  pub ttfb_ms : Option ℤ
  pub stream_ms : Option ℤ
  pub total_ms : Option ℤ

abbrev pub null_string : Str → Option Str
null_string [] = none
null_string (c ∷ s) = some (c ∷ s)

abbrev pub null_int : ℕ → Bool → Option ℕ
null_int v ok = if ok then some v else none

abbrev pub null_time : Option Time → Option ℤ
null_time none = none
null_time (some t) = some (unix_milli t)

abbrev pub blob_column : Str → Bool → Option Str
blob_column body spilled = if spilled || length body == 0 then none else some body

-- A NULL text, scanned, is the empty string.
abbrev pub text_of : Option Str → Str
text_of none = []
text_of (some s) = s

abbrev pub int_of : Option ℕ → ℕ
int_of none = 0
int_of (some n) = n

abbrev pub is_valid : Option Str → Bool
is_valid none = false
is_valid (some s) = true

abbrev pub time_of : Option ℤ → Option Time
time_of none = none
time_of (some ms) = some (of_unix_milli ms)

module _ (json : Codec) where
  -- The column, or none where the header cannot be encoded.
  unfoldable pub marshal_header : Header → Option (Option Str)
  marshal_header [] = some none
  marshal_header (f ∷ h) = Option.map some (json.marshal (f ∷ h))

  pub unmarshal_header : Option Str → Option Header
  unmarshal_header none = some []
  unmarshal_header (some []) = some []
  unmarshal_header (some (c ∷ s)) = json.unmarshal (c ∷ s)

abbrev pub row_of : Option Str → Option Str → Entry → Row
row_of req_headers resp_headers e = record {
  id = e.id;
  method = e.method;
  url = e.url;
  status = e.status;
  status_code = null_int e.status_code (not (e.status_code == 0));
  error = null_string e.error;
  request_format = null_string e.request_format;
  response_format = null_string e.response_format;
  is_ollama = e.is_ollama;
  is_replay = e.is_replay;
  request_headers = req_headers;
  request_body = blob_column e.request_body e.request_spilled;
  request_body_path = null_string e.request_body_path;
  request_body_size = e.request_body_size;
  response_headers = resp_headers;
  response_body = blob_column e.response_body e.response_spilled;
  response_body_path = null_string e.response_body_path;
  response_body_size = e.response_body_size;
  started_at = unix_milli e.started_at;
  finished_at = null_time e.finished_at;
  ttfb_ms = e.ttfb_ms;
  stream_ms = e.stream_ms;
  total_ms = e.total_ms;
}

abbrev pub entry_of : Header → Header → Row → Entry
entry_of req_headers resp_headers r = record {
  id = r.id;
  method = r.method;
  url = r.url;
  status = r.status;
  status_code = int_of r.status_code;
  error = text_of r.error;
  request_format = text_of r.request_format;
  response_format = text_of r.response_format;
  is_ollama = r.is_ollama;
  is_replay = r.is_replay;
  request_headers = req_headers;
  response_headers = resp_headers;
  request_body = text_of r.request_body;
  request_body_path = text_of r.request_body_path;
  request_body_size = r.request_body_size;
  request_spilled = is_valid r.request_body_path;
  response_body = text_of r.response_body;
  response_body_path = text_of r.response_body_path;
  response_body_size = r.response_body_size;
  response_spilled = is_valid r.response_body_path;
  started_at = of_unix_milli r.started_at;
  finished_at = time_of r.finished_at;
  ttfb_ms = r.ttfb_ms;
  stream_ms = r.stream_ms;
  total_ms = r.total_ms;
}

module _ (json : Codec) where
  -- The values that `insert` binds; none where a header cannot be encoded.
  unfoldable pub to_row : Entry → Option Row
  unfolding marshal_header
  to_row e = elim (marshal_header json e.request_headers) [
    | none ↦ none
    | some req ↦ Option.map (λ resp. row_of req resp e) (marshal_header json e.response_headers)
  ]

  -- scanEntry
  unfoldable pub scan_entry : Row → Option Entry
  unfolding unmarshal_header
  scan_entry r = elim (unmarshal_header json r.request_headers) [
    | none ↦ none
    | some req ↦ Option.map (λ resp. entry_of req resp r) (unmarshal_header json r.response_headers)
  ]
