-- ===== src/Web/Payloads.antt =====
-- internal/web/server.go: what the routes and the event stream answer with, before its encoding as JSON.
use http_debug.Base.{
  ℕ, Bool, not, Option, some, List, [], ◌∷◌, ◌++◌, Str, codes, str_eq, if◌then◌else◌,
}
use mathlib.Core.Option
use http_debug.Base.Int.{ℤ}
use http_debug.Time.{unix_milli}
use http_debug.Store.Entry.{Entry, Header, Status, Format, Side, side_request, side_response}
use http_debug.Store.Events.{Event, EventType, created, updated, delta, deleted}
use http_debug.Proxy.Preview.{ollama_preview}
use http_debug.Web.Utf8.{valid_utf8}

pub record ListRow : Type 0 where
  pub id : Str
  pub method : Str
  pub url : Str
  pub status : Status
  pub status_code : ℕ
  pub error : Str
  pub request_format : Format
  pub response_format : Format
  pub is_ollama : Bool
  pub is_replay : Bool
  pub started_at : ℤ
  pub ttfb_ms : Option ℤ
  pub stream_ms : Option ℤ
  pub total_ms : Option ℤ

-- newListRow
abbrev pub new_list_row : Entry → ListRow
new_list_row e = record {
  id = e.id;
  method = e.method;
  url = e.url;
  status = e.status;
  status_code = e.status_code;
  error = e.error;
  request_format = e.request_format;
  response_format = e.response_format;
  is_ollama = e.is_ollama;
  is_replay = e.is_replay;
  started_at = unix_milli e.started_at;
  ttfb_ms = e.ttfb_ms;
  stream_ms = e.stream_ms;
  total_ms = e.total_ms;
}

pub record BodyPayload : Type 0 where
  pub format : Format
  pub size : ℕ
  pub body : Str
  pub truncated : Bool
  pub binary : Bool
  pub url : Str

abbrev pub body_url : Str → Side → Str
body_url id side = codes "/api/requests/" ++ id ++ codes "/body/" ++ side

abbrev pub payload_with : Str → Bool → ℕ → Format → Str → BodyPayload
payload_with body spilled size format url =
    let text = valid_utf8 body in
    record {
      format = format;
      size = size;
      body = if text then body else [];
      truncated = spilled;
      binary = not text;
      url = url;
    }

-- newBodyPayload
unfoldable pub new_body_payload : Entry → Side → BodyPayload
unfolding valid_utf8 str_eq
new_body_payload e side =
    if str_eq side side_request
    then payload_with e.request_body e.request_spilled e.request_body_size e.request_format
        (body_url e.id side)
    else payload_with e.response_body e.response_spilled e.response_body_size e.response_format
        (body_url e.id side)

-- strings.Join(values, ", ")
abbrev pub joined : List Str → Str
joined [] = []
joined (v ∷ []) = v
joined (v ∷ vs) = v ++ codes ", " ++ joined vs

-- flattenHeader
abbrev pub flatten_header : Header → List (Str × Str)
flatten_header [] = []
flatten_header ((name, values) ∷ h) = (name, joined values) ∷ flatten_header h

pub record Detail : Type 0 where
  pub row : ListRow
  pub finished_at : Option ℤ
  pub request_headers : List (Str × Str)
  pub response_headers : List (Str × Str)
  pub request : BodyPayload
  pub response : BodyPayload
  pub ollama_preview : Str

-- newDetail
unfoldable pub new_detail : (Str → Option (Str × Str)) → Entry → Detail
unfolding new_body_payload ollama_preview
new_detail fragment e = record {
  row = new_list_row e;
  finished_at = Option.map unix_milli e.finished_at;
  request_headers = flatten_header e.request_headers;
  response_headers = flatten_header e.response_headers;
  request = new_body_payload e side_request;
  response = new_body_payload e side_response;
  ollama_preview =
      if e.is_ollama then ollama_preview fragment e.response_format e.response_body else [];
}

pub data EventPayload : Type 0 where
  row : ListRow → EventPayload
  progress : Str → Status → ℕ → Option ℤ → Option ℤ → Option ℤ → EventPayload
  piece : Str → Str → EventPayload
  only_id : Str → EventPayload

-- The values of EventType
abbrev pub event_name : EventType → Str
event_name created = codes "created"
event_name updated = codes "updated"
event_name delta = codes "delta"
event_name deleted = codes "deleted"

abbrev progress_of : Str → Entry → EventPayload
progress_of id e = progress id e.status e.status_code e.ttfb_ms e.stream_ms e.total_ms

abbrev payload_by : EventType → Event → Option EventPayload
payload_by created ev = Option.map (λ e. row (new_list_row e)) ev.entry
payload_by updated ev = Option.map (progress_of ev.id) ev.entry
payload_by delta ev = some (piece ev.id ev.chunk)
payload_by deleted ev = some (only_id ev.id)

-- eventPayload; `none` is the panic of an event that lacks its entry.
unfoldable pub event_payload : Event → Option EventPayload
event_payload ev = payload_by ev.type ev
