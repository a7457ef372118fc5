-- ===== src/Web/Routes.antt =====
-- internal/web/server.go: the handlers of the REST routes. The encoding of the answers and the
-- decoding of a composed request are of libraries.
use http_debug.Base.{
  ℕ, ◌*◌, ◌^◌, ◌==◌, Bool, not, ◌&&◌, Option, none, some, List, ◌++◌, Str, codes, str_eq, length,
  map, min, take, if◌then◌else◌,
}
use http_debug.Base.Int.{ℤ, pos, negsuc}
use http_debug.Base.Decimal.{parse_int}
use http_debug.Time.{Time, zero_time, of_unix_milli}
use http_debug.Store.Entry.{Entry, Side, side_request, side_response}
use http_debug.Store.Result.{Result, ok, err, not_found, failed}
use http_debug.Store.Rows.{Codec}
use http_debug.Store.Action.{Outcome, Action, returns, panics}
use http_debug.Store.Sqlite.{Sqlite}
use http_debug.Store.Ops.{Store}
use http_debug.Store.Ops.Finish.{clear}
use http_debug.Store.Ops.Read.{get, list, body}
use http_debug.Proxy.Header.{header_get}
use http_debug.Proxy.Exchange.{Libraries, content_type}
use http_debug.Proxy.Replay.{
  ReplayRequest, ReplayError, capture_failed, Sending, Replayed, refused, sending, replay,
}
use http_debug.Web.Payloads.{ListRow, new_list_row, Detail, new_detail}

-- `raw` is the content type, the content length and the bytes that are copied.
pub data Payload : Type 0 where
  requests : List ListRow → Payload
  detail : Detail → Payload
  raw : Str → ℕ → Str → Payload
  replayed target_url error : Str → Payload
  replay_error : ReplayError → Payload
  empty : Payload

pub record Answer : Type 0 where
  pub status : ℕ
  pub payload : Payload

-- writeJSON
abbrev pub write_json : ℕ → Payload → Answer
write_json status payload = record { status = status; payload = payload }

-- writeError
abbrev pub write_error : ℕ → Str → Answer
write_error status msg = write_json status (error msg)

-- fail
abbrev pub fail : Str → Answer
fail what = write_error 500 (what ++ codes " failed")

abbrev pub no_such_request : Answer
no_such_request = write_error 404 (codes "no such request")

abbrev pub capped : Option ℤ → Option ℕ
capped none = none
capped (some (negsuc n)) = none
capped (some (pos n)) = if n == 0 then none else some (min n 500)

-- The limit, unless it is not a positive integer.
unfoldable pub limit_of : Str → Option ℕ
unfolding parse_int
limit_of v = if length v == 0 then some 100 else capped (parse_int v)

abbrev pub instant : Option ℤ → Option Time
instant none = none
instant (some ms) = some (of_unix_milli ms)

unfoldable pub before_of : Str → Option Time
unfolding parse_int
before_of v = if length v == 0 then some zero_time else instant (parse_int v)

abbrev pub bad_limit : Answer
bad_limit = write_error 400 (codes "limit must be a positive integer")

abbrev pub bad_before : Answer
bad_before = write_error 400 (codes "before must be a unix timestamp in milliseconds")

abbrev pub listed : Result (List Entry) → Answer
listed (ok es) = write_json 200 (requests (map new_list_row es))
listed (err e) = fail (codes "list requests")

abbrev pub shown : (Str → Option (Str × Str)) → Result Entry → Answer
shown fragment (ok e) = write_json 200 (detail (new_detail fragment e))
shown fragment (err not_found) = no_such_request
shown fragment (err failed) = fail (codes "get request")

-- The type under which a body is served.
unfoldable pub served_type : Side → Entry → Str
unfolding header_get str_eq
served_type side e =
    let ct =
      header_get content_type
        (if str_eq side side_request then e.request_headers else e.response_headers) in
    if length ct == 0 then codes "application/octet-stream" else ct

abbrev pub streamed : Side → Entry → Result (Str × ℕ) → Answer
streamed side e (ok (bytes, size)) = write_json 200 (raw (served_type side e) size bytes)
streamed side e (err x) = fail (codes "open body")

abbrev pub is_side : Side → Bool
is_side side = not (not (str_eq side side_request) && not (str_eq side side_response))

abbrev pub cleared_answer : Result (Unit {0}) → Answer
cleared_answer (ok u) = write_json 204 empty
cleared_answer (err e) = fail (codes "clear history")

-- The answer, and what goes on to be sent.
abbrev pub replay_answer : Result Replayed → Answer × Option Sending
replay_answer (ok (sending p)) = (write_json 202 (replayed p.exchange.id), some p)
replay_answer (ok (refused e)) = (write_json 400 (replay_error e), none)
replay_answer (err e) = (write_json 400 (replay_error capture_failed), none)

module _ {sql : Sqlite} where
  -- The answer to a result of the store.
  abbrev pub answering :
      {A : Type 0} → (Result A → Answer) → Outcome (Store sql) A → Outcome (Store sql) Answer
  answering f (returns r s) = returns (ok (f r)) s
  answering f panics = panics

  abbrev pub list_page : Codec → Option ℕ → Option Time → Action (Store sql) Answer
  list_page json none before s = returns (ok bad_limit) s
  list_page json (some limit) none s = returns (ok bad_before) s
  list_page json (some limit) (some before) s = answering listed (list json limit before s)

  -- listRequests, by the values of the query's `limit` and `before`
  unfoldable pub list_requests : Codec → Str → Str → Action (Store sql) Answer
  unfolding limit_of before_of
  list_requests json limit before = list_page json (limit_of limit) (before_of before)

  -- getRequest
  unfoldable pub get_request : (Str → Option (Str × Str)) → Codec → Str → Action (Store sql) Answer
  unfolding new_detail
  get_request fragment json id s = answering (shown fragment) (get json id s)

  abbrev pub body_found :
      Codec → Str → Side → Outcome (Store sql) Entry → Outcome (Store sql) Answer
  body_found json id side (returns (ok e) s) = answering (streamed side e) (body json id side s)
  body_found json id side (returns (err not_found) s) = returns (ok no_such_request) s
  body_found json id side (returns (err failed) s) = returns (ok (fail (codes "get request"))) s
  body_found json id side panics = panics

  -- getBody
  unfoldable pub get_body : Codec → Str → Side → Action (Store sql) Answer
  unfolding served_type str_eq
  get_body json id side s =
      if is_side side
      then body_found json id side (get json id s)
      else returns (ok (write_error 400 (codes "side must be \"request\" or \"response\""))) s

  -- clearRequests
  unfoldable pub clear_requests : Action (Store sql) Answer
  clear_requests s = answering cleared_answer (clear s)

  abbrev pub replaying :
      Outcome (Store sql) Replayed → Outcome (Store sql) (Answer × Option Sending)
  replaying (returns r s) = returns (ok (replay_answer r)) s
  replaying panics = panics

  abbrev pub decoded :
      Libraries
      → Option Str
      → Time
      → Option ReplayRequest
      → Action (Store sql) (Answer × Option Sending)
  decoded lib fresh now none s = returns (ok (write_error 400 (codes "invalid JSON body"), none)) s
  decoded lib fresh now (some r) s = replaying (replay lib fresh now r s)

  -- replayRequest, with what json.NewDecoder makes of the first 32 MiB of the body; the decoder's own
  -- message is left out.
  unfoldable pub replay_request :
      (Str → Option ReplayRequest)
      → Libraries
      → Option Str
      → Time
      → Str
      → Action (Store sql) (Answer × Option Sending)
  unfolding replay
  replay_request decode lib fresh now text =
      decoded lib fresh now (decode (take (32 * 2 ^ 20) text))

-- getConfig
abbrev pub get_config : Str → Answer
get_config target = write_json 200 (target_url target)
