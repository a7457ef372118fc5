-- ===== src/Store/Memory.antt =====
-- internal/store/memory.go: the entries in flight. The lock of the map makes each call one step, and
-- one reading of the clock is an argument of each call.
use http_debug.Base.{Bool, not, ◌&&◌, List, [], ◌∷◌, Str, if◌then◌else◌, map, keep}
use http_debug.Base.Map.{insert}
use http_debug.Time.{Time, Duration, before, is_zero}
use http_debug.Base.Int.{◌-ℤ◌}
use http_debug.Store.Entry.{Entry, side_request, side_response}
use http_debug.Store.Blobs.{BodyBuffer, buffer, state}

pub record LiveEntry : Type 0 where
  pub entry : Entry
  pub req : BodyBuffer
  pub resp : BodyBuffer
  pub last_seen : Time

abbrev pub MemStore : Type 0
MemStore = List (Str × LiveEntry)

abbrev pub new_live : Entry → Time → LiveEntry
new_live e now = record {
  entry = e;
  req = buffer e.id side_request;
  resp = buffer e.id side_response;
  last_seen = now;
}

unfoldable pub mem_put : Entry → Time → MemStore → MemStore
mem_put e now m = insert e.id (new_live e now) m

-- update
unfoldable pub update_live : (Entry → Entry) → Time → LiveEntry → LiveEntry
update_live fn now l = record l { entry = fn l.entry; last_seen = now }

unfoldable pub touch : Time → LiveEntry → LiveEntry
touch now l = record l { last_seen = now }

-- The entry, with the current state of both bodies folded in.
unfoldable pub snapshot : LiveEntry → Entry
unfolding state
snapshot l =
    let (req_body, req_path, req_size, req_spilled) = state l.req in
    let (resp_body, resp_path, resp_size, resp_spilled) = state l.resp in
    record l.entry {
      request_body = req_body;
      request_body_path = req_path;
      request_body_size = req_size;
      request_spilled = req_spilled;
      response_body = resp_body;
      response_body_path = resp_path;
      response_body_size = resp_size;
      response_spilled = resp_spilled;
    }

-- The test in `list`: a zero `cursor` takes every entry.
abbrev pub is_older : Time → Entry → Bool
is_older cursor e = not (not (is_zero cursor) && not (before e.started_at cursor))

unfoldable pub mem_list : Time → MemStore → List Entry
mem_list cursor m = keep (is_older cursor) (map (λ (k, l). snapshot l) m)

unfoldable pub stale_ids : Duration → Time → MemStore → List Str
stale_ids timeout now [] = []
stale_ids timeout now ((id, live) ∷ m) =
    let rest = stale_ids timeout now m in
    if before live.last_seen (now -ℤ timeout) then id ∷ rest else rest
