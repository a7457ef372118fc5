-- ===== src/Tests/Endings.antt =====
-- An entry in flight that ends.
use http_debug.Base.{
  ◌≡◌, refl, Bool, true, false, none, some, List, [], Str, map, length, ◌∷◌, codes, str_eq, inr,
}
use http_debug.Base.Int.{pos}
use http_debug.Base.Map.{lookup, insert}
use http_debug.Time.{Time, zero_time}
use http_debug.Store.Entry.{Entry, side_response}
use http_debug.Store.Result.{ok}
use http_debug.Store.Action.{returns}
use http_debug.Store.Blobs.Body.{concat}
use http_debug.Store.Ops.Read.{body}
use http_debug.Store.Ops.Bodies.{append_all, append_all-body}
use http_debug.Store.Events.Wired.{new_broker-IsWired}
use http_debug.Store.Memory.{LiveEntry, new_live, snapshot, update_live}
use http_debug.Store.Rows.{Row, row_of, to_row}
use http_debug.Store.Sqlite.Engine.{engine}
use http_debug.Store.Ops.{Store, put}
use http_debug.Store.Ops.Registered.{Registered, put-Registered}
use http_debug.Store.Ops.Finish.{change_of, ended, finalize}
use http_debug.Store.Ops.Sound.{IsSound, AllKeyed-insert}
use http_debug.Store.Ops.Keeps.{new_live-Keyed}
use http_debug.Store.Ops.Finalized.{IsOver, Finalized, final_entry, finalize-Finalized}
use http_debug.Store.Ops.Unfinished.{Unfinished, finalize-Unfinished}
use http_debug.Tests.Rows.{entry_at, one_header}
use http_debug.Tests.Calls.{empty_store, empty_store-IsSound}

abbrev pub live : LiveEntry
live = new_live (entry_at (codes "a1") 5) (pos 5)

-- The history is empty; `a1` is in flight.
abbrev pub one_in_flight : Store engine
one_in_flight = record empty_store { mem = insert (codes "a1") live [] }

pub one_in_flight-IsSound : IsSound engine one_in_flight
one_in_flight-IsSound = record {
  wired = new_broker-IsWired;
  unique = tt;
  keyed =
      AllKeyed-insert (codes "a1") live [] (new_live-Keyed (entry_at (codes "a1") 5) (pos 5))
        empty_store-IsSound.keyed;
}

pub one_in_flight-live : lookup (codes "a1") one_in_flight.mem ≡ some live
unfolding lookup insert str_eq
one_in_flight-live = refl

abbrev ended_entry : Entry
ended_entry = final_entry none (pos 9) live

abbrev ended_row : Row
ended_row = row_of none (some (codes "{\"Content-Type\":[\"application/json\"]}")) ended_entry

ended_row_lem : to_row one_header ended_entry ≡ some ended_row
unfolding snapshot update_live to_row
ended_row_lem = refl

finalize-Finalized_example :
    IsOver ended_entry
    × Finalized one_header
        (codes "a1")
        ended_entry
        one_in_flight
        (finalize one_header (codes "a1") none (pos 9) one_in_flight)
finalize-Finalized_example =
    finalize-Finalized one_header (codes "a1") none (pos 9) live ended_row one_in_flight
      one_in_flight-IsSound one_in_flight-live ended_row_lem refl

-- The first statement fails.
abbrev failing : Store engine
failing = record one_in_flight { db = record { table = []; faults = true ∷ [] } }

finalize-Unfinished_example :
    let live' = ended (change_of none) (pos 9) live in
    IsOver (snapshot live')
    × (live'.req.file ≡ none)
    × (live'.resp.file ≡ none)
    × Unfinished (codes "a1") live' failing (finalize one_header (codes "a1") none (pos 9) failing)
finalize-Unfinished_example =
    finalize-Unfinished one_header (codes "a1") none (pos 9) live failing one_in_flight-live
      (inr refl)

-- The limit falls inside the second chunk.
abbrev appends : List (Str × Bool × Time)
appends = (codes "abc", true, pos 6) ∷ (codes "def", false, pos 7) ∷ []

append_all-body_example :
    let bytes = concat (map (λ c. c.0) appends) in
    (s₁ : Store engine) × (s₂ : Store engine) × (append_all (codes "a1") appends one_in_flight
      ≡ returns (ok tt) s₁)
    × (body one_header (codes "a1") side_response s₁ ≡ returns (ok (bytes, length bytes)) s₂)
append_all-body_example =
    append_all-body one_header (codes "a1") live appends one_in_flight new_broker-IsWired
      one_in_flight-live refl refl

-- No id, no start, and no status.
abbrev unfilled : Entry
unfilled = record (entry_at [] 5) { started_at = zero_time; status = [] }

put-Registered_example :
    Registered one_header
      (codes "c3")
      (pos 7)
      unfilled
      one_in_flight
      (put (some (codes "c3")) (pos 7) unfilled one_in_flight)
put-Registered_example =
    put-Registered one_header (some (codes "c3")) (codes "c3") (pos 7) unfilled one_in_flight refl
      new_broker-IsWired
