-- ===== src/Tests/Mixes.antt =====
-- Two responses that come in at once, past the limit of four bytes, and a rough history.
use http_debug.Base.{
  ◌≡◌, refl, Bool, true, false, none, some, List, [], ◌∷◌, Str, codes, str_eq, arith,
}
use http_debug.Base.Int.{pos}
use http_debug.Base.Map.{lookup, insert}
use http_debug.Time.{Time}
use http_debug.Store.Entry.{side_response}
use http_debug.Store.Disk.Separate.{OwnFiles}
use http_debug.Store.Events.Wired.{new_broker-IsWired}
use http_debug.Store.Memory.{mem_put}
use http_debug.Store.Result.{ok}
use http_debug.Store.Action.{returns}
use http_debug.Store.Sqlite.Engine.{engine}
use http_debug.Store.Ops.{Store}
use http_debug.Store.Ops.Read.{body}
use http_debug.Store.Ops.Separate.{Separate, Separate-empty, mem_put-Separate}
use http_debug.Store.Ops.Calls.{Call, puts, sets_body, appends, clears, run_calls}
use http_debug.Store.Ops.Unshared.{run_calls-Separate}
use http_debug.Store.Ops.Mixed.{append_mixed, append_mixed-body}
use http_debug.Tests.Rows.{entry_at, one_header}
use http_debug.Tests.Bodies.{empty_disk, four_bytes}
use http_debug.Tests.Calls.{empty_store, empty_store-IsSound}
use http_debug.Tests.Endings.{live}

abbrev two_in_flight : Store engine
two_in_flight = record empty_store {
  mem = mem_put (entry_at (codes "b2") 6) (pos 6) (mem_put (entry_at (codes "a1") 5) (pos 5) []);
}

abbrev mixed : List (Str × Str × Bool × Time)
mixed =
    (codes "a1", codes "abc", true, pos 7)
    ∷ (codes "b2", codes "uvwxyz", true, pos 8)
    ∷ (codes "a1", codes "def", true, pos 9)
    ∷ (codes "c3", codes "lost", false, pos 10)
    ∷ (codes "b2", codes "!", false, pos 11)
    ∷ (codes "a1", codes "g", false, pos 12)
    ∷ []

empty_disk-OwnFiles : OwnFiles empty_disk
unfolding lookup
empty_disk-OwnFiles = record {
  apart = λ p q i h k. absurd (ground (arith, h));
  below = λ p i h. absurd (ground (arith, h));
}

two_in_flight-Separate : Separate four_bytes two_in_flight.mem empty_disk
two_in_flight-Separate =
    mem_put-Separate four_bytes (entry_at (codes "b2") 6) (pos 6) _ empty_disk (
      mem_put-Separate four_bytes (entry_at (codes "a1") 5) (pos 5) [] empty_disk
        (Separate-empty four_bytes empty_disk empty_disk-OwnFiles))

two_in_flight-live : lookup (codes "a1") two_in_flight.mem ≡ some live
unfolding lookup insert str_eq mem_put
two_in_flight-live = refl

append_mixed-body_example :
    (s₁ : Store engine) × (s₂ : Store engine) × (append_mixed mixed two_in_flight
      ≡ returns (ok tt) s₁)
    × (body one_header (codes "a1") side_response s₁ ≡ returns (ok (codes "abcdefg", 7)) s₂)
unfolding str_eq
append_mixed-body_example =
    append_mixed-body one_header (codes "a1") live mixed two_in_flight new_broker-IsWired
      two_in_flight-Separate two_in_flight-live refl refl

-- Registered twice, cleared while its body is written, and written once more.
abbrev rough : List Call
rough =
    puts none (pos 5) (entry_at (codes "a1") 5)
    ∷ sets_body (codes "a1") (codes "abcdef")
    ∷ puts none (pos 6) (entry_at (codes "a1") 6)
    ∷ appends (codes "a1") (codes "uvwxyz") true (pos 7)
    ∷ clears
    ∷ appends (codes "a1") (codes "!") true (pos 8)
    ∷ []

run_calls-Separate_example :
    (s' : Store engine) × (run_calls one_header rough empty_store ≡ some s')
    × Separate s'.blobs s'.mem s'.disk
run_calls-Separate_example =
    run_calls-Separate one_header rough empty_store (tt, (tt, (tt, (tt, (tt, (tt, tt))))))
      empty_store-IsSound (Separate-empty four_bytes empty_disk empty_disk-OwnFiles)
