-- ===== src/Tests/Calls.antt =====
-- The store's calls, on an empty store with an inline limit of four bytes and a history of two rows.
use http_debug.Base.{◌≡◌, refl, true, none, some, List, [], ◌∷◌, codes}
use http_debug.Base.Int.{pos}
use http_debug.Store.Entry.{Entry, side_response}
use http_debug.Store.Events.{new_broker}
use http_debug.Store.Events.Wired.{new_broker-IsWired}
use http_debug.Store.Sqlite.Engine.{engine}
use http_debug.Store.Ops.{Store}
use http_debug.Store.Ops.Sound.{IsSound}
use http_debug.Store.Ops.Calls.{
  Call, puts, appends, updates, finalizes, clears, subscribes, reads, run_calls, Left,
  run_calls-Left,
}
use http_debug.Tests.Bodies.{four_bytes, empty_disk}
use http_debug.Tests.Rows.{entry_at, one_header}

abbrev pub empty_store : Store engine
empty_store = record {
  mem = [];
  db = record { table = []; faults = [] };
  blobs = four_bytes;
  disk = empty_disk;
  events = new_broker;
  max_entries = 2;
}

pub empty_store-IsSound : IsSound engine empty_store
empty_store-IsSound = record {
  wired = new_broker-IsWired;
  unique = tt;
  keyed = λ id live h. unfold http_debug.Base.Map.lookup in cc;
}

abbrev served : Entry → Entry
served e = record e { status_code = 404 }

abbrev calls : List Call
calls =
    subscribes
    ∷ puts none (pos 5) (entry_at (codes "a1") 5)
    ∷ appends (codes "a1") (codes "abcdef") true (pos 6)
    ∷ updates (codes "a1") served (pos 7)
    ∷ reads (codes "a1") side_response
    ∷ finalizes (codes "a1") (some served) (pos 8)
    ∷ clears
    ∷ []

run_calls-Left_example : Left (run_calls one_header calls empty_store)
run_calls-Left_example =
    run_calls-Left one_header calls empty_store
      (tt, (tt, (tt, (λ e. refl, (tt, (λ e. refl, (tt, tt))))))) empty_store-IsSound
