-- ===== src/Tests/Pages.antt =====
-- A page of a store with one entry in flight and a history of one row.
use http_debug.Base.{◌≡◌, refl, none, List, [], ◌∷◌, ◌++◌, codes}
use http_debug.Base.Int.{pos}
use http_debug.Store.Entry.{Entry}
use http_debug.Store.Memory.{new_live, mem_list}
use http_debug.Store.Result.{ok}
use http_debug.Store.Rows.{Row, row_of, entry_of, scan_entry}
use http_debug.Store.Sqlite.{SqlDb, db_list}
use http_debug.Store.Sqlite.Engine.{engine, sort_rows}
use http_debug.Store.Ops.{Store}
use http_debug.Store.Ops.Read.{list}
use http_debug.Store.Ops.Listed.{Listed, list-Listed}
use http_debug.Tests.Rows.{entry_at, one_header}
use http_debug.Tests.Calls.{empty_store}

abbrev pub old_row : Row
old_row = row_of none none (entry_at (codes "b2") 3000000)

abbrev pub history : SqlDb engine
history = record { table = old_row ∷ []; faults = [] }

abbrev pub two_entries : Store engine
two_entries = record empty_store {
  mem = (codes "a1", new_live (entry_at (codes "a1") 4000000) (pos 4000000)) ∷ [];
  db = history;
}

abbrev pub old_entry : Entry
old_entry = entry_of [] [] old_row

abbrev pub merged : List Entry
merged = mem_list (pos 5000000) two_entries.mem ++ old_entry ∷ []

pub history-page :
    db_list engine one_header 1 (pos 5000000) history ≡ (ok (old_entry ∷ []), history)
unfolding db_list sort_rows scan_entry
history-page = refl

list-Listed_example :
    Listed engine one_header
      (pos 5000000)
      1
      two_entries
      (old_entry ∷ [])
      (list one_header 1 (pos 5000000) two_entries)
list-Listed_example =
    list-Listed engine one_header 1 (pos 5000000) two_entries (old_entry ∷ []) history history-page
