-- ===== src/Store/Sqlite.antt =====
-- internal/store/sqlite.go: the finished entries. The engine is a library: it enters as a record of
-- the statements that the file sends, with their documented meaning over `rows`, the rows of the
-- table from the latest inserted one. Which rows come first among those of one `started_at` is the
-- engine's choice. `faults` says which of the next statements fail (`true`); after the list none does.
pub mod Unique
pub mod Keeps
pub mod Engine
pub mod Retention
use mathlib.Core.Option
use mathlib.Core.List.{Permᴰ}
use http_debug.Base.{
  is_member, ℕ, ◌≡◌, Bool, true, false, not, ◌||◌, Option, none, some, List, [], ◌∷◌, Str, str_eq,
  take, drop, keep, map, if◌then◌else◌,
}
use http_debug.Base.Int.{ℤ, ◌≤ℤ◌, ltb_ℤ}
use http_debug.Time.{Time, is_zero, unix_milli}
use http_debug.Store.Entry.{Entry}
use http_debug.Store.Result.{Result, ok, err, not_found, failed, ◌>>=◌}
use http_debug.Store.Rows.{Codec, Row, to_row, scan_entry}

-- The row of an id.
abbrev pub find_row : Str → List Row → Option Row
find_row id [] = none
find_row id (r ∷ rs) = if str_eq r.id id then some r else find_row id rs

-- The other rows.
abbrev pub without : Str → List Row → List Row
without id = keep (λ r. not (str_eq r.id id))

abbrev pub row_ids : List Row → List Str
row_ids = map (λ r. r.id)

-- WHERE started_at < ?, where there is such a bound
abbrev pub in_page : Option ℤ → Row → Bool
in_page none r = true
in_page (some ms) r = ltb_ℤ r.started_at ms

-- ORDER BY started_at DESC
abbrev pub NotBefore : Row → List Row → Type 0
NotBefore r [] = Unit
NotBefore r (q ∷ qs) = (q.started_at ≤ℤ r.started_at) × NotBefore r qs

abbrev pub NewestFirst : List Row → Type 0
NewestFirst [] = Unit
NewestFirst (r ∷ rs) = NotBefore r rs × NewestFirst rs

-- `ordered` is a list of these rows in an order that the clause allows.
pub record Ordered (rows ordered : List Row) : Type 0 where
  pub sorted : NewestFirst ordered
  pub same : Permᴰ ordered rows

pub record Sqlite : Type 1 where
  pub Table : Type 0
  pub rows : Table → List Row
  -- INSERT OR REPLACE
  pub insert_row : Row → Table → Table
  -- DELETE … WHERE id = ?, DELETE
  pub delete_row : Str → Table → Table
  pub delete_all : Table → Table
  -- SELECT id
  pub select_ids : Table → List Str
  -- SELECT … WHERE id = ?
  pub select_row : Str → Table → Option Row
  -- SELECT … [WHERE started_at < ?] ORDER BY started_at DESC, in the order that the engine takes
  pub select_order : Option ℤ → Table → List Row
  -- SELECT id … ORDER BY started_at DESC, in the order that the engine takes
  pub select_id_order : Table → List Row
  pub rows-insert_row : (r : Row) (t : Table) → rows (insert_row r t) ≡ r ∷ without r.id (rows t)
  pub rows-delete_row : (id : Str) (t : Table) → rows (delete_row id t) ≡ without id (rows t)
  pub rows-delete_all : (t : Table) → rows (delete_all t) ≡ []
  pub select_ids_lem :
      (id : Str) (t : Table) → is_member id (select_ids t) ≡ is_member id (row_ids (rows t))
  pub select_row_lem : (id : Str) (t : Table) → select_row id t ≡ find_row id (rows t)
  pub select_order_lem :
      (b : Option ℤ) (t : Table) → Ordered (keep (in_page b) (rows t)) (select_order b t)
  pub select_id_order_lem : (t : Table) → Ordered (rows t) (select_id_order t)

module _ (sql : Sqlite) where
  open sql use {
    Table, insert_row, delete_row, delete_all, select_ids, select_row, select_order,
    select_id_order,
  }

  pub record SqlDb : Type 0 where
    pub table : Table
    pub faults : List Bool

  abbrev pub fault_of : List Bool → Bool
  fault_of [] = false
  fault_of (f ∷ fs) = f

  abbrev pub faults_after : List Bool → List Bool
  faults_after [] = []
  faults_after (f ∷ fs) = fs

  -- One statement: it fails, or has its result and leaves the table that it makes.
  abbrev pub exec {ℓ} : {A : Type ℓ} → (Table → A × Table) → SqlDb → Result A × SqlDb
  exec stmt db =
      let db' = record db { faults = faults_after db.faults } in
      if fault_of db.faults
      then (err failed, db')
      else (let (a, t) = stmt db.table in (ok a, record db' { table = t }))

  -- `if err != nil { return err }`, and the rest.
  abbrev pub and_then :
      {A B : Type 0} → (A → SqlDb → Result B × SqlDb) → Result A × SqlDb → Result B × SqlDb
  and_then f (ok a, db) = f a db
  and_then f (err e, db) = (err e, db)

  abbrev pub insert_values : Option Row → SqlDb → Result (Unit {0}) × SqlDb
  insert_values none db = (err failed, db)
  insert_values (some r) db = exec {A = Unit {0}} (λ t. (tt, insert_row r t)) db

  -- insert
  unfoldable pub db_insert : Codec → Entry → SqlDb → Result (Unit {0}) × SqlDb
  unfolding to_row
  db_insert json e db = insert_values (to_row json e) db

  abbrev pub scanned : Option Entry → Result Entry
  scanned none = err failed
  scanned (some e) = ok e

  abbrev pub row_result : Codec → Result (Option Row) → Result Entry
  row_result json (err e) = err e
  row_result json (ok none) = err not_found
  row_result json (ok (some r)) = scanned (scan_entry json r)

  -- get
  unfoldable pub db_get : Codec → Str → SqlDb → Result Entry × SqlDb
  unfolding scan_entry
  db_get json id db = let (r, db') = exec (λ t. (select_row id t, t)) db in (row_result json r, db')

  -- The loop over the rows: the first one that does not scan ends it.
  unfoldable pub scan_rows : Codec → List Row → Result (List Entry)
  scan_rows json [] = ok []
  scan_rows json (r ∷ rs) = do e ← scanned (scan_entry json r); es ← scan_rows json rs; ok (e ∷ es)

  abbrev pub bound : Time → Option ℤ
  bound cursor = if is_zero cursor then none else some (unix_milli cursor)

  abbrev pub page_result : Codec → Result (List Row) → Result (List Entry)
  page_result json rs = do rows ← rs; scan_rows json rows

  -- list
  unfoldable pub db_list : Codec → ℕ → Time → SqlDb → Result (List Entry) × SqlDb
  unfolding scan_rows
  db_list json limit cursor db =
      let (rs, db') = exec (λ t. (take limit (select_order (bound cursor) t), t)) db in
      (page_result json rs, db')

  -- overflowIDs: LIMIT -1 OFFSET ?
  unfoldable pub overflow_ids : ℕ → SqlDb → Result (List Str) × SqlDb
  overflow_ids max_entries db = exec (λ t. (row_ids (drop max_entries (select_id_order t)), t)) db

  -- The loop over the victims: the first statement that fails ends it.
  unfoldable pub delete_rows : List Str → SqlDb → Result (Unit {0}) × SqlDb
  delete_rows [] db = (ok tt, db)
  delete_rows (id ∷ ids) db =
      and_then (λ _. delete_rows ids) (exec {A = Unit {0}} (λ t. (tt, delete_row id t)) db)

  -- applyRetention
  unfoldable pub apply_retention : ℕ → SqlDb → Result (List Str) × SqlDb
  unfolding overflow_ids delete_rows
  apply_retention max_entries db =
      and_then (λ victims db'. and_then (λ _ db''. (ok victims, db'')) (delete_rows victims db'))
        (overflow_ids max_entries db)

  -- knownIDs
  unfoldable pub known_ids : SqlDb → Result (List Str) × SqlDb
  known_ids db = exec (λ t. (select_ids t, t)) db

  -- clear
  unfoldable pub db_clear : SqlDb → Result (List Str) × SqlDb
  unfolding known_ids
  db_clear db =
      and_then
        (λ ids db'.
          and_then (λ _ db''. (ok ids, db'')) (exec {A = Unit {0}} (λ t. (tt, delete_all t)) db'))
        (known_ids db)
