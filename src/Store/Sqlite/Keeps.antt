-- ===== src/Store/Sqlite/Keeps.antt =====
-- Every statement keeps the ids of the history distinct, whether or not it fails.
use http_debug.Base.{
  is_member, ℕ, ◌≡◌, refl, Bool, false, Option, none, some, List, [], ◌∷◌, Str, arith, keep, drop,
  if_either,
}
use http_debug.Store.Entry.{Entry}
use http_debug.Store.Result.{Result, ok, err}
use http_debug.Store.Rows.{Codec, Row, to_row}
use http_debug.Store.Sqlite.{
  Sqlite, SqlDb, row_ids, without, db_insert, delete_rows, apply_retention, overflow_ids, db_clear,
  known_ids, exec, and_then, fault_of, insert_values,
}
use http_debug.Store.Sqlite.Unique.{UniqueIds}

is_member-keep :
    (p : Row → Bool) (k : Str) (rs : List Row)
    → is_member k (row_ids rs) ≡ false
    → is_member k (row_ids (keep p rs)) ≡ false
is_member-keep p k [] h = refl
is_member-keep p k (r ∷ rs) h = ground (arith, is_member-keep p k rs)

UniqueIds-keep : (p : Row → Bool) (rs : List Row) → UniqueIds rs → UniqueIds (keep p rs)
UniqueIds-keep p [] u = tt
UniqueIds-keep p (r ∷ rs) u = ground (arith, UniqueIds-keep p rs u.1, is_member-keep p r.id rs u.0)

is_member-without : (k : Str) (rs : List Row) → is_member k (row_ids (without k rs)) ≡ false
is_member-without k [] = refl
is_member-without k (r ∷ rs) = ground (arith, is_member-without k rs)

-- A row in place of any of its id.
pub UniqueIds-without : (r : Row) (rs : List Row) → UniqueIds rs → UniqueIds (r ∷ without r.id rs)
UniqueIds-without r rs u = (is_member-without r.id rs, UniqueIds-keep _ rs u)

module _ (sql : Sqlite) where
  open sql use {Table, rows, insert_row, delete_row, delete_all}

  abbrev pub HasUniqueIds : SqlDb sql → Type 0
  HasUniqueIds db = UniqueIds (rows db.table)

  -- The database that a call leaves.
  pub record StaysUnique {A : Type 0} (x : Result A × SqlDb sql) : Type 0 where
    pub ids : HasUniqueIds x.1

  exec-keeps :
      {A : Type 0} (stmt : Table → A × Table) (db : SqlDb sql)
      → HasUniqueIds db
      → UniqueIds (rows (stmt db.table).1)
      → StaysUnique (exec sql stmt db)
  exec-keeps {A} stmt db u v =
      if_either (λ (x : Result A × SqlDb sql). StaysUnique x) (fault_of sql db.faults)
        (record { ids = u }) (record { ids = v })

  and_then-keeps :
      {A B : Type 0} (f : A → SqlDb sql → Result B × SqlDb sql) (x : Result A × SqlDb sql)
      → StaysUnique x
      → ((a : A) (db : SqlDb sql) → HasUniqueIds db → StaysUnique (f a db))
      → StaysUnique (and_then sql f x)
  and_then-keeps f (ok a, db) u k = k a db u.ids
  and_then-keeps f (err e, db) u k = record { ids = u.ids }

  insert_row-UniqueIds :
      (r : Row) (t : Table) → UniqueIds (rows t) → UniqueIds (rows (insert_row r t))
  insert_row-UniqueIds r t u = rw sql.rows-insert_row (UniqueIds-without r (rows t) u)

  delete_row-UniqueIds :
      (id : Str) (t : Table) → UniqueIds (rows t) → UniqueIds (rows (delete_row id t))
  delete_row-UniqueIds id t u = rw sql.rows-delete_row (UniqueIds-keep _ (rows t) u)

  pub db_insert-StaysUnique :
      (json : Codec) (e : Entry) (db : SqlDb sql)
      → HasUniqueIds db
      → StaysUnique (db_insert sql json e db)
  unfolding db_insert
  db_insert-StaysUnique json e db u = go (to_row json e)
    where
      go : (o : Option Row) → StaysUnique (insert_values sql o db)
      go none = record { ids = u }
      go (some r) = exec-keeps (λ t. (tt, insert_row r t)) db u (insert_row-UniqueIds r db.table u)

  delete_rows-StaysUnique :
      (ids : List Str) (db : SqlDb sql) → HasUniqueIds db → StaysUnique (delete_rows sql ids db)
  unfolding delete_rows
  delete_rows-StaysUnique [] db u = record { ids = u }
  delete_rows-StaysUnique (id ∷ ids) db u =
      and_then-keeps (λ _. delete_rows sql ids) _
        (exec-keeps (λ t. (tt, delete_row id t)) db u (delete_row-UniqueIds id db.table u))
        (λ _ db'. delete_rows-StaysUnique ids db')

  pub apply_retention-StaysUnique :
      (max : ℕ) (db : SqlDb sql) → HasUniqueIds db → StaysUnique (apply_retention sql max db)
  unfolding apply_retention overflow_ids
  apply_retention-StaysUnique max db u =
      and_then-keeps
        (λ victims db'. and_then sql (λ _ db''. (ok victims, db'')) (delete_rows sql victims db')) _
        (exec-keeps (λ t. (row_ids (drop max (sql.select_id_order t)), t)) db u u)
        (λ victims db' v.
          and_then-keeps (λ _ db''. (ok victims, db'')) _ (delete_rows-StaysUnique victims db' v)
            (λ _ db'' w. record { ids = w }))

  delete_all-UniqueIds : (t : Table) → UniqueIds (rows (delete_all t))
  delete_all-UniqueIds t = rw sql.rows-delete_all tt

  pub db_clear-StaysUnique : (db : SqlDb sql) → HasUniqueIds db → StaysUnique (db_clear sql db)
  unfolding db_clear known_ids
  db_clear-StaysUnique db u =
      and_then-keeps
        (λ ids db'.
          and_then sql (λ _ db''. (ok ids, db''))
            (exec sql {A = Unit {0}} (λ t. (tt, delete_all t)) db'))
        _ (exec-keeps (λ t. (sql.select_ids t, t)) db u u)
        (λ ids db' v.
          and_then-keeps (λ _ db''. (ok ids, db'')) _
            (exec-keeps {A = Unit {0}} (λ t. (tt, delete_all t)) db' v
              (delete_all-UniqueIds db'.table))
            (λ _ db'' w. record { ids = w }))

  pub exec_read-StaysUnique :
      {A : Type 0} (q : Table → A) (db : SqlDb sql)
      → HasUniqueIds db
      → StaysUnique (exec sql (λ t. (q t, t)) db)
  exec_read-StaysUnique q db u = exec-keeps (λ t. (q t, t)) db u u
