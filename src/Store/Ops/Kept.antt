-- ===== src/Store/Ops/Kept.antt =====
-- An entry that Finalize made a row of, read back from the history: Finalize, then Get and Body.
use mathlib.Core.List.{Permᴰ}
use mathlib.Core.List.Permᴰ
use mathlib.Core.Option
use http_debug.Base.{
  ℕ, ◌<◌, ◌≤◌, ◌≡◌, ◌≢◌, refl, sym, ap, ◌∙◌, subst, Option, none, some, List, [], ◌∷◌, ◌++◌, Str,
  str_eq_refl, length, length-append, arith, if_true, append-nil,
}
use http_debug.Base.Map.{lookup}
use http_debug.Store.Entry.{Entry}
use http_debug.Store.Memory.{LiveEntry, snapshot}
use http_debug.Store.Result.{Result, ok}
use http_debug.Store.Rows.{Codec, Row, to_row, scan_entry, marshal_header, row_of}
use http_debug.Store.Rows.RoundTrip.{IsFaithful, IsFolded, stored, scan_entry-to_row}
use http_debug.Store.Action.{Outcome, returns}
use http_debug.Store.Sqlite.{Sqlite, SqlDb, find_row, without, row_ids, row_result, scanned, db_get}
use http_debug.Store.Sqlite.Keeps.{HasUniqueIds, UniqueIds-without}
use http_debug.Store.Sqlite.Retention.{Retained, exec-select_row}
use http_debug.Store.Sqlite.Unique.{UniqueIds, UniqueIds-perm, find_row-perm, length-perm}
use http_debug.Store.Ops.{Store, on_db}
use http_debug.Store.Ops.Finalized.{Finalized, removed_for}
use http_debug.Store.Ops.Read.{get}

length-without : (k : Str) (rs : List Row) → length (without k rs) ≤ length rs
length-without k [] = omega arith
length-without k (r ∷ rs) = ground (arith, length-without k rs)

to_row-id : (json : Codec) (e : Entry) (r : Row) → to_row json e ≡ some r → r.id ≡ e.id
unfolding to_row
to_row-id json e r h =
    go (marshal_header json e.request_headers) (marshal_header json e.response_headers) h
  where
    go :
        (q p : Option (Option Str))
        → (let x : Option Row = elim q [
          | none ↦ none
          | some req ↦ Option.map (λ resp. row_of req resp e) p
        ] in
            x ≡ some r)
        → r.id ≡ e.id
    go none p h = absurd (ground (arith, h))
    go (some q) none h = absurd (ground (arith, h))
    go (some q) (some p) h = sym (ap (λ (o : Option Row). elim o [ none ↦ e.id | some x ↦ x.id ]) h)

no_rows : (rs : List Row) → length rs ≡ 0 → rs ≡ []
no_rows [] h = refl
no_rows (r ∷ rs) h = absurd (omega (arith, h))

module _ {sql : Sqlite} where
  -- With room for one more row, retention removes nothing.
  kept_row :
      (max : ℕ) (row : Row) (rs : List Row) (db db' : SqlDb sql) (victims : List Str)
      → UniqueIds rs
      → length rs < max
      → sql.rows db.table ≡ row ∷ without row.id rs
      → Retained sql max db victims db'
      → (victims ≡ []) × (find_row row.id (sql.rows db'.table) ≡ some row)
  kept_row max row rs db db' victims u room e r = (r.reported ∙ ap row_ids none_removed, found)
    where
      unique : UniqueIds (sql.rows db.table)
      unique = subst UniqueIds (sym e) (UniqueIds-without row rs u)

      fits : length (sql.rows db.table) ≤ max
      fits = omega (arith, ap length e, length-without row.id rs, room)

      none_removed : r.removed ≡ []
      none_removed = no_rows r.removed (
          ground (
            arith,
            fits,
            r.size,
            length-perm r.left,
            length-perm r.all_rows,
            length-append r.kept r.removed,
          ))

      same : Permᴰ r.kept (sql.rows db.table)
      same =
          subst (λ rs'. Permᴰ rs' (sql.rows db.table)) (append-nil r.kept)
            (subst (λ rs'. Permᴰ (r.kept ++ rs') (sql.rows db.table)) none_removed r.all_rows)

      found : find_row row.id (sql.rows db'.table) ≡ some row
      found =
          sym (find_row-perm row.id r.left (UniqueIds-perm (Permᴰ.symm same) unique))
          ∙ find_row-perm row.id same (UniqueIds-perm (Permᴰ.symm same) unique)
          ∙ ap (find_row row.id) e
          ∙ if_true _ _ (str_eq_refl row.id)

  -- An entry that became a row, on a history with room for it: what Get then gives.
  pub get-Finalized :
      (json : Codec) (id : Str) (e : Entry) (s : Store sql) (o : Outcome (Store sql) (Unit {0}))
      (f : Finalized json id e s o)
      → e.id ≡ id
      → HasUniqueIds sql s.db
      → length (sql.rows s.db.table) < s.max_entries
      → (e.request_headers ≢ [] → IsFaithful json e.request_headers)
      → (e.response_headers ≢ [] → IsFaithful json e.response_headers)
      → IsFolded e
      → (get json id f.retired.final ≡ returns (ok (stored e)) f.retired.final)
        × (f.retired.final.disk ≡ s.disk)
  unfolding get db_get
  get-Finalized json id e s o f same u room faithful_req faithful_resp folded =
      let r = f.retired in
      let kept =
        kept_row s.max_entries f.row (sql.rows s.db.table) f.inserted r.final.db r.victims u room
          f.rows r.retained in
      let gone : lookup id r.final.mem ≡ none = r.gone id ∙ if_true _ _ (str_eq_refl id) in
      let named : f.row.id ≡ id = to_row-id json e f.row f.columns ∙ same in
      let back = scan_entry-to_row json e faithful_req faithful_resp folded in
      let row : back.0 ≡ f.row =
        ap (λ (o : Option Row). elim o [ none ↦ f.row | some x ↦ x ]) (sym back.1 ∙ f.columns) in
      let found : find_row id (sql.rows r.final.db.table) ≡ some f.row =
        subst (λ i. find_row i (sql.rows r.final.db.table) ≡ some f.row) named kept.1 in
      (
        ap
              (λ (o : Option LiveEntry).
                let x : Outcome (Store sql) Entry = elim o [
                  | some live ↦ returns (ok (snapshot live)) r.final
                  | none ↦ on_db (λ db. db_get sql json id db) r.final
                ] in
                x)
              gone
            ∙ ap
                (λ (x : Result (Option Row) × SqlDb sql).
                  returns (row_result sql json x.0) (record r.final { db = x.1 }))
                (exec-select_row sql id r.final.db r.retained.no_faults)
            ∙ ap (λ o. returns (row_result sql json (ok o)) r.final) found
            ∙ ap (λ x. returns (scanned sql (scan_entry json x)) r.final) (sym row)
            ∙ ap (λ o. returns (scanned sql o) r.final) back.2,
        r.files ∙ ap (λ ids. removed_for s.blobs ids s.disk) kept.0,
      )
