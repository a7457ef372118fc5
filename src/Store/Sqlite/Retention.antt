-- ===== src/Store/Sqlite/Retention.antt =====
-- What `applyRetention` leaves, and what it reports.
use mathlib.Core.List.{Permᴰ}
use mathlib.Core.List.Permᴰ
use http_debug.Base.{
  is_member, ℕ, ◌≡◌, refl, sym, ap, ◌∙◌, subst, Bool, not, ◌&&◌, ◌||◌, List, [], ◌∷◌, ◌++◌, Str,
  str_eq, arith, length, length-take, take, drop, take-append-drop, keep, keep-all, keep-keep,
  fun_ext, min,
}
use http_debug.Store.Result.{Result, ok}
use http_debug.Store.Rows.{Row}
use http_debug.Store.Sqlite.{
  Sqlite, SqlDb, Ordered, NewestFirst, NotBefore, find_row, row_ids, overflow_ids, delete_rows,
  apply_retention, exec, and_then,
}
use http_debug.Store.Sqlite.Unique.{
  UniqueIds, without_all, keep-perm, length-perm, UniqueIds-perm, without_all-append, str_eq_sym,
}

-- Every row of the first list is at least as new as every row of the second.
abbrev pub AllNewer : List Row → List Row → Type 0
AllNewer [] old = Unit
AllNewer (r ∷ rs) old = NotBefore r old × AllNewer rs old

NotBefore-append : (r : Row) (xs ys : List Row) → NotBefore r (xs ++ ys) → NotBefore r ys
NotBefore-append r [] ys h = h
NotBefore-append r (x ∷ xs) ys h = NotBefore-append r xs ys h.1

AllNewer-append : (xs ys : List Row) → NewestFirst (xs ++ ys) → AllNewer xs ys
AllNewer-append [] ys h = tt
AllNewer-append (x ∷ xs) ys h = (NotBefore-append x xs ys h.0, AllNewer-append xs ys h.1)

module _ (sql : Sqlite) where
  open sql use {Table, rows, select_id_order, delete_row}

  -- The history after retention: `kept` is left, `removed` is gone, and `removed` is what was reported.
  pub record Retained (max : ℕ) (db : SqlDb sql) (victims : List Str) (db' : SqlDb sql)
      : Type 0 where
    pub kept : List Row
    pub removed : List Row
    pub reported : victims ≡ row_ids removed
    pub all_rows : Permᴰ (kept ++ removed) (rows db.table)
    pub left : Permᴰ kept (rows db'.table)
    pub size : length (rows db'.table) ≡ min max (length (rows db.table))
    pub newest : AllNewer kept removed
    pub no_faults : db'.faults ≡ []

  -- A statement that does not fail.
  pub exec_lem {ℓ} :
      {A : Type ℓ} (stmt : Table → A × Table) (db : SqlDb sql)
      → db.faults ≡ []
      → exec sql stmt db ≡ (ok (stmt db.table).0, record { table = (stmt db.table).1; faults = [] })
  exec_lem stmt db e = rw e

  pub exec-select_row :
      (id : Str) (db : SqlDb sql)
      → db.faults ≡ []
      → exec sql (λ t. (sql.select_row id t, t)) db ≡ (ok (find_row id (rows db.table)), db)
  exec-select_row id db e =
      exec_lem (λ t. (sql.select_row id t, t)) db e
      ∙ ap (λ o. (ok o, record db { faults = [] })) (sql.select_row_lem id db.table)
      ∙ ap (λ fs. (ok (find_row id (rows db.table)), record db { faults = fs })) (sym e)

  without_all-step :
      (id : Str) (ids : List Str) (t : Table)
      → without_all ids (rows (delete_row id t)) ≡ without_all (id ∷ ids) (rows t)
  without_all-step id ids t =
      ap (without_all ids) (sql.rows-delete_row id t)
      ∙ keep-keep _ _ (rows t)
      ∙ ap (λ p. keep p (rows t))
          (fun_ext λ (r : Row).
            both (str_eq r.id id) (str_eq id r.id) (is_member r.id ids) (str_eq_sym r.id id))
    where
      both : (x x' y : Bool) → x ≡ x' → (not x && not y) ≡ not (x' || y)
      both x x' y e = ground arith

  delete_rows_lem :
      (ids : List Str) (db : SqlDb sql)
      → db.faults ≡ []
      → (db' : SqlDb sql) × (delete_rows sql ids db ≡ (ok tt, db'))
        × (rows db'.table ≡ without_all ids (rows db.table))
        × (db'.faults ≡ [])
  unfolding delete_rows
  delete_rows_lem [] db e = (db, refl, sym (keep-all (rows db.table)), e)
  delete_rows_lem (id ∷ ids) db e =
      let next : SqlDb sql = record { table = delete_row id db.table; faults = [] } in
      let r = delete_rows_lem ids next refl in
      (
        r.0,
        ap (and_then sql (λ _. delete_rows sql ids)) (exec_lem (λ t. (tt, delete_row id t)) db e)
            ∙ r.1,
        r.2 ∙ without_all-step id ids db.table,
        r.3,
      )

  taken_out :
      (max : ℕ) (t t' : Table)
      → UniqueIds (rows t)
      → rows t' ≡ without_all (row_ids (drop max (select_id_order t))) (rows t)
      → Permᴰ (take max (select_id_order t)) (rows t')
  taken_out max t t' u e = subst (λ l. Permᴰ l (rows t')) covered (rw e (keep-perm _ law.same))
    where
      ordered : List Row
      ordered = select_id_order t

      law : Ordered (rows t) ordered
      law = sql.select_id_order_lem t

      covered : without_all (row_ids (drop max ordered)) ordered ≡ take max ordered
      covered =
          subst (λ l. UniqueIds l → without_all (row_ids (drop max ordered)) l ≡ take max ordered)
            (take-append-drop max ordered)
            (without_all-append (take max ordered) (drop max ordered))
            (UniqueIds-perm (Permᴰ.symm law.same) u)

  -- On a history whose ids are distinct, with no statement failing, retention succeeds. It leaves at
  -- most `max` rows, reports exactly the ids of the others, and none of those is newer than a row that
  -- is left.
  pub apply_retention-Retained :
      (max : ℕ) (db : SqlDb sql)
      → UniqueIds (rows db.table)
      → db.faults ≡ []
      → (victims : List Str) × (db' : SqlDb sql) × (apply_retention sql max db ≡ (ok victims, db'))
        × Retained max db victims db'
  unfolding apply_retention overflow_ids
  apply_retention-Retained max db u e =
      let ordered = select_id_order db.table in
      let removed = drop max ordered in
      let law = sql.select_id_order_lem db.table in
      let start : SqlDb sql = record { table = db.table; faults = [] } in
      let d = delete_rows_lem (row_ids removed) start refl in
      let left = taken_out max db.table d.0.table u d.2 in
      (
        row_ids removed,
        d.0,
        ap after_select (exec_lem overflow db e) ∙ ap with_victims d.1,
        record {
          kept = take max ordered;
          removed = removed;
          reported = refl;
          all_rows = rw take-append-drop law.same;
          left = left;
          size =
              sym (length-perm left)
              ∙ length-take max ordered
              ∙ ap (min max) (length-perm law.same);
          newest = AllNewer-append (take max ordered) removed (rw take-append-drop law.sorted);
          no_faults = d.3;
        },
      )
    where
      overflow : Table → List Str × Table
      overflow t = (row_ids (drop max (select_id_order t)), t)

      after_select : Result (List Str) × SqlDb sql → Result (List Str) × SqlDb sql
      after_select =
          and_then sql (λ victims db'.
            and_then sql (λ _ db''. (ok victims, db'')) (delete_rows sql victims db'))

      with_victims : Result (Unit {0}) × SqlDb sql → Result (List Str) × SqlDb sql
      with_victims =
          and_then sql (λ _ db''. (ok (row_ids (drop max (select_id_order db.table))), db''))
