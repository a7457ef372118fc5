-- ===== src/Store/Ops/Listed.antt =====
-- Which entries List makes its page of: those in flight, and those of the history.
use http_debug.Base.{
  ℕ, if◌then◌else◌, not, ◌&&◌, false, fun_ext, ◌≡◌, refl, ap, subst, Bool, true, ◌||◌, Option, none,
  some, List, [], ◌∷◌, ◌++◌, take, keep, if_either,
}
use http_debug.Base.Int.{ℤ, ltb_ℤ}
use http_debug.Time.{Time, before, is_zero, unix_milli}
use http_debug.Store.Entry.{Entry}
use http_debug.Store.Memory.{MemStore, snapshot, mem_list}
use http_debug.Store.Result.{Result, ok, err, ◌>>=◌}
use http_debug.Store.Rows.{Codec, Row, scan_entry}
use http_debug.Store.Action.{Outcome}
use http_debug.Store.Sqlite.{
  Sqlite, SqlDb, Ordered, in_page, bound, scan_rows, db_list, scanned, page_result, fault_of,
}
use http_debug.Store.Ops.{Store}
use http_debug.Store.Ops.Read.{page_size, list}
use http_debug.Store.Ops.Page.{IsPage, list-IsPage}

-- The entries in flight that started before the cursor; all of them without a cursor.
abbrev pub in_flight : Time → MemStore → List Entry
in_flight cursor [] = []
in_flight cursor ((_, live) ∷ m) =
    let rest = in_flight cursor m in
    if is_zero cursor || before (snapshot live).started_at cursor
    then snapshot live ∷ rest
    else rest

-- The row of an entry that started in a millisecond before the cursor's; any row without a cursor.
abbrev pub row_before : Time → Row → Bool
row_before cursor r = is_zero cursor || ltb_ℤ r.started_at (unix_milli cursor)

-- The entries are the rows, read one by one.
abbrev pub AllRead : Codec → List Row → List Entry → Type 0
AllRead json [] [] = Unit
AllRead json (r ∷ rs) (e ∷ es) = (scan_entry json r ≡ some e) × AllRead json rs es
AllRead json [] (e ∷ es) = ⊥
AllRead json (r ∷ rs) [] = ⊥

mem_list-in_flight : (cursor : Time) (m : MemStore) → mem_list cursor m ≡ in_flight cursor m
unfolding mem_list
mem_list-in_flight cursor [] = refl
mem_list-in_flight cursor ((id, live) ∷ m) =
    go (is_zero cursor) (before (snapshot live).started_at cursor) (mem_list-in_flight cursor m)
  where
    go :
        (timeless earlier : Bool) {xs ys : List Entry}
        → xs ≡ ys
        → (if not (not timeless && not earlier) then snapshot live ∷ xs else xs)
          ≡ (if timeless || earlier then snapshot live ∷ ys else ys)
    go true earlier e = ap (◌∷◌ (snapshot live)) e
    go false true e = ap (◌∷◌ (snapshot live)) e
    go false false e = e

in_page-row_before :
    (sql : Sqlite) (cursor : Time) (r : Row) → in_page (bound sql cursor) r ≡ row_before cursor r
in_page-row_before sql cursor r = go (is_zero cursor)
  where
    ms : ℤ
    ms = unix_milli cursor

    go :
        (timeless : Bool)
        → in_page (if timeless then none else some ms) r ≡ (timeless || ltb_ℤ r.started_at ms)
    go true = refl
    go false = refl

module _ (sql : Sqlite) where
  -- What holds of the value, where there is one.
  abbrev OnOk : {A : Type 0} → (A → Type 0) → Result A → Type 0
  OnOk P (ok a) = P a
  OnOk P (err e) = Unit

  scan_rows-AllRead :
      (json : Codec) (rs : List Row) → OnOk (AllRead json rs) (scan_rows sql json rs)
  unfolding scan_rows
  scan_rows-AllRead json [] = tt
  scan_rows-AllRead json (r ∷ rs) =
      go (scan_entry json r) refl (scan_rows sql json rs) (scan_rows-AllRead json rs)
    where
      go :
          (o : Option Entry)
          → scan_entry json r ≡ o
          → (rest : Result (List Entry)) → OnOk (AllRead json rs) rest
          → OnOk (AllRead json (r ∷ rs)) (do e ← scanned sql o; es ← rest; ok (e ∷ es))
      go none e rest k = tt
      go (some x) e (err f) k = tt
      go (some x) e (ok es) k = (e, k)

  -- A page, with what it is made of.
  pub record Listed (json : Codec) (cursor : Time) (n : ℕ) (s : Store sql) (rows : List Entry)
      (o : Outcome (Store sql) (List Entry)) : Type 0 where
    pub page : IsPage sql cursor n (in_flight cursor s.mem ++ rows) o
    pub ordered : List Row
    pub in_order : Ordered (keep (row_before cursor) (sql.rows s.db.table)) ordered
    pub reads : AllRead json (take n ordered) rows

  -- Where the query of List succeeds with `rows`, for a limit (100 where it is zero) and a cursor.
  -- `rows` are the latest rows of the history, up to the limit, of those that started in a millisecond
  -- before the cursor's. List returns the first ones, up to the limit, of all the entries in flight
  -- that started before the cursor and of `rows`, arranged with the latest first. Every entry of the
  -- page started before the cursor. Without a cursor no entry is left out for its start.
  pub list-Listed :
      (json : Codec) (limit : ℕ) (cursor : Time) (s : Store sql) (rows : List Entry)
      (db' : SqlDb sql)
      → db_list sql json (page_size limit) cursor s.db ≡ (ok rows, db')
      → Listed json cursor (page_size limit) s rows (list json limit cursor s)
  unfolding db_list
  list-Listed json limit cursor s rows db' h =
      let n = page_size limit in
      let ordered = sql.select_order (bound sql cursor) s.db.table in
      record {
        page =
            subst (λ es. IsPage sql cursor n (es ++ rows) (list json limit cursor s))
              (mem_list-in_flight cursor s.mem) (list-IsPage sql json limit cursor s rows db' h);
        ordered = ordered;
        in_order =
            subst (λ p. Ordered (keep p (sql.rows s.db.table)) ordered)
              (fun_ext (in_page-row_before sql cursor))
              (sql.select_order_lem (bound sql cursor) s.db.table);
        reads = subst (OnOk (AllRead json (take n ordered))) (ap (λ x. x.0) h) (
            if_either
              (λ (x : Result (List Row) × SqlDb sql).
                OnOk (AllRead json (take n ordered)) (page_result sql json x.0))
              (fault_of sql s.db.faults) tt (scan_rows-AllRead json (take n ordered)));
      }
