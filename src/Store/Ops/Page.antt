-- ===== src/Store/Ops/Page.antt =====
-- What List gives: one page of what the memory and the query give, together.
use mathlib.Core.List.{Permᴰ}
use mathlib.Core.Option
use http_debug.Base.{
  ℕ, zero, suc, ◌≤◌, ◌≡◌, refl, ap, ◌∙◌, subst, Bool, true, ◌&&◌, Option, none, some, List, [], ◌∷◌,
  ◌++◌, length, length-take, take, keep, all, arith, if_either,
}
use http_debug.Base.Int.{ℤ, pos, negsuc, ltb_ℤ}
use http_debug.Time.{Time, before, unix_milli, of_unix_milli}
use http_debug.Store.Entry.{Entry, Header}
use http_debug.Store.Memory.{is_older, mem_list}
use http_debug.Store.Result.{Result, ok, err, ◌>>=◌}
use http_debug.Store.Rows.{Codec, Row, scan_entry, entry_of, unmarshal_header}
use http_debug.Store.Action.{Outcome, returns, after_result}
use http_debug.Store.Sqlite.{
  Sqlite, SqlDb, in_page, bound, scan_rows, db_list, scanned, page_result, fault_of,
}
use http_debug.Store.Ops.{Store, sort_newest}
use http_debug.Store.Ops.Read.{page_size, list}
use http_debug.Store.Ops.Sorted.{LatestFirst, sort_newest-LatestFirst, sort_newest-perm}

-- A row that the cursor takes is one that the memory would take.
in_page-before :
    (ms : ℤ) (cursor : Time)
    → ltb_ℤ ms (unix_milli cursor) ≡ true
    → before (of_unix_milli ms) cursor ≡ true
in_page-before (pos m) (pos n) h = ground arith
in_page-before (pos m) (negsuc n) h = ground arith
in_page-before (negsuc m) (pos n) h = ground arith
in_page-before (negsuc m) (negsuc n) h = ground arith

all-perm {ℓ} : {A : Type ℓ} (p : A → Bool) {xs ys : List A} → Permᴰ xs ys → all p xs ≡ all p ys
all-perm p Permᴰ.nil = refl
all-perm p (Permᴰ.cons {a} {b} {l₁} {l₂} e q) =
    ap (λ c. p c && all p l₁) e ∙ ap (λ c. p b && c) (all-perm p q)
all-perm p (Permᴰ.swap {a} {b} {a'} {b'} {l} e f) =
    both (p a) (p b) (all p l)
    ∙ ap (λ c. p c && (p a && all p l)) f
    ∙ ap (λ c. p a' && (p c && all p l)) e
  where
    both : (x y z : Bool) → (x && (y && z)) ≡ (y && (x && z))
    both x y z = ground arith
all-perm p (Permᴰ.trans q r) = all-perm p q ∙ all-perm p r

all-take {ℓ} :
    {A : Type ℓ} (p : A → Bool) (n : ℕ) (xs : List A) → all p xs ≡ true → all p (take n xs) ≡ true
all-take p zero xs h = refl
all-take p (suc n) [] h = refl
all-take p (suc n) (x ∷ xs) h = ground (arith, all-take p n xs)

all-append {ℓ} :
    {A : Type ℓ} (p : A → Bool) (xs ys : List A)
    → all p xs ≡ true
    → all p ys ≡ true
    → all p (xs ++ ys) ≡ true
all-append p [] ys h k = k
all-append p (x ∷ xs) ys h k = ground (arith, all-append p xs ys)

all-keep {ℓ} : {A : Type ℓ} (p : A → Bool) (xs : List A) → all p (keep p xs) ≡ true
all-keep p [] = refl
all-keep p (x ∷ xs) = ground (arith, all-keep p xs)

scan_entry-started_at :
    (json : Codec) (r : Row) (e : Entry)
    → scan_entry json r ≡ some e
    → e.started_at ≡ of_unix_milli r.started_at
unfolding scan_entry
scan_entry-started_at json r e =
    go (unmarshal_header json r.request_headers) (unmarshal_header json r.response_headers)
  where
    go :
        (a b : Option Header)
        → elim a [ none ↦ none | some req ↦ Option.map (λ resp. entry_of req resp r) b ] ≡ some e
        → e.started_at ≡ of_unix_milli r.started_at
    go none b h = ground (arith, h)
    go (some req) none h = ground (arith, h)
    go (some req) (some resp) h = ground (arith, h)

module _ (sql : Sqlite) where
  in_page-is_older :
      (json : Codec) (cursor : Time) (r : Row) (e : Entry)
      → in_page (bound sql cursor) r ≡ true
      → scan_entry json r ≡ some e
      → is_older cursor e ≡ true
  in_page-is_older json cursor r e h scan =
      ground (arith, scan_entry-started_at json r e scan, in_page-before r.started_at cursor)

  -- What holds of the value, where there is one.
  abbrev OnOk : {A : Type 0} → (A → Type 0) → Result A → Type 0
  OnOk P (ok a) = P a
  OnOk P (err e) = Unit

  scan_rows-is_older :
      (json : Codec) (cursor : Time) (rs : List Row)
      → all (in_page (bound sql cursor)) rs ≡ true
      → OnOk (λ es. all (is_older cursor) es ≡ true) (scan_rows sql json rs)
  unfolding scan_rows
  scan_rows-is_older json cursor [] h = refl
  scan_rows-is_older json cursor (r ∷ rs) h =
      go (scan_entry json r) refl (scan_rows sql json rs)
        (scan_rows-is_older json cursor rs (ground arith))
    where
      go :
          (o : Option Entry)
          → scan_entry json r ≡ o
          → (rest : Result (List Entry)) → OnOk (λ es. all (is_older cursor) es ≡ true) rest
          → OnOk
              (λ es. all (is_older cursor) es ≡ true)
              (do e ← scanned sql o; es ← rest; ok (e ∷ es))
      go none e rest k = tt
      go (some x) e (err f) k = tt
      go (some x) e (ok es) k = ground (arith, in_page-is_older json cursor r x (ground arith) e)

  page-is_older :
      (json : Codec) (limit : ℕ) (cursor : Time) (t : sql.Table)
      → OnOk
          (λ es. all (is_older cursor) es ≡ true)
          (scan_rows sql json (take limit (sql.select_order (bound sql cursor) t)))
  page-is_older json limit cursor t =
      let p = in_page (bound sql cursor) in
      scan_rows-is_older json cursor _ (
        all-take p limit (sql.select_order (bound sql cursor) t)
          (all-perm p (sql.select_order_lem (bound sql cursor) t).same ∙ all-keep p (sql.rows t)))

  db_list-is_older :
      (json : Codec) (limit : ℕ) (cursor : Time) (db db' : SqlDb sql) (es : List Entry)
      → db_list sql json limit cursor db ≡ (ok es, db')
      → all (is_older cursor) es ≡ true
  unfolding db_list
  db_list-is_older json limit cursor db db' es h =
      subst (OnOk (λ es. all (is_older cursor) es ≡ true)) (ap (λ x. x.0) h) (
        if_either
          (λ (x : Result (List Row) × SqlDb sql).
            OnOk (λ es. all (is_older cursor) es ≡ true) (page_result sql json x.0))
          (fault_of sql db.faults) tt (page-is_older json limit cursor db.table))

  -- A page of at most `n` of the entries `merged`.
  pub record IsPage (cursor : Time) (n : ℕ) (merged : List Entry)
      (o : Outcome (Store sql) (List Entry)) : Type 0 where
    pub page : List Entry
    pub final : Store sql
    pub returned : o ≡ returns (ok page) final
    pub arranged : List Entry
    pub latest : LatestFirst arranged
    pub same : Permᴰ arranged merged
    pub first : page ≡ take n arranged
    pub size : length page ≤ n
    pub older : all (is_older cursor) page ≡ true

  -- Where the query gives `rows`, List returns a page: the first ones, up to the limit (100 where it
  -- is zero), of the entries in flight and `rows` arranged with the latest first. With a cursor, every
  -- entry of the page started before it, also the ones that come from the history, whose cursor is
  -- rounded to a millisecond.
  pub list-IsPage :
      (json : Codec) (limit : ℕ) (cursor : Time) (s : Store sql) (rows : List Entry)
      (db' : SqlDb sql)
      → db_list sql json (page_size limit) cursor s.db ≡ (ok rows, db')
      → IsPage cursor (page_size limit) (mem_list cursor s.mem ++ rows) (list json limit cursor s)
  unfolding list mem_list
  list-IsPage json limit cursor s rows db' h =
      let n = page_size limit in
      let merged = mem_list cursor s.mem ++ rows in
      let arranged = sort_newest merged in
      record {
        page = take n arranged;
        final = record s { db = db' };
        returned =
            ap
              (λ (x : Result (List Entry) × SqlDb sql).
                after_result
                  (λ rows' s'.
                    returns (ok (take n (sort_newest (mem_list cursor s'.mem ++ rows')))) s')
                  (returns x.0 (record s { db = x.1 })))
              h;
        arranged = arranged;
        latest = sort_newest-LatestFirst merged;
        same = sort_newest-perm merged;
        first = refl;
        size = omega (arith, length-take n arranged);
        older = all-take (is_older cursor) n arranged (
            all-perm (is_older cursor) (sort_newest-perm merged)
            ∙ all-append (is_older cursor) (mem_list cursor s.mem) rows
                (all-keep (is_older cursor) _) (db_list-is_older json n cursor s.db db' rows h));
      }
