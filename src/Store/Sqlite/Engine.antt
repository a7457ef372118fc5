-- ===== src/Store/Sqlite/Engine.antt =====
-- An engine that meets the laws of `Sqlite`: a list of rows, sorted by insertion. It shows that the
-- laws can hold, and runs in the tests.
use mathlib.Core.List.{Permᴰ}
use mathlib.Core.List.Permᴰ
use http_debug.Base.{
  refl, Bool, true, false, List, [], ◌∷◌, keep, arith, if◌then◌else◌, Bool-cases, inl, inr,
}
use http_debug.Base.Int.{◌≤ℤ◌, ltb_ℤ}
use http_debug.Store.Rows.{Row}
use http_debug.Store.Sqlite.{
  Sqlite, Ordered, NewestFirst, NotBefore, find_row, without, row_ids, in_page,
}

-- A row before the first one that is not newer.
insert_row : Row → List Row → List Row
insert_row r [] = r ∷ []
insert_row r (q ∷ qs) = if ltb_ℤ r.started_at q.started_at then q ∷ insert_row r qs else r ∷ q ∷ qs

unfoldable pub sort_rows : List Row → List Row
unfolding insert_row
sort_rows [] = []
sort_rows (r ∷ rs) = insert_row r (sort_rows rs)

placed :
    (c : Bool) (r q : Row) (qs : List Row) {xs : List Row}
    → Permᴰ xs (r ∷ qs)
    → Permᴰ (if c then q ∷ xs else r ∷ q ∷ qs) (r ∷ q ∷ qs)
placed true r q qs d = Permᴰ.trans (Permᴰ.cons refl d) (Permᴰ.swap refl refl)
placed false r q qs d = Permᴰ.refl (r ∷ q ∷ qs)

insert_row-perm : (r : Row) (qs : List Row) → Permᴰ (insert_row r qs) (r ∷ qs)
unfolding insert_row
insert_row-perm r [] = Permᴰ.refl (r ∷ [])
insert_row-perm r (q ∷ qs) = placed (ltb_ℤ r.started_at q.started_at) r q qs (insert_row-perm r qs)

sort_rows-perm : (rs : List Row) → Permᴰ (sort_rows rs) rs
unfolding sort_rows
sort_rows-perm [] = Permᴰ.nil
sort_rows-perm (r ∷ rs) =
    Permᴰ.trans (insert_row-perm r (sort_rows rs)) (Permᴰ.cons refl (sort_rows-perm rs))

NotBefore-insert :
    (p r : Row) (qs : List Row)
    → r.started_at ≤ℤ p.started_at
    → NotBefore p qs
    → NotBefore p (insert_row r qs)
unfolding insert_row
NotBefore-insert p r [] h n = (h, tt)
NotBefore-insert p r (q ∷ qs) h n = elim (Bool-cases (ltb_ℤ r.started_at q.started_at)) [
  | inl newer ↦ rw newer (n.0, NotBefore-insert p r qs h n.1)
  | inr not_newer ↦ rw not_newer (h, n)
]

NotBefore-trans :
    (p r : Row) (qs : List Row) → r.started_at ≤ℤ p.started_at → NotBefore r qs → NotBefore p qs
NotBefore-trans p r [] h n = tt
NotBefore-trans p r (q ∷ qs) h n = (omega arith, NotBefore-trans p r qs h n.1)

insert_row-NewestFirst : (r : Row) (qs : List Row) → NewestFirst qs → NewestFirst (insert_row r qs)
unfolding insert_row
insert_row-NewestFirst r [] h = (tt, tt)
insert_row-NewestFirst r (q ∷ qs) h = elim (Bool-cases (ltb_ℤ r.started_at q.started_at)) [
  | inl newer ↦
      rw newer (NotBefore-insert q r qs (ground arith) h.0, insert_row-NewestFirst r qs h.1)
  | inr not_newer ↦
      let le : q.started_at ≤ℤ r.started_at = ground arith in
      rw not_newer ((le, NotBefore-trans r q qs le h.0), h)
]

sort_rows-NewestFirst : (rs : List Row) → NewestFirst (sort_rows rs)
unfolding sort_rows
sort_rows-NewestFirst [] = tt
sort_rows-NewestFirst (r ∷ rs) = insert_row-NewestFirst r (sort_rows rs) (sort_rows-NewestFirst rs)

pub sort_rows-Ordered : (rs : List Row) → Ordered rs (sort_rows rs)
sort_rows-Ordered rs = record { sorted = sort_rows-NewestFirst rs; same = sort_rows-perm rs }

abbrev pub engine : Sqlite
engine = record {
  Table = List Row;
  rows = λ t. t;
  insert_row = λ r t. r ∷ without r.id t;
  delete_row = λ id t. without id t;
  delete_all = λ t. [];
  select_ids = row_ids;
  select_row = find_row;
  select_order = λ b t. sort_rows (keep (in_page b) t);
  select_id_order = sort_rows;
  rows-insert_row = λ r t. refl;
  rows-delete_row = λ id t. refl;
  rows-delete_all = λ t. refl;
  select_ids_lem = λ id t. refl;
  select_row_lem = λ id t. refl;
  select_order_lem = λ b t. sort_rows-Ordered (keep (in_page b) t);
  select_id_order_lem = sort_rows-Ordered;
}
