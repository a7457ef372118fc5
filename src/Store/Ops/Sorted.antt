-- ===== src/Store/Ops/Sorted.antt =====
-- The sort of List: the latest entries first.
use mathlib.Core.List.{Permᴰ}
use mathlib.Core.List.Permᴰ
use http_debug.Base.{◌≡◌, refl, false, List, [], ◌∷◌, arith, Bool-cases, inl, inr}
use http_debug.Time.{after}
use http_debug.Store.Entry.{Entry}
use http_debug.Store.Ops.{insert_newest, sort_newest}

-- No entry of the list started after `e`.
abbrev pub NoneAfter : Entry → List Entry → Type 0
NoneAfter e [] = Unit
NoneAfter e (x ∷ xs) = (after x.started_at e.started_at ≡ false) × NoneAfter e xs

abbrev pub LatestFirst : List Entry → Type 0
LatestFirst [] = Unit
LatestFirst (e ∷ es) = NoneAfter e es × LatestFirst es

insert_newest-NoneAfter :
    (a e : Entry) (xs : List Entry)
    → after e.started_at a.started_at ≡ false
    → NoneAfter a xs
    → NoneAfter a (insert_newest e xs)
unfolding insert_newest
insert_newest-NoneAfter a e [] h n = (h, tt)
insert_newest-NoneAfter a e (x ∷ xs) h n = elim (Bool-cases (after x.started_at e.started_at)) [
  | inl later ↦ rw later (n.0, insert_newest-NoneAfter a e xs h n.1)
  | inr not_later ↦ rw not_later (h, n)
]

NoneAfter-weaken :
    (e x : Entry) (xs : List Entry)
    → after x.started_at e.started_at ≡ false
    → NoneAfter x xs
    → NoneAfter e xs
NoneAfter-weaken e x [] h n = tt
NoneAfter-weaken e x (y ∷ ys) h n = (ground (arith, n.0), NoneAfter-weaken e x ys h n.1)

insert_newest-LatestFirst :
    (e : Entry) (xs : List Entry) → LatestFirst xs → LatestFirst (insert_newest e xs)
unfolding insert_newest
insert_newest-LatestFirst e [] l = (tt, tt)
insert_newest-LatestFirst e (x ∷ xs) l = elim (Bool-cases (after x.started_at e.started_at)) [
  | inl later ↦
      rw later
        (insert_newest-NoneAfter x e xs (ground arith) l.0, insert_newest-LatestFirst e xs l.1)
  | inr not_later ↦ rw not_later ((not_later, NoneAfter-weaken e x xs not_later l.0), l)
]

pub sort_newest-LatestFirst : (es : List Entry) → LatestFirst (sort_newest es)
unfolding sort_newest
sort_newest-LatestFirst [] = tt
sort_newest-LatestFirst (e ∷ es) =
    insert_newest-LatestFirst e (sort_newest es) (sort_newest-LatestFirst es)

insert_newest-perm : (e : Entry) (xs : List Entry) → Permᴰ (insert_newest e xs) (e ∷ xs)
unfolding insert_newest
insert_newest-perm e [] = Permᴰ.refl (e ∷ [])
insert_newest-perm e (x ∷ xs) = elim (Bool-cases (after x.started_at e.started_at)) [
  | inl later ↦
      rw later (Permᴰ.trans (Permᴰ.cons refl (insert_newest-perm e xs)) (Permᴰ.swap refl refl))
  | inr not_later ↦ rw not_later (Permᴰ.refl (e ∷ x ∷ xs))
]

pub sort_newest-perm : (es : List Entry) → Permᴰ (sort_newest es) es
unfolding sort_newest
sort_newest-perm [] = Permᴰ.nil
sort_newest-perm (e ∷ es) =
    Permᴰ.trans (insert_newest-perm e (sort_newest es)) (Permᴰ.cons refl (sort_newest-perm es))
