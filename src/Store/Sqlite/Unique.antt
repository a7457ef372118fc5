-- ===== src/Store/Sqlite/Unique.antt =====
-- Rows of which no two have the same id, and what a change of their order leaves alone.
use mathlib.Core.List.{Permᴰ}
use http_debug.Base.{
  is_member, suc, ◌≡◌, refl, sym, ap, ◌∙◌, Bool, true, false, not, ◌||◌, List, [], some, ◌∷◌, ◌++◌,
  Str, str_eq, str_eq_iff, str_eq_refl, arith, length, keep, subst, if◌then◌else◌,
}
use mathlib.Core.Path.{subst₂}
use mathlib.Core.List.Permᴰ
use http_debug.Store.Rows.{Row}
use http_debug.Store.Sqlite.{row_ids, find_row}

abbrev pub UniqueIds : List Row → Type 0
UniqueIds [] = Unit
UniqueIds (r ∷ rs) = (is_member r.id (row_ids rs) ≡ false) × UniqueIds rs

pub str_eq_sym : (a b : Str) → str_eq a b ≡ str_eq b a
str_eq_sym a b = ground (arith, str_eq_iff a b, str_eq_iff b a)

-- The rows whose id is not listed.
abbrev pub without_all : List Str → List Row → List Row
without_all ids = keep (λ r. not (is_member r.id ids))

kept_first :
    (c : Bool) (a : Row) {xs ys : List Row}
    → Permᴰ xs ys
    → Permᴰ (if c then a ∷ xs else xs) (if c then a ∷ ys else ys)
kept_first true a q = Permᴰ.cons refl q
kept_first false a q = q

kept_two :
    (c d : Bool) (a b : Row) (xs : List Row)
    → Permᴰ
        (if c then a ∷ (if d then b ∷ xs else xs) else (if d then b ∷ xs else xs))
        (if d then b ∷ (if c then a ∷ xs else xs) else (if c then a ∷ xs else xs))
kept_two true true a b xs = Permᴰ.swap refl refl
kept_two true false a b xs = Permᴰ.refl (a ∷ xs)
kept_two false true a b xs = Permᴰ.refl (b ∷ xs)
kept_two false false a b xs = Permᴰ.refl xs

pub keep-perm : (p : Row → Bool) {xs ys : List Row} → Permᴰ xs ys → Permᴰ (keep p xs) (keep p ys)
keep-perm p Permᴰ.nil = Permᴰ.nil
keep-perm p (Permᴰ.cons {a} {b} {l₁} {l₂} e q) =
    subst (λ c. Permᴰ (keep p (a ∷ l₁)) (keep p (c ∷ l₂))) e (kept_first (p a) a (keep-perm p q))
keep-perm p (Permᴰ.swap {a} {b} {a'} {b'} {l} e f) =
    subst₂ (λ c d. Permᴰ (keep p (a ∷ b ∷ l)) (keep p (c ∷ d ∷ l))) f e
      (kept_two (p a) (p b) a b (keep p l))
keep-perm p (Permᴰ.trans q r) = Permᴰ.trans (keep-perm p q) (keep-perm p r)

pub is_member-perm :
    (k : Str) {xs ys : List Row} → Permᴰ xs ys → is_member k (row_ids xs) ≡ is_member k (row_ids ys)
is_member-perm k Permᴰ.nil = refl
is_member-perm k (Permᴰ.cons e q) = ground (arith, is_member-perm k q)
is_member-perm k (Permᴰ.swap e f) = ground arith
is_member-perm k (Permᴰ.trans q r) = is_member-perm k q ∙ is_member-perm k r

pub length-perm : {xs ys : List Row} → Permᴰ xs ys → length xs ≡ length ys
length-perm Permᴰ.nil = refl
length-perm (Permᴰ.cons e q) = ap suc (length-perm q)
length-perm (Permᴰ.swap e f) = refl
length-perm (Permᴰ.trans q r) = length-perm q ∙ length-perm r

pub UniqueIds-perm : {xs ys : List Row} → Permᴰ xs ys → UniqueIds xs → UniqueIds ys
UniqueIds-perm Permᴰ.nil u = tt
UniqueIds-perm (Permᴰ.cons {a} {l₂} e q) u =
    subst (λ c. UniqueIds (c ∷ l₂)) e (sym (is_member-perm a.id q) ∙ u.0, UniqueIds-perm q u.1)
UniqueIds-perm (Permᴰ.swap {a} {b} {l} e f) u =
    subst₂ (λ c d. UniqueIds (c ∷ d ∷ l)) f e (ground (arith, str_eq_sym a.id b.id))
UniqueIds-perm (Permᴰ.trans q r) u = UniqueIds-perm r (UniqueIds-perm q u)

-- The row of an id does not depend on the order.
pub find_row-perm :
    (id : Str) {xs ys : List Row} → Permᴰ xs ys → UniqueIds xs → find_row id xs ≡ find_row id ys
find_row-perm id Permᴰ.nil u = refl
find_row-perm id (Permᴰ.cons {a} {b} {l₁} {l₂} e q) u =
    ap (λ o. if str_eq a.id id then some a else o) (find_row-perm id q u.1)
    ∙ ap (λ c. find_row id (c ∷ l₂)) e
find_row-perm id (Permᴰ.swap {a} {b} {a'} {b'} {l} e f) u =
    ground (arith, u.0, str_eq_iff a.id id, str_eq_iff b.id id, str_eq_iff a.id b.id)
    ∙ ap (λ (x : Row × Row). find_row id (x.0 ∷ x.1 ∷ l)) (λ i. (f i, e i))
find_row-perm id (Permᴰ.trans q r) u =
    find_row-perm id q u ∙ find_row-perm id r (UniqueIds-perm q u)

-- The rest of a list, taken out by its ids, leaves the beginning.
member-append :
    (k : Str) (xs ys : List Row)
    → is_member k (row_ids (xs ++ ys)) ≡ (is_member k (row_ids xs) || is_member k (row_ids ys))
member-append k [] ys = refl
member-append k (x ∷ xs) ys = ground (arith, member-append k xs ys)

-- Taking out a list's own rows.
without_all-cover :
    (ids : List Str) (ys : List Row)
    → ((k : Str) → is_member k (row_ids ys) ≡ true → is_member k ids ≡ true)
    → without_all ids ys ≡ []
without_all-cover ids [] h = refl
without_all-cover ids (y ∷ ys) h =
    ground
      (arith, h y.id, str_eq_refl y.id, without_all-cover ids ys (λ k m. h k (ground (arith, m))))

pub without_all-append :
    (xs ys : List Row) → UniqueIds (xs ++ ys) → without_all (row_ids ys) (xs ++ ys) ≡ xs
without_all-append [] ys u = without_all-cover (row_ids ys) ys (λ k m. m)
without_all-append (x ∷ xs) ys u =
    ground (arith, without_all-append xs ys u.1, member-append x.id xs ys)
