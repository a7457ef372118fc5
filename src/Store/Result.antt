-- ===== src/Store/Result.antt =====
-- The errors of internal/store: ErrNotFound, and any other, whose text nothing in the package reads.
pub data Error : Type 0 where
  not_found failed : Error

pub data Result {ℓ} (A : Type ℓ) : Type ℓ where
  ok : A → Result A
  err : Error → Result A

infixl 5 ◌>>=◌
abbrev pub ◌>>=◌ {ℓ κ} : {A : Type ℓ} {B : Type κ} → Result A → (A → Result B) → Result B
ok a >>= f = f a
err e >>= f = err e
