-- ===== src/Store/Action.antt =====
-- Methods over a shared state: an action returns a value or an error and leaves a state in both cases,
-- or panics.
use http_debug.Base.{◌≡◌, refl}
use http_debug.Store.Result.{Result, ok, err}

pub data Outcome (S A : Type 0) : Type 0 where
  returns : Result A → S → Outcome S A
  panics : Outcome S A

abbrev pub Action : Type 0 → Type 0 → Type 0
Action S A = S → Outcome S A

module _ {S : Type 0} where
  abbrev pub pure : {A : Type 0} → A → Action S A
  pure a s = returns (ok a) s

  -- `return err` ends the method; a panic ends it too.
  abbrev pub after_result : {A B : Type 0} → (A → Action S B) → Outcome S A → Outcome S B
  after_result f (returns (ok a) s) = f a s
  after_result f (returns (err e) s) = returns (err e) s
  after_result f panics = panics

  infixl 5 ◌>>=◌ ◌>>◌
  abbrev pub ◌>>=◌ : {A B : Type 0} → Action S A → (A → Action S B) → Action S B
  ◌>>=◌ m f s = after_result f (m s)

  abbrev pub ◌>>◌ : {B : Type 0} → Action S (Unit {0}) → Action S B → Action S B
  m >> k = m >>= λ _. k

  -- `_ = m`: the error of an action is dropped.
  abbrev pub ignoring : {A B : Type 0} → Action S B → Outcome S A → Outcome S B
  ignoring k (returns r s) = k s
  ignoring k panics = panics

  pub after_result_assoc :
      {A B C : Type 0} (f : A → Action S B) (g : B → Action S C) (o : Outcome S A)
      → after_result (λ a. f a >>= g) o ≡ after_result g (after_result f o)
  after_result_assoc f g (returns (ok a) s) = refl
  after_result_assoc f g (returns (err e) s) = refl
  after_result_assoc f g panics = refl
