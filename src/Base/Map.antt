-- ===== src/Base/Map.antt =====
-- Go maps with string keys, as association lists: the program never depends on their order.
use http_debug.Base.{
  ◌∙◌, Bool-cases, inl, inr, ◌≡◌, refl, Option, none, some, List, [], ◌∷◌, arith, Str, str_eq,
  str_eq_iff, if◌then◌else◌,
}

module _ {ℓ} {V : Type ℓ} where
  -- m[k]
  unfoldable pub lookup : Str → List (Str × V) → Option V
  lookup k [] = none
  lookup k ((j, v) ∷ m) = if str_eq j k then some v else lookup k m

  -- m[k] = v
  unfoldable pub insert : Str → V → List (Str × V) → List (Str × V)
  insert k v [] = (k, v) ∷ []
  insert k v ((j, w) ∷ m) = if str_eq j k then (j, v) ∷ m else (j, w) ∷ insert k v m

  -- delete(m, k)
  unfoldable pub delete : Str → List (Str × V) → List (Str × V)
  delete k [] = []
  delete k ((j, w) ∷ m) = let rest = delete k m in if str_eq j k then rest else (j, w) ∷ rest

  pub lookup-delete :
      (k j : Str) (m : List (Str × V))
      → lookup j (delete k m) ≡ (if str_eq k j then none else lookup j m)
  unfolding lookup delete
  lookup-delete k j [] = ground arith
  lookup-delete k j ((i, w) ∷ m) =
      ground (arith, lookup-delete k j m, str_eq_iff i k, str_eq_iff i j, str_eq_iff k j)

  pub lookup-insert :
      (k j : Str) (v : V) (m : List (Str × V))
      → lookup j (insert k v m) ≡ (if str_eq k j then some v else lookup j m)
  unfolding lookup insert
  lookup-insert k j v [] = refl
  lookup-insert k j v ((i, w) ∷ m) =
      ground (arith, lookup-insert k j v m, str_eq_iff i k, str_eq_iff i j, str_eq_iff k j)

  -- No key twice, as in any Go map.
  abbrev pub HasUniqueKeys : List (Str × V) → Type ℓ
  HasUniqueKeys [] = Unit
  HasUniqueKeys ((k, v) ∷ m) = (lookup k m ≡ none) × HasUniqueKeys m

  insert-HasUniqueKeys :
      (k : Str) (v : V) (m : List (Str × V)) → HasUniqueKeys m → HasUniqueKeys (insert k v m)
  unfolding lookup insert
  insert-HasUniqueKeys k v [] h = (refl, tt)
  insert-HasUniqueKeys k v ((j, w) ∷ m) h = elim (Bool-cases (str_eq j k)) [
    | inl same ↦ rw (same) h
    | inr other ↦ rw (other) (
      lookup-insert k j v m ∙ ground (arith, h.0, other, str_eq_iff j k, str_eq_iff k j),
      insert-HasUniqueKeys k v m h.1,
    )
  ]

  delete-HasUniqueKeys :
      (k : Str) (m : List (Str × V)) → HasUniqueKeys m → HasUniqueKeys (delete k m)
  unfolding lookup delete
  delete-HasUniqueKeys k [] h = tt
  delete-HasUniqueKeys k ((j, w) ∷ m) h = elim (Bool-cases (str_eq j k)) [
    | inl same ↦ rw (same) (delete-HasUniqueKeys k m h.1)
    | inr other ↦
        rw (other) (lookup-delete k j m ∙ ground (arith, h.0), delete-HasUniqueKeys k m h.1)
  ]
