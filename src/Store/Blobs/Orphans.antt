-- ===== src/Store/Blobs/Orphans.antt =====
-- The sweep of orphans keeps the bodies of the entries that are known.
use http_debug.Base.{
  is_member, if_either, ℕ, ◌≡◌, ◌≢◌, ◌<◌, refl, sym, ap, ◌∙◌, subst, Bool, true, false, Option,
  none, some, List, [], ◌∷◌, ◌++◌, Str, str_eq, str_eq_iff, has, length, take, arith, if◌then◌else◌,
  Bool-cases, inl, inr, if_false,
}
use http_debug.Base.Map.{lookup, lookup-delete}
use http_debug.Store.Entry.{Side}
use http_debug.Store.Disk.{Disk, spend, faults_after, remove}
use http_debug.Store.Blobs.{BlobStore, join, path}
use http_debug.Store.Blobs.Directory.{
  last_index, strip_prefix, cons_found, entries, blob_id, read_dir, remove_unknown, remove_orphans,
}

last_index-none : (c : ℕ) (s : Str) → has c s ≡ false → last_index c s ≡ none
unfolding last_index
last_index-none c [] h = refl
last_index-none c (x ∷ s) h = rw (last_index-none c s (ground arith)) (ground (arith, h))

last_index-append :
    (c : ℕ) (xs ys : Str) → has c ys ≡ false → last_index c (xs ++ c ∷ ys) ≡ some (length xs)
unfolding last_index
last_index-append c [] ys h = rw (last_index-none c ys h) (ground arith)
last_index-append c (x ∷ xs) ys h = rw (last_index-append c xs ys h) refl

take-length : (xs ys : Str) → take (length xs) (xs ++ ys) ≡ xs
take-length [] ys = refl
take-length (x ∷ xs) ys = ap (◌∷◌ x) (take-length xs ys)

-- The name that `path` gives to a body leads back to its entry, also where the id has dashes.
blob_id_lem :
    (id : Str) (side : Side)
    → 0 < length id
    → has b'-' side ≡ false
    → blob_id (id ++ b'-' ∷ side) ≡ id
unfolding blob_id
blob_id_lem id side h n =
    rw (blob_id, last_index-append b'-' id side n, take-length id (b'-' ∷ side)) (ground arith)

pub str_eq-join : (dir a b : Str) → str_eq (join dir a) (join dir b) ≡ str_eq a b
unfolding str_eq
str_eq-join [] a b = ground arith
str_eq-join (c ∷ dir) a b = ground (arith, str_eq-join dir a b)

remove_other :
    (p q : Str) (d : Disk) → str_eq p q ≡ false → lookup q (remove p d).1.names ≡ lookup q d.names
unfolding remove
remove_other p q d h = ground (arith, lookup-delete p q d.names)

remove-content : (p : Str) (d : Disk) → (remove p d).1.content ≡ d.content
unfolding remove
remove-content p d = ground arith

-- Removing a file, where nothing fails.
remove_self : (p : Str) (d : Disk) → d.faults ≡ [] → lookup p (remove p d).1.names ≡ none
unfolding remove
remove_self p d f = ground (arith, lookup-delete p p d.names, str_eq_iff p p, f)

remove-faults : (p : Str) (d : Disk) → d.faults ≡ [] → (remove p d).1.faults ≡ []
unfolding remove
remove-faults p d f = ground (arith, f)

module _ (dir : Str) (known : Str → Bool) (name : Str) where
  -- One round of the loop.
  abbrev round : Str → Disk → Disk
  round n d = if known (blob_id n) then d else (remove (join dir n) d).1

  abbrev found : Disk → Option ℕ
  found d = lookup (join dir name) d.names

  round-known : (n : Str) (d : Disk) → known (blob_id name) ≡ true → found (round n d) ≡ found d
  round-known n d k = elim (Bool-cases (known (blob_id n))) [
    | inl keep ↦ rw keep refl
    | inr gone ↦ rw gone (
        remove_other (join dir n) (join dir name) d
          (str_eq-join dir n name ∙ ground (arith, str_eq_iff n name)))
  ]

  round-faults : (n : Str) (d : Disk) → d.faults ≡ [] → (round n d).faults ≡ []
  round-faults n d f =
      if_either (λ (x : Disk). x.faults ≡ []) (known (blob_id n)) f (remove-faults (join dir n) d f)

  remove-none :
      (p q : Str) (d : Disk) → lookup q d.names ≡ none → lookup q (remove p d).1.names ≡ none
  unfolding remove
  remove-none p q d h = ground (arith, lookup-delete p q d.names, h)

  round-none : (n : Str) (d : Disk) → found d ≡ none → found (round n d) ≡ none
  round-none n d h =
      if_either (λ (x : Disk). lookup (join dir name) x.names ≡ none) (known (blob_id n)) h
        (remove-none (join dir n) (join dir name) d h)

  round_self :
      (d : Disk) → known (blob_id name) ≡ false → d.faults ≡ [] → found (round name d) ≡ none
  round_self d k f = rw k (remove_self (join dir name) d f)

  remove_unknown-known :
      (names : List Str) (d : Disk)
      → known (blob_id name) ≡ true
      → found (remove_unknown dir known names d) ≡ found d
  unfolding remove_unknown
  remove_unknown-known [] d k = refl
  remove_unknown-known (n ∷ names) d k =
      remove_unknown-known names (round n d) k ∙ round-known n d k

  remove_unknown-none :
      (names : List Str) (d : Disk)
      → found d ≡ none
      → found (remove_unknown dir known names d) ≡ none
  unfolding remove_unknown
  remove_unknown-none [] d h = h
  remove_unknown-none (n ∷ names) d h = remove_unknown-none names (round n d) (round-none n d h)

  remove_unknown-orphan :
      (names : List Str) (d : Disk)
      → known (blob_id name) ≡ false
      → d.faults ≡ []
      → (is_member name names ≡ false → found d ≡ none)
      → found (remove_unknown dir known names d) ≡ none
  unfolding remove_unknown
  remove_unknown-orphan [] d k f h = h refl
  remove_unknown-orphan (n ∷ names) d k f h = elim (Bool-cases (str_eq n name)) [
    | inl same ↦ remove_unknown-none names (round n d) (
        subst (λ m. found (round m d) ≡ none) (sym ((str_eq_iff n name).0 same)) (round_self d k f))
    | inr other ↦
        remove_unknown-orphan names (round n d) k (round-faults n d f)
          (λ m. round-none n d (h (ground (arith, m, other))))
  ]

strip_prefix-join : (dir name : Str) → strip_prefix (join dir []) (join dir name) ≡ some name
unfolding strip_prefix
strip_prefix-join [] name = ground arith
strip_prefix-join (c ∷ dir) name = ground (arith, strip_prefix-join dir name)

cons_found-member :
    (o : Option Str) (name : Str) (names : List Str)
    → is_member name (cons_found o names) ≡ false
    → (is_member name names ≡ false) × (o ≢ some name)
cons_found-member none name names h = (h, λ e. cc)
cons_found-member (some x) name names h =
    (ground (arith, h), λ e. ground (arith, h, str_eq_iff x name, e))

entries-lookup :
    (dir name : Str) (m : List (Str × ℕ))
    → is_member name (entries dir m) ≡ false
    → lookup (join dir name) m ≡ none
unfolding entries lookup
entries-lookup dir name [] h = refl
entries-lookup dir name ((p, i) ∷ m) h =
    let c = cons_found-member (strip_prefix (join dir []) p) name (entries dir m) h in
    elim (Bool-cases (str_eq p (join dir name))) [
      | inl same ↦ absurd (
          c.1 (
            ap (strip_prefix (join dir [])) ((str_eq_iff p (join dir name)).0 same)
            ∙ strip_prefix-join dir name))
      | inr other ↦ if_false _ _ other ∙ entries-lookup dir name m c.0
    ]

remove_orphans-swept :
    (s : BlobStore) (known : Str → Bool) (d : Disk)
    → d.faults ≡ []
    → remove_orphans s (some known) d
      ≡ (true, remove_unknown s.dir known (entries s.dir d.names) (spend d))
unfolding remove_orphans read_dir
remove_orphans-swept s known d f = rw f refl

-- With no file operation failing, the sweep of orphans succeeds, and for every name in the directory:
-- the file stays just as it was where the database knows the id that the name stands for, and is gone
-- where it does not.
pub remove_orphans_lem :
    (s : BlobStore) (known : Str → Bool) (name : Str) (d : Disk)
    → d.faults ≡ []
    → let r = remove_orphans s (some known) d in
      (r.0 ≡ true)
      × (lookup (join s.dir name) r.1.names
          ≡ (if known (blob_id name) then lookup (join s.dir name) d.names else none))
remove_orphans_lem s known name d f =
    rw (remove_orphans-swept s known d f) (refl, go (known (blob_id name)) refl)
  where
    names : List Str
    names = entries s.dir d.names

    go :
        (b : Bool)
        → known (blob_id name) ≡ b
        → lookup (join s.dir name) (remove_unknown s.dir known names (spend d)).names
          ≡ (if b then lookup (join s.dir name) d.names else none)
    go true k = remove_unknown-known s.dir known name names (spend d) k
    go false k =
        remove_unknown-orphan s.dir known name names (spend d) k (ap faults_after f)
          (entries-lookup s.dir name d.names)

-- With no file operation failing, the sweep of orphans succeeds, and for the body of every entry (also
-- one whose id has dashes): the file stays just as it was where the database knows the id, and is
-- gone where it does not.
pub remove_orphans-path :
    (s : BlobStore) (known : Str → Bool) (id : Str) (side : Side) (d : Disk)
    → 0 < length id
    → has b'-' side ≡ false
    → d.faults ≡ []
    → let r = remove_orphans s (some known) d in
      (r.0 ≡ true)
      × (lookup (path s id side) r.1.names
          ≡ (if known id then lookup (path s id side) d.names else none))
unfolding path
remove_orphans-path s known id side d h n f =
    subst
      (λ i.
        let r = remove_orphans s (some known) d in
        (r.0 ≡ true)
        × (lookup (path s id side) r.1.names
            ≡ (if known i then lookup (path s id side) d.names else none)))
      (blob_id_lem id side h n) (remove_orphans_lem s known (id ++ b'-' ∷ side) d f)
