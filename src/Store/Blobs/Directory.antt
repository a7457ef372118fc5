-- ===== src/Store/Blobs/Directory.antt =====
-- The sweeps of internal/store/blobs.go over its directory: removeAll and removeOrphans.
use http_debug.Base.{
  ℕ, suc, Bool, true, false, Option, none, some, List, [], ◌∷◌, Str, ◌==◌, ltb, take, if◌then◌else◌,
}
use http_debug.Store.Disk.{Disk, fault_of, spend, remove}
use http_debug.Store.Blobs.{BlobStore, join}

-- What follows a prefix.
unfoldable pub strip_prefix : Str → Str → Option Str
strip_prefix [] s = some s
strip_prefix (c ∷ p) [] = none
strip_prefix (c ∷ p) (x ∷ s) = if c == x then strip_prefix p s else none

abbrev pub cons_found {ℓ} : {A : Type ℓ} → Option A → List A → List A
cons_found none xs = xs
cons_found (some x) xs = x ∷ xs

-- The names of the files of a directory.
unfoldable pub entries : Str → List (Str × ℕ) → List Str
unfolding strip_prefix
entries dir [] = []
entries dir ((path, i) ∷ m) = cons_found (strip_prefix (join dir []) path) (entries dir m)

abbrev pub listed : Option ℕ → Str → Disk → Option (List Str)
listed none dir d = some (entries dir d.names)
listed (some n) dir d = none

-- os.ReadDir
unfoldable pub read_dir : Str → Disk → Option (List Str) × Disk
unfolding entries
read_dir dir d = (listed (fault_of d.faults) dir d, spend d)

-- The loop of `removeAll`: the first removal that fails ends it.
unfoldable pub remove_each : Str → List Str → Disk → Bool × Disk
remove_each dir [] d = (true, d)
remove_each dir (name ∷ names) d =
    let (done, d') = remove (join dir name) d in
    elim done [ false ↦ (false, d') | true ↦ remove_each dir names d' ]

-- removeAll: whether it succeeded
unfoldable pub remove_all : BlobStore → Disk → Bool × Disk
unfolding read_dir remove_each
remove_all s d =
    let (names, d') = read_dir s.dir d in
    elim names [ none ↦ (false, d') | some ns ↦ remove_each s.dir ns d' ]

-- strings.LastIndex, of one byte
unfoldable pub last_index : ℕ → Str → Option ℕ
last_index c [] = none
last_index c (x ∷ s) = elim (last_index c s) [
  | some i ↦ some (suc i)
  | none ↦ if x == c then some 0 else none
]

-- The id in a file's name: what stands before its last dash, unless that is nothing.
unfoldable pub blob_id : Str → Str
unfolding last_index
blob_id name = elim (last_index b'-' name) [
  | none ↦ name
  | some i ↦ if ltb 0 i then take i name else name
]

-- The loop of `removeOrphans`, which drops errors.
unfoldable pub remove_unknown : Str → (Str → Bool) → List Str → Disk → Disk
unfolding blob_id
remove_unknown dir known [] d = d
remove_unknown dir known (name ∷ names) d =
    remove_unknown dir known names
      (if known (blob_id name) then d else (remove (join dir name) d).1)

abbrev swept : BlobStore → Option (Str → Bool) → Disk → Bool × Disk
swept s none d = (false, d)
swept s (some known) d =
    let (names, d') = read_dir s.dir d in
    elim names [ none ↦ (false, d') | some ns ↦ (true, remove_unknown s.dir known ns d') ]

-- removeOrphans: `known` is the set of the ids in the database, or none if the query failed
unfoldable pub remove_orphans : BlobStore → Option (Str → Bool) → Disk → Bool × Disk
unfolding read_dir remove_unknown
remove_orphans s known d = swept s known d
