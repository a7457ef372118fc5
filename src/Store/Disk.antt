-- ===== src/Store/Disk.antt =====
-- The file operations that internal/store/blobs.go uses. A name leads to an inode, so that a file
-- which is removed while it is open can still be written. `faults` says which of the next operations
-- fail: `none` is one that succeeds, `some n` one that fails, after `n` bytes if it is a write; after
-- the list all succeed.
pub mod Laws
pub mod Separate
use http_debug.Base.{
  ℕ, suc, Bool, true, false, Option, none, some, List, [], ◌∷◌, ◌++◌, Str, take, update,
}
use http_debug.Base.Map.{lookup, insert, delete}

pub record Disk : Type 0 where
  pub names : List (Str × ℕ)
  pub content : ℕ → Str
  pub next : ℕ
  pub faults : List (Option ℕ)

abbrev pub fault_of : List (Option ℕ) → Option ℕ
fault_of [] = none
fault_of (f ∷ fs) = f

abbrev pub faults_after : List (Option ℕ) → List (Option ℕ)
faults_after [] = []
faults_after (f ∷ fs) = fs

abbrev pub spend : Disk → Disk
spend d = record d { faults = faults_after d.faults }

abbrev create_at : Str → Option ℕ → Disk → ℕ × Disk
create_at path (some i) d = (i, record d { content = update d.content i [] })
create_at path none d = (
  d.next,
  record d {
    names = insert path d.next d.names;
    content = update d.content d.next [];
    next = suc d.next;
  },
)

abbrev create_unless : Option ℕ → Str → Disk → Option ℕ × Disk
create_unless (some n) path d = (none, d)
create_unless none path d = let (i, d') = create_at path (lookup path d.names) d in (some i, d')

-- os.Create: a file that is there is cut to nothing
unfoldable pub create : Str → Disk → Option ℕ × Disk
create path d = create_unless (fault_of d.faults) path (spend d)

-- f.Write, at the end of the file: each file is written by one handle, which starts at its beginning.
abbrev write_unless : Option ℕ → ℕ → Str → Disk → Bool × Disk
write_unless none i p d = (true, record d { content = update d.content i (d.content i ++ p) })
write_unless (some n) i p d =
    (false, record d { content = update d.content i (d.content i ++ take n p) })

unfoldable pub write : ℕ → Str → Disk → Bool × Disk
write i p d = write_unless (fault_of d.faults) i p (spend d)

abbrev remove_at : Option ℕ → Option ℕ → Str → Disk → Bool × Disk
remove_at none (some i) path d = (true, record d { names = delete path d.names })
remove_at _ _ path d = (false, d)

-- os.Remove: false where the file is missing, or the operation fails
unfoldable pub remove : Str → Disk → Bool × Disk
remove path d = remove_at (fault_of d.faults) (lookup path d.names) path (spend d)

-- The bytes of the file at a path.
unfoldable pub open_file : Str → Disk → Option Str
open_file path d = elim (lookup path d.names) [ none ↦ none | some i ↦ some (d.content i) ]

abbrev open_unless : Option ℕ → Str → Disk → Option Str
open_unless none path d = open_file path d
open_unless (some n) path d = none

-- os.Open and reading to the end
unfoldable pub open_path : Str → Disk → Option Str × Disk
unfolding open_file
open_path path d = (open_unless (fault_of d.faults) path d, spend d)
