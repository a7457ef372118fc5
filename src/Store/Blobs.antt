-- ===== src/Store/Blobs.antt =====
-- internal/store/blobs.go: the directory of oversized bodies, and the buffer that moves a body there.
-- The lock of a buffer makes each of its calls one step.
pub mod Spill
pub mod Body
pub mod Directory
pub mod Orphans
pub mod Apart
use http_debug.Base.{
  ℕ, ◌+◌, ◌-◌, Bool, true, false, not, ◌&&◌, Option, none, some, List, [], ◌∷◌, ◌++◌, Str, codes,
  leb, ltb, ◌==◌, str_eq, length, take, min, if◌then◌else◌,
}
use http_debug.Base.Map.{lookup}
use http_debug.Store.Entry.{Side, side_request, side_response}
use http_debug.Store.Disk.{Disk, create, write, remove}

pub record BlobStore : Type 0 where
  pub dir : Str
  pub max_inline : ℕ

-- filepath.Join, of a clean directory and a file name
abbrev pub join : Str → Str → Str
join dir name = dir ++ b'/' ∷ name

unfoldable pub path : BlobStore → Str → Side → Str
path b id side = join b.dir (id ++ b'-' ∷ side)

-- `file` is the inode of the open file; `failed` stands for a non-nil `err`.
pub record BodyBuffer : Type 0 where
  pub id : Str
  pub side : Side
  pub preview : Str
  pub size : ℕ
  pub path : Str
  pub file : Option ℕ
  pub failed : Bool

abbrev pub buffer : Str → Side → BodyBuffer
buffer id side = record {
  id = id;
  side = side;
  preview = [];
  size = 0;
  path = [];
  file = none;
  failed = false;
}

abbrev opened : Str → ℕ → Bool × Disk → BodyBuffer → Option ℕ × BodyBuffer × Disk
opened p i (true, d) b = (some i, record b { file = some i; path = p }, d)
opened p i (false, d) b = (none, record b { failed = true }, d)

filled : Str → Option ℕ × Disk → BodyBuffer → Option ℕ × BodyBuffer × Disk
filled p (none, d) b = (none, record b { failed = true }, d)
filled p (some i, d) b = opened p i (write i b.preview d) b

-- The middle part of `Write`: the file, created with the preview in it.
open_blob : BlobStore → BodyBuffer → Disk → Option ℕ × BodyBuffer × Disk
unfolding filled
open_blob s b d = let p = path s b.id b.side in filled p (create p d) b

with_file : Option ℕ → BlobStore → BodyBuffer → Disk → Option ℕ × BodyBuffer × Disk
with_file (some i) s b d = (some i, b, d)
with_file none s b d = open_blob s b d

abbrev extend_preview : ℕ → Str → Str → Str
extend_preview max p preview =
    let room = max - length preview in
    if ltb 0 room then preview ++ take (min (length p) room) p else preview

abbrev appended : BlobStore → Str → Bool × Disk → BodyBuffer → Bool × BodyBuffer × Disk
appended s p (true, d) b = (
  true,
  record b { size = b.size + length p; preview = extend_preview s.max_inline p b.preview },
  d,
)
appended s p (false, d) b = (false, record b { failed = true }, d)

-- The last part of `Write`: the bytes go to the file.
append_blob : BlobStore → Str → Option ℕ × BodyBuffer × Disk → Bool × BodyBuffer × Disk
append_blob s p (none, b, d) = (false, b, d)
append_blob s p (some i, b, d) = appended s p (write i p d) b

abbrev fits : BlobStore → Str → BodyBuffer → Bool
fits s p b = elim b.file [ none ↦ leb (b.size + length p) s.max_inline | some _ ↦ false ]

-- Write: whether it succeeded, the buffer and the disk.
unfoldable pub write_body : BlobStore → Str → BodyBuffer → Disk → Bool × BodyBuffer × Disk
unfolding open_blob with_file append_blob
write_body s p b d =
    if length p == 0
    then (true, b, d)
    else if b.failed
    then (false, b, d)
    else if fits s p b
    then (true, record b { preview = b.preview ++ p; size = b.size + length p }, d)
    else append_blob s p (with_file b.file s b d)

-- Close. Errors of Sync and Close are dropped.
unfoldable pub close_body : BodyBuffer → BodyBuffer
close_body b = record b { file = none }

-- state: the preview, the path, the size, and whether the body is on disk
unfoldable pub state : BodyBuffer → Str × Str × ℕ × Bool
state b = (b.preview, b.path, b.size, not (length b.path == 0))

-- removeFor
unfoldable pub remove_for : BlobStore → Str → Disk → Disk
remove_for s id d = (remove (path s id side_response) (remove (path s id side_request) d).1).1
