-- ===== src/Tests/Bodies.antt =====
-- Bodies written in chunks, with an inline limit of four bytes.
use http_debug.Base.{
  ◌<◌, ◌≡◌, refl, Bool, true, false, none, some, if◌then◌else◌, List, [], ◌∷◌, Str, codes, arith,
  length, take,
}
use http_debug.Store.Entry.{side_response}
use http_debug.Base.{str_eq}
use http_debug.Store.Blobs.Directory.{remove_orphans}
use http_debug.Store.Blobs.Orphans.{remove_orphans-path}
use http_debug.Base.Map.{lookup, insert}
use http_debug.Store.Disk.{Disk, open_file, create, write}
use http_debug.Store.Blobs.{BlobStore, BodyBuffer, buffer, path, state, write_body, close_body}
use http_debug.Store.Blobs.Body.{
  write_all, taken, state_of, write_all-state, write_all-concat, write_all-Tracks, buffer-Tracks,
  write-close,
}

abbrev pub four_bytes : BlobStore
four_bytes = record { dir = codes "/data/blobs"; max_inline = 4 }

abbrev id : Str
id = codes "a1"

abbrev pub empty_disk : Disk
empty_disk = record { names = []; content = λ _. []; next = 0; faults = [] }

abbrev chunks : List Str
chunks = codes "abc" ∷ codes "def" ∷ codes "g" ∷ []

write_all-state_example :
    let r = write_all four_bytes chunks (buffer id side_response) empty_disk in
    let w = taken r.0 chunks in
    (r.1.preview ≡ take 4 w)
    × (r.1.size ≡ length w)
    × (r.1.failed ≡ false
        → (state r.1 ≡ state_of four_bytes id side_response w)
          × (4 < length w → open_file (path four_bytes id side_response) r.2 ≡ some w))
write_all-state_example = write_all-state four_bytes id side_response chunks empty_disk

write_all-concat_example :
    let r = write_all four_bytes chunks (buffer id side_response) empty_disk in
    (state r.1 ≡ state_of four_bytes id side_response (codes "abcdefg"))
    × (4 < 7 → open_file (path four_bytes id side_response) r.2 ≡ some (codes "abcdefg"))
write_all-concat_example = write_all-concat four_bytes id side_response chunks empty_disk refl

-- The second chunk passes the limit.
spilled_run : List Bool × BodyBuffer × Disk
spilled_run = write_all four_bytes chunks (buffer id side_response) empty_disk

spilled_state : state spilled_run.1 ≡ (codes "abcd", codes "/data/blobs/a1-response", 7, true)
unfolding spilled_run write_body create write state lookup insert str_eq path
spilled_state = refl

write-close_example :
    let r = write_body four_bytes (codes "xy") (close_body spilled_run.1) spilled_run.2 in
    (r.0 ≡ true)
    × (r.1.size ≡ 9)
    × (open_file (path four_bytes spilled_run.1.id spilled_run.1.side) r.2 ≡ some (codes "abcdxy"))
unfolding spilled_run write_body create write lookup
write-close_example =
    write-close four_bytes (codes "abcdefg") b'x' (codes "y") spilled_run.1 spilled_run.2
      (write_all-Tracks four_bytes chunks [] (buffer id side_response) empty_disk
        (buffer-Tracks four_bytes id side_response empty_disk))
      refl (omega arith) refl

-- One file of an id that is known, and one of an id that is not; the first id has a dash.
abbrev known : Str → Bool
known id = str_eq id (codes "a-1")

abbrev two_files : Disk
two_files = record empty_disk {
  names = (codes "/data/blobs/a-1-response", 0) ∷ (codes "/data/blobs/b-2-request", 1) ∷ [];
  next = 2;
}

remove_orphans-path_example :
    let r = remove_orphans four_bytes (some known) two_files in
    (r.0 ≡ true)
    × (lookup (path four_bytes (codes "a-1") side_response) r.1.names ≡ (
        if known (codes "a-1")
        then lookup (path four_bytes (codes "a-1") side_response) two_files.names
        else none))
remove_orphans-path_example =
    remove_orphans-path four_bytes known (codes "a-1") side_response two_files (omega arith) refl
      refl
