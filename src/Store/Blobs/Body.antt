-- ===== src/Store/Blobs/Body.antt =====
-- A body written in chunks, as a reader of the buffer and of the disk sees it.
use http_debug.Base.{
  ℕ, ◌<◌, ◌≡◌, refl, sym, ap, ◌∙◌, subst, Bool, true, false, some, List, [], ◌∷◌, ◌++◌, Str,
  str_eq_refl, ltb, ◌==◌, length, length-append, take, take-all, arith, if◌then◌else◌, append-nil,
  append_assoc,
}
use http_debug.Base.Map.{lookup, lookup-insert}
use http_debug.Store.Entry.{Side}
use http_debug.Store.Disk.{Disk, create, write, open_file}
use http_debug.Store.Blobs.{
  BlobStore, BodyBuffer, buffer, path, write_body, open_blob, with_file, append_blob, filled, state,
  close_body,
}
use http_debug.Store.Blobs.Spill.{Place, Tracks, inline, spilled, write_body-Tracks}

-- A run of writes: whether each succeeded.
abbrev pub write_all : BlobStore → List Str → BodyBuffer → Disk → List Bool × BodyBuffer × Disk
write_all s [] b d = ([], b, d)
write_all s (p ∷ ps) b d =
    let (done, b', d') = write_body s p b d in
    let (dones, b'', d'') = write_all s ps b' d' in (done ∷ dones, b'', d'')

-- The chunks whose write reported success, one after the other.
abbrev pub taken : List Bool → List Str → Str
taken (true ∷ dones) (p ∷ ps) = p ++ taken dones ps
taken (false ∷ dones) (p ∷ ps) = taken dones ps
taken _ _ = []

abbrev pub concat : List Str → Str
concat [] = []
concat (p ∷ ps) = p ++ concat ps

taken-step :
    (w p : Str) (done : Bool) (dones : List Bool) (ps : List Str)
    → (if done then w ++ p else w) ++ taken dones ps ≡ w ++ taken (done ∷ dones) (p ∷ ps)
taken-step w p true dones ps = append_assoc w p (taken dones ps)
taken-step w p false dones ps = refl

pub write_all-Tracks :
    (s : BlobStore) (ps : List Str) (w : Str) (b : BodyBuffer) (d : Disk)
    → Tracks s w b d
    → let r = write_all s ps b d in Tracks s (w ++ taken r.0 ps) r.1 r.2
write_all-Tracks s [] w b d t = rw append-nil t
write_all-Tracks s (p ∷ ps) w b d t =
    let r = write_body s p b d in
    rw (← taken-step w p r.0 (write_all s ps r.1 r.2).0 ps)
      (write_all-Tracks s ps _ r.1 r.2 (write_body-Tracks s w p b d t))

pub buffer-Tracks :
    (s : BlobStore) (id : Str) (side : Side) (d : Disk) → Tracks s [] (buffer id side) d
buffer-Tracks s id side d = record {
  preview = sym (take-all s.max_inline [] (omega arith));
  size = refl;
  place = inline refl refl (omega arith);
}

pub write_body-name :
    (s : BlobStore) (p : Str) (b : BodyBuffer) (d : Disk)
    → let b' = (write_body s p b d).1 in (b'.id ≡ b.id) × (b'.side ≡ b.side)
unfolding write_body open_blob with_file append_blob filled create write
write_body-name s p b d = ground arith

pub write_body-succeeds :
    (s : BlobStore) (p : Str) (b : BodyBuffer) (d : Disk)
    → d.faults ≡ []
    → b.failed ≡ false
    → let r = write_body s p b d in (r.0 ≡ true) × (r.1.failed ≡ false) × (r.2.faults ≡ [])
unfolding write_body open_blob with_file append_blob filled create write
write_body-succeeds s p b d e f = ground arith

write_all-name :
    (s : BlobStore) (ps : List Str) (b : BodyBuffer) (d : Disk)
    → let b' = (write_all s ps b d).1 in (b'.id ≡ b.id) × (b'.side ≡ b.side)
write_all-name s [] b d = (refl, refl)
write_all-name s (p ∷ ps) b d =
    let r = write_body s p b d in
    let n = write_body-name s p b d in let m = write_all-name s ps r.1 r.2 in (m.0 ∙ n.0, m.1 ∙ n.1)

write_all-succeeds :
    (s : BlobStore) (ps : List Str) (b : BodyBuffer) (d : Disk)
    → d.faults ≡ []
    → b.failed ≡ false
    → let r = write_all s ps b d in (taken r.0 ps ≡ concat ps) × (r.1.failed ≡ false)
write_all-succeeds s [] b d e f = (refl, f)
write_all-succeeds s (p ∷ ps) b d e f =
    let r = write_body s p b d in
    let one = write_body-succeeds s p b d e f in
    let rest = write_all-succeeds s ps r.1 r.2 one.2 one.1 in
    (rw one.0 (ap (◌++◌ p) rest.0), rest.1)

pub path-not_empty :
    (s : BlobStore) (id : Str) (side : Side) → (length (path s id side) == 0) ≡ false
unfolding path
path-not_empty s id side = ground (arith, length-append s.dir (b'/' ∷ (id ++ b'-' ∷ side)))

-- What `state` returns for a body `w`: its leading bytes, and past the limit the path of its file.
abbrev pub state_of : BlobStore → Str → Side → Str → Str × Str × ℕ × Bool
state_of s id side w =
    let over = ltb s.max_inline (length w) in
    (take s.max_inline w, if over then path s id side else [], length w, over)

pub tracked-state :
    (s : BlobStore) (w : Str) (b : BodyBuffer) (d : Disk)
    → Tracks s w b d
    → b.failed ≡ false
    → (state b ≡ state_of s b.id b.side w)
      × (s.max_inline < length w → open_file (path s b.id b.side) d ≡ some w)
unfolding state open_file
tracked-state s w b d t good = go t.place
  where
    go :
        Place s w b d
        → (state b ≡ state_of s b.id b.side w)
          × (s.max_inline < length w → open_file (path s b.id b.side) d ≡ some w)
    go (inline e f le) = (ground (arith, t.preview, t.size), λ h. absurd (omega arith))
    go (spilled i e f found inside) = (
      ground (arith, t.preview, t.size, path-not_empty s b.id b.side, inside good),
      λ _.
          let named : lookup (path s b.id b.side) d.names ≡ some i =
            subst (λ q. lookup q d.names ≡ some i) e found in
          rw (open_file, named) (ap some (inside good).0),
    )

-- For every run of writes on a new buffer, whatever operations fail: with `w` the chunks whose write
-- reported success, in order, the preview is the leading bytes of `w` and the size is the length of
-- `w`. If the buffer has not failed, its state is exactly that of `w` (the path of its file and the
-- mark are there just when `w` is longer than the limit), and then the file holds all of `w`.
pub write_all-state :
    (s : BlobStore) (id : Str) (side : Side) (ps : List Str) (d : Disk)
    → let r = write_all s ps (buffer id side) d in
      let w = taken r.0 ps in
      (r.1.preview ≡ take s.max_inline w)
      × (r.1.size ≡ length w)
      × (r.1.failed ≡ false
          → (state r.1 ≡ state_of s id side w)
            × (s.max_inline < length w → open_file (path s id side) r.2 ≡ some w))
write_all-state s id side ps d =
    let r = write_all s ps (buffer id side) d in
    let t = write_all-Tracks s ps [] (buffer id side) d (buffer-Tracks s id side d) in
    let n = write_all-name s ps (buffer id side) d in
    (
      t.preview,
      t.size,
      λ good. rw n.0 at (rw n.1 at (tracked-state s (taken r.0 ps) r.1 r.2 t good)),
    )

-- If no operation fails, the state is that of all the chunks together, however the body was cut into
-- chunks, and past the limit the file holds the whole body.
pub write_all-concat :
    (s : BlobStore) (id : Str) (side : Side) (ps : List Str) (d : Disk)
    → d.faults ≡ []
    → let r = write_all s ps (buffer id side) d in
      (state r.1 ≡ state_of s id side (concat ps))
      × (s.max_inline < length (concat ps) → open_file (path s id side) r.2 ≡ some (concat ps))
write_all-concat s id side ps d e =
    let ok = write_all-succeeds s ps (buffer id side) d e refl in
    subst
      (λ w.
        let r = write_all s ps (buffer id side) d in
        (state r.1 ≡ state_of s id side w)
        × (s.max_inline < length w → open_file (path s id side) r.2 ≡ some w))
      ok.0 ((write_all-state s id side ps d).2 ok.1)

-- A write to a body that spilled, after its buffer was closed, cuts the file: with no operation
-- failing it reports success and the size counts all the bytes, but the file holds the preview and the
-- new bytes only.
pub write-close :
    (s : BlobStore) (w : Str) (x : ℕ) (p : Str) (b : BodyBuffer) (d : Disk)
    → Tracks s w b d
    → b.failed ≡ false
    → s.max_inline < length w
    → d.faults ≡ []
    → let r = write_body s (x ∷ p) (close_body b) d in
      (r.0 ≡ true)
      × (r.1.size ≡ length (w ++ x ∷ p))
      × (open_file (path s b.id b.side) r.2 ≡ some (take s.max_inline w ++ x ∷ p))
unfolding write_body open_blob with_file append_blob filled create write close_body open_file
write-close s w x p b d t good long e = ground (
  arith,
  t.preview,
  t.size,
  length-append w (x ∷ p),
  lookup-insert (path s b.id b.side) (path s b.id b.side) d.next d.names,
  str_eq_refl (path s b.id b.side),
)
