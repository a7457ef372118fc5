-- ===== src/Store/Blobs/Apart.antt =====
-- A write to one body leaves the files of the others alone: internal/store/blobs.go.
use http_debug.Base.{
  ℕ, ◌≡◌, refl, sym, ap, ◌∙◌, subst, Bool, true, false, Option, none, some, [], ◌∷◌, ◌++◌, Str,
  str_eq, length, length-append, arith, ◌==◌, if_either, str_eq_refl, ◌≢◌, Bool-cases, inl, inr,
  str_eq_iff,
}
use http_debug.Store.Entry.{Side}
use http_debug.Store.Disk.{Disk, create, write}
use http_debug.Store.Disk.Separate.{
  OwnFiles, Handle, Wrote, rests, both, Opens, Wrote-Handle, Wrote-other, create-Wrote, write-Wrote,
}
use http_debug.Store.Blobs.Spill.{Place, inline, spilled, Tracks}
use http_debug.Store.Blobs.{
  BlobStore, BodyBuffer, path, write_body, open_blob, with_file, append_blob, filled, opened,
  appended, fits,
}
use http_debug.Store.Disk.{remove, spend, fault_of}
use http_debug.Store.Disk.Separate.{
  Evolves, Evolves-refl, Evolves-trans, spend-Evolves, remove-Evolves,
}
use http_debug.Store.Entry.{side_request, side_response}
use http_debug.Store.Blobs.{remove_for, join}
use http_debug.Store.Blobs.Directory.{remove_each, remove_all, read_dir, listed}
use http_debug.Base.{List}
use http_debug.Store.Blobs.Orphans.{str_eq-join}

-- The open file of a body, if there is one, is under the body's own path.
abbrev pub OwnHandle : BlobStore → BodyBuffer → Disk → Type 0
OwnHandle s b d = (i : ℕ) → b.file ≡ some i → Handle (path s b.id b.side) i d

pub Wrote-OwnHandle :
    (s : BlobStore) (b : BodyBuffer) {p : Str} {d d' : Disk}
    → Wrote p d d'
    → OwnHandle s b d
    → OwnHandle s b d'
Wrote-OwnHandle s b w h i e = Wrote-Handle w (h i e)

-- What a write by the buffer `b` gives.
pub record Writes (s : BlobStore) (b : BodyBuffer) (d : Disk) (b' : BodyBuffer) (d' : Disk)
    : Type 0 where
  pub wrote : Wrote (path s b.id b.side) d d'
  pub handle : OwnHandle s b' d'

-- The handle that is written through, if there is one.
abbrev Through : Str → Option ℕ → Disk → Type 0
Through p none d = Unit
Through p (some i) d = Handle p i d

Handle-same : (p : Str) (i j : ℕ) (d : Disk) → Handle p i d → some i ≡ some j → Handle p j d
Handle-same p i j d h e = subst (λ k. Handle p k d) (ground (arith, e)) h

append_blob-Writes :
    (s : BlobStore) (t : Str) (b₀ : BodyBuffer) (d₀ : Disk) (r : Option ℕ × BodyBuffer × Disk)
    → Writes s b₀ d₀ r.1 r.2
    → Through (path s b₀.id b₀.side) r.0 r.2
    → let a = append_blob s t r in Writes s b₀ d₀ a.1 a.2
unfolding append_blob
append_blob-Writes s t b₀ d₀ (none, b, d) w h = w
append_blob-Writes s t b₀ d₀ (some i, b, d) w h =
    go (write i t d) (write-Wrote (path s b₀.id b₀.side) i t d h)
  where
    go :
        (x : Bool × Disk)
        → Wrote (path s b₀.id b₀.side) d x.1
        → let a = appended s t x b in Writes s b₀ d₀ a.1 a.2
    go (true, d') v = record { wrote = both w.wrote v; handle = Wrote-OwnHandle s b v w.handle }
    go (false, d') v = record { wrote = both w.wrote v; handle = Wrote-OwnHandle s b v w.handle }

-- The file that is opened for the first bytes past the limit.
filled-Writes :
    (s : BlobStore) (b : BodyBuffer) (d : Disk) (x : Option ℕ × Disk)
    → OwnHandle s b d
    → Wrote (path s b.id b.side) d x.1
    → Opens (path s b.id b.side) x
    → let r = filled (path s b.id b.side) x b in
      Writes s b d r.1 r.2 × Through (path s b.id b.side) r.0 r.2
unfolding filled
filled-Writes s b d (none, d') h w k = (record { wrote = w; handle = Wrote-OwnHandle s b w h }, tt)
filled-Writes s b d (some i, d') h w k =
    go (write i b.preview d') (write-Wrote (path s b.id b.side) i b.preview d' k)
  where
    p : Str
    p = path s b.id b.side

    go :
        (x : Bool × Disk)
        → Wrote p d' x.1
        → let r = opened p i x b in Writes s b d r.1 r.2 × Through p r.0 r.2
    go (true, d'') v =
        let k' = Wrote-Handle v k in
        (record { wrote = both w v; handle = λ j e. Handle-same p i j d'' k' e }, k')
    go (false, d'') v = (record { wrote = both w v; handle = Wrote-OwnHandle s b (both w v) h }, tt)

-- A write changes no file but the body's own, whatever fails.
pub write_body-Writes :
    (s : BlobStore) (t : Str) (b : BodyBuffer) (d : Disk)
    → OwnFiles d
    → OwnHandle s b d
    → let r = write_body s t b d in Writes s b d r.1 r.2
unfolding write_body with_file open_blob
write_body-Writes s t b d o h = if_either W (length t == 0) same (
    if_either W b.failed same
      (if_either W (fits s t b) (record { wrote = rests d; handle = h }) (go b.file refl)))
  where
    W : Bool × BodyBuffer × Disk → Type 0
    W r = Writes s b d r.1 r.2

    same : Writes s b d b d
    same = record { wrote = rests d; handle = h }

    go : (f : Option ℕ) → b.file ≡ f → W (append_blob s t (with_file f s b d))
    go (some i) e = append_blob-Writes s t b d (some i, b, d) same (h i e)
    go none e =
        let c = create-Wrote (path s b.id b.side) d o in
        let r = filled-Writes s b d (create (path s b.id b.side) d) h c.0 c.1 in
        append_blob-Writes s t b d (open_blob s b d) r.0 r.1

-- The bodies of two entries have different paths.
longer_apart : (a b : Str) → length a ≢ length b → str_eq a b ≡ false
longer_apart a b n = elim (Bool-cases (str_eq a b)) [
  | inl same ↦ absurd (n (ap length ((str_eq_iff a b).0 same)))
  | inr other ↦ other
]

str_eq-suffix : (i j t : Str) → str_eq (i ++ t) (j ++ t) ≡ str_eq i j
unfolding str_eq
str_eq-suffix [] [] t = str_eq_refl t
str_eq-suffix [] (c ∷ j) t = longer_apart t (c ∷ j ++ t) (λ e. omega (arith, e, length-append j t))
str_eq-suffix (c ∷ i) [] t = longer_apart (c ∷ i ++ t) t (λ e. omega (arith, e, length-append i t))
str_eq-suffix (c ∷ i) (d ∷ j) t = ground (arith, str_eq-suffix i j t)

pub path-apart :
    (s : BlobStore) (i j : Str) (side : Side)
    → str_eq i j ≡ false
    → str_eq (path s i side) (path s j side) ≡ false
unfolding path
path-apart s i j side h =
    str_eq-join s.dir (i ++ b'-' ∷ side) (j ++ b'-' ∷ side) ∙ str_eq-suffix i j (b'-' ∷ side) ∙ h

-- What a buffer tracks does not depend on a write to another file.
pub Wrote-Tracks :
    (s : BlobStore) (w : Str) (b : BodyBuffer) {p : Str} {d d' : Disk}
    → Wrote p d d'
    → OwnFiles d
    → str_eq p (path s b.id b.side) ≡ false
    → Tracks s w b d
    → Tracks s w b d'
Wrote-Tracks s w b {p} {d} {d'} v o n t = record {
  preview = t.preview;
  size = t.size;
  place = go t.place;
}
  where
    go : Place s w b d → Place s w b d'
    go (inline e f le) = inline e f le
    go (spilled i e f found inside) =
        let k = Wrote-other b.path i v o (subst (λ q. str_eq p q ≡ false) (sym e) n) found in
        spilled i e f k.0 (λ good. (k.1 ∙ (inside good).0, (inside good).1))

-- The handle of a body, over a step of the disk.
pub Evolves-OwnHandle :
    (s : BlobStore) (b : BodyBuffer) {d d' : Disk}
    → Evolves d d'
    → OwnHandle s b d
    → OwnHandle s b d'
Evolves-OwnHandle s b e h i f = e.handles _ i (h i f)

pub remove_for-Evolves : (s : BlobStore) (id : Str) (d : Disk) → Evolves d (remove_for s id d)
unfolding remove_for
remove_for-Evolves s id d =
    Evolves-trans (remove-Evolves (path s id side_request) d)
      (remove-Evolves (path s id side_response) (remove (path s id side_request) d).1)

remove_each-Evolves :
    (dir : Str) (names : List Str) (d : Disk) → Evolves d (remove_each dir names d).1
unfolding remove_each
remove_each-Evolves dir [] d = Evolves-refl d
remove_each-Evolves dir (name ∷ names) d =
    go (remove (join dir name) d) (remove-Evolves (join dir name) d) (remove_each-Evolves dir names)
  where
    go :
        (r : Bool × Disk)
        → Evolves d r.1
        → ((d' : Disk) → Evolves d' (remove_each dir names d').1)
        → (let x : Bool × Disk = elim r.0 [
          | false ↦ (false, r.1)
          | true ↦ remove_each dir names r.1
        ] in
            Evolves d x.1)
    go (false, d') e rest = e
    go (true, d') e rest = Evolves-trans e (rest d')

pub remove_all-Evolves : (s : BlobStore) (d : Disk) → Evolves d (remove_all s d).1
unfolding remove_all read_dir
remove_all-Evolves s d = go (listed (fault_of d.faults) s.dir d)
  where
    go :
        (o : Option (List Str))
        → (let x : Bool × Disk = elim o [
          | none ↦ (false, spend d)
          | some ns ↦ remove_each s.dir ns (spend d)
        ] in
            Evolves d x.1)
    go none = spend-Evolves d
    go (some ns) = Evolves-trans (spend-Evolves d) (remove_each-Evolves s.dir ns (spend d))
