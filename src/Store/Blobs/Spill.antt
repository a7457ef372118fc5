-- ===== src/Store/Blobs/Spill.antt =====
-- A body buffer against the body that it took: the bytes of the writes that succeeded, in order.
use http_debug.Base.{
  ℕ, ◌+◌, ◌-◌, ◌≤◌, ◌<◌, ◌≡◌, refl, sym, ap, ◌∙◌, subst, Bool, true, false, Option, none, some, [],
  ◌∷◌, ◌++◌, Str, leb, ltb, ◌==◌, length, length-append, length-take, take, take-append, take-all,
  min, arith, if◌then◌else◌, Bool-cases, if_true, if_false, inl, inr, append-nil,
}
use http_debug.Base.Map.{lookup}
use http_debug.Store.Disk.{Disk}
use http_debug.Store.Disk.Laws.{create_cases, write_cases}
use http_debug.Store.Blobs.{
  BlobStore, BodyBuffer, path, write_body, open_blob, with_file, append_blob, filled, opened,
  appended, extend_preview, fits,
}

-- Where the body `w` is: all of it in memory, or in the file that is open. A buffer that failed may
-- hold more bytes in its file than were taken.
pub data Place (s : BlobStore) (w : Str) (b : BodyBuffer) (d : Disk) : Type 0 where
  inline : b.path ≡ [] → b.file ≡ none → length w ≤ s.max_inline → Place s w b d
  spilled :
      (i : ℕ)
      → b.path ≡ path s b.id b.side
      → b.file ≡ some i
      → lookup b.path d.names ≡ some i
      → (b.failed ≡ false → (d.content i ≡ w) × (s.max_inline < length w))
      → Place s w b d

pub record Tracks (s : BlobStore) (w : Str) (b : BodyBuffer) (d : Disk) : Type 0 where
  pub preview : b.preview ≡ take s.max_inline w
  pub size : b.size ≡ length w
  pub place : Place s w b d

take-min : (n : ℕ) (p : Str) → take (min (length p) n) p ≡ take n p
take-min n p = elim (Bool-cases (leb (length p) n)) [
  | inl le ↦
      let e : min (length p) n ≡ length p = ground arith in
      rw e (take-all (length p) p (omega arith) ∙ sym (take-all n p (ground arith)))
  | inr gt ↦ let e : min (length p) n ≡ n = ground arith in rw e
]

-- The preview grows to the leading bytes of the whole body.
extend_preview-take : (max : ℕ) (w p : Str) → extend_preview max p (take max w) ≡ take max (w ++ p)
extend_preview-take max w p = elim (Bool-cases (ltb 0 (max - length (take max w)))) [
  | inl room ↦
      let e : max - length (take max w) ≡ max - length w = ground (arith, length-take max w) in
      if_true _ _ room
      ∙ ap (◌++◌ (take max w)) (take-min (max - length (take max w)) p ∙ ap (λ n. take n p) e)
      ∙ sym (take-append max w p)
  | inr full ↦
      let e : max - length w ≡ 0 = ground (arith, length-take max w) in
      if_false _ _ full
      ∙ sym (append-nil (take max w))
      ∙ ap (λ n. take max w ++ take n p) (sym e)
      ∙ sym (take-append max w p)
]

open_blob_cases :
    (P : Option ℕ × BodyBuffer × Disk → Type 0) (s : BlobStore) (b : BodyBuffer) (d : Disk)
    → ((d' : Disk) → P (none, record b { failed = true }, d'))
    → ((i : ℕ) (d' : Disk)
        → lookup (path s b.id b.side) d'.names ≡ some i
        → d'.content i ≡ b.preview
        → P (some i, record b { file = some i; path = path s b.id b.side }, d'))
    → P (open_blob s b d)
unfolding open_blob
open_blob_cases P s b d failed done =
    create_cases (λ r. P (filled p r b)) p d failed
      λ i d' found cut.
        write_cases (λ r. P (opened p i r b)) i b.preview d'
          (λ d'' same text. done i d'' (rw same found) (text ∙ ap (λ t. t ++ b.preview) cut))
          (λ d'' _. failed d'')
  where
    p : Str
    p = path s b.id b.side

append_blob-Tracks :
    (s : BlobStore) (w p : Str) (b : BodyBuffer) (i : ℕ) (d : Disk)
    → b.preview ≡ take s.max_inline w
    → b.size ≡ length w
    → b.path ≡ path s b.id b.side
    → b.file ≡ some i
    → lookup b.path d.names ≡ some i
    → d.content i ≡ w
    → s.max_inline < length (w ++ p)
    → let r = append_blob s p (some i, b, d) in Tracks s (if r.0 then w ++ p else w) r.1 r.2
unfolding append_blob
append_blob-Tracks s w p b i d e1 e2 e3 e4 e5 e6 h =
    write_cases (λ r. let a = appended s p r b in Tracks s (if a.0 then w ++ p else w) a.1 a.2) i p
      d
      (λ d' same text. record {
        preview = rw e1 (extend_preview-take s.max_inline w p);
        size = rw (e2, length-append);
        place = spilled i e3 e4 (rw same e5) (λ _. (text ∙ ap (λ t. t ++ p) e6, h));
      })
      (λ d' same. record {
        preview = e1;
        size = e2;
        place = spilled i e3 e4 (rw same e5) (λ f. cc);
      })

-- The first bytes past the limit: the preview is the whole body so far, and goes to the file.
spill-Tracks :
    (s : BlobStore) (w p : Str) (b : BodyBuffer) (d : Disk)
    → b.preview ≡ w
    → b.size ≡ length w
    → b.path ≡ []
    → b.file ≡ none
    → length w ≤ s.max_inline
    → s.max_inline < length (w ++ p)
    → let r = append_blob s p (open_blob s b d) in Tracks s (if r.0 then w ++ p else w) r.1 r.2
spill-Tracks s w p b d e1 e2 e3 e4 le gt =
    open_blob_cases (λ o. let r = append_blob s p o in Tracks s (if r.0 then w ++ p else w) r.1 r.2)
      s b d
      (λ d'.
        unfold append_blob in
        record {
          preview = e1 ∙ sym (take-all s.max_inline w le);
          size = e2;
          place = inline e3 e4 le;
        })
      (λ i d' found text.
        append_blob-Tracks s w p _ i d' (e1 ∙ sym (take-all s.max_inline w le)) e2 refl refl found
          (text ∙ e1) gt)

-- The branches of `Write`, for bytes that are not empty.
module _ (s : BlobStore) (x : ℕ) (p : Str) (b : BodyBuffer) (d : Disk) where
  not_empty : (length (x ∷ p) == 0) ≡ false
  not_empty = ground arith

  write_body-failed : b.failed ≡ true → write_body s (x ∷ p) b d ≡ (false, b, d)
  unfolding write_body
  write_body-failed bad = if_false _ _ not_empty ∙ if_true _ _ bad

  write_body-fits :
      b.failed ≡ false
      → fits s (x ∷ p) b ≡ true
      → write_body s (x ∷ p) b d
        ≡ (true, record b { preview = b.preview ++ x ∷ p; size = b.size + length (x ∷ p) }, d)
  unfolding write_body
  write_body-fits good fit = if_false _ _ not_empty ∙ if_false _ _ good ∙ if_true _ _ fit

  write_body-spills :
      b.failed ≡ false
      → fits s (x ∷ p) b ≡ false
      → write_body s (x ∷ p) b d ≡ append_blob s (x ∷ p) (with_file b.file s b d)
  unfolding write_body
  write_body-spills good full = if_false _ _ not_empty ∙ if_false _ _ good ∙ if_false _ _ full

fits_inline :
    (s : BlobStore) (p : Str) (b : BodyBuffer)
    → b.file ≡ none
    → fits s p b ≡ leb (b.size + length p) s.max_inline
fits_inline s p b e = rw (e, fits)

fits_spilled :
    (s : BlobStore) (p : Str) (b : BodyBuffer) (i : ℕ) → b.file ≡ some i → fits s p b ≡ false
fits_spilled s p b i e = rw (e, fits)

-- What is to hold after a write of `p`, whether or not it reports success.
abbrev Took : BlobStore → Str → Str → Bool × BodyBuffer × Disk → Type 0
Took s w p r = Tracks s (if r.0 then w ++ p else w) r.1 r.2

good-Took :
    (s : BlobStore) (w : Str) (x : ℕ) (p : Str) (b : BodyBuffer) (d : Disk)
    → b.failed ≡ false
    → Tracks s w b d
    → Took s w (x ∷ p) (write_body s (x ∷ p) b d)
unfolding with_file
good-Took s w x p b d good t = go t.place
  where
    fit : leb (b.size + length (x ∷ p)) s.max_inline ≡ true → length (w ++ x ∷ p) ≤ s.max_inline
    fit h = ground (arith, length-append w (x ∷ p), t.size)

    over : leb (b.size + length (x ∷ p)) s.max_inline ≡ false → s.max_inline < length (w ++ x ∷ p)
    over h = ground (arith, length-append w (x ∷ p), t.size)

    go : Place s w b d → Took s w (x ∷ p) (write_body s (x ∷ p) b d)
    go (inline e f le) = elim (Bool-cases (leb (b.size + length (x ∷ p)) s.max_inline)) [
      | inl h ↦
          subst (Took s w (x ∷ p))
            (sym (write_body-fits s x p b d good (fits_inline s (x ∷ p) b f ∙ h)))
            (record {
              preview =
                  ap (λ v. v ++ x ∷ p) (t.preview ∙ take-all s.max_inline w le)
                  ∙ sym (take-all s.max_inline (w ++ x ∷ p) (fit h));
              size = ap (λ n. n + length (x ∷ p)) t.size ∙ sym (length-append w (x ∷ p));
              place = inline e f (fit h);
            })
      | inr h ↦
          subst (Took s w (x ∷ p))
            (sym (
              write_body-spills s x p b d good (fits_inline s (x ∷ p) b f ∙ h)
              ∙ ap (λ o. append_blob s (x ∷ p) (with_file o s b d)) f))
            (spill-Tracks s w (x ∷ p) b d (t.preview ∙ take-all s.max_inline w le) t.size e f le
              (over h))
    ]
    go (spilled i e f found inside) =
        subst (Took s w (x ∷ p))
          (sym (
            write_body-spills s x p b d good (fits_spilled s (x ∷ p) b i f)
            ∙ ap (λ o. append_blob s (x ∷ p) (with_file o s b d)) f))
          (append_blob-Tracks s w (x ∷ p) b i d t.preview t.size e f found (inside good).0
            (omega (arith, (inside good).1, length-append w (x ∷ p))))

-- One `Write`, whatever fails: the buffer then tracks the body with these bytes at its end if the
-- write reports success, and the body as it was if not.
pub write_body-Tracks :
    (s : BlobStore) (w p : Str) (b : BodyBuffer) (d : Disk)
    → Tracks s w b d
    → let r = write_body s p b d in Tracks s (if r.0 then w ++ p else w) r.1 r.2
write_body-Tracks s w [] b d t = unfold write_body in rw append-nil t
write_body-Tracks s w (x ∷ p) b d t = elim (Bool-cases b.failed) [
  | inl bad ↦ subst (Took s w (x ∷ p)) (sym (write_body-failed s x p b d bad)) t
  | inr good ↦ good-Took s w x p b d good t
]
