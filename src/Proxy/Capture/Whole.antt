-- ===== src/Proxy/Capture/Whole.antt =====
-- A response goes into the store whole, and a streamed one line by line.
use http_debug.Base.{
  ℕ, some, ◌≡◌, not, str_eq_iff, if_false, refl, sym, ap, ◌∙◌, subst, Bool, true, false, ◌==◌, ltb,
  none, List, [], ◌∷◌, ◌++◌, Str, str_eq, length, map, has, arith, if◌then◌else◌, if_either,
  if_true, if_cases, append-nil, append_assoc,
}
use http_debug.Time.{Time}
use http_debug.Store.Entry.{Format, format_raw}
use http_debug.Store.Blobs.Body.{concat}
use http_debug.Store.Ops.Calls.{Call, appends}
use http_debug.Proxy.Format.{sniff_format, is_streaming}
use http_debug.Proxy.Capture.{
  CaptureReader, new_capture_reader, drain, detect, copy, consume, seen_at, read, read_all,
  close_reader, stream_time,
}
use http_debug.Proxy.Capture.Lines.{
  appended, announces, appended-append, drain-Drained, announces-append, appended-map,
  announces-map,
}

-- What holds of a reader between its calls.
pub record IsWaiting (c : CaptureReader) : Type 0 where
  pub idle : c.stream ≡ false → c.pending ≡ []
  pub fresh : c.sniffed ≡ false → c.pending ≡ []
  pub partial : has 10 c.pending ≡ false

-- The calls take the bytes that waited and the new ones, but for those that wait now.
pub record Copies (c : CaptureReader) (bytes : Str) (r : List Call × CaptureReader) : Type 0 where
  pub whole : appended r.0 ++ r.1.pending ≡ c.pending ++ bytes
  pub by_line :
      (streamed : Bool)
      → (r.1.sniffed ≡ true → streamed ≡ r.1.stream)
      → announces streamed r.0 ≡ true
  pub steady : c.sniffed ≡ true → (r.1.sniffed ≡ true) × (r.1.stream ≡ c.stream)
  pub waiting : IsWaiting r.1
  pub same_closed : r.1.closed ≡ c.closed

Copies-then :
    (c : CaptureReader) (a b : Str) (calls more : List Call) (c₁ c₂ : CaptureReader)
    → Copies c a (calls, c₁)
    → Copies c₁ b (more, c₂)
    → Copies c (a ++ b) (calls ++ more, c₂)
Copies-then c a b calls more c₁ c₂ h k = record {
  whole =
      ap (λ x. x ++ c₂.pending) (appended-append calls more)
      ∙ append_assoc (appended calls) (appended more) c₂.pending
      ∙ ap (◌++◌ (appended calls)) k.whole
      ∙ sym (append_assoc (appended calls) c₁.pending b)
      ∙ ap (λ x. x ++ b) h.whole
      ∙ append_assoc c.pending a b;
  by_line = λ streamed e.
      announces-append streamed calls more
        (h.by_line streamed (λ s. let (s₂, same) = k.steady s in e s₂ ∙ same))
        (k.by_line streamed e);
  steady = λ s. let (s₁, same) = h.steady s in let (s₂, same₂) = k.steady s₁ in (s₂, same₂ ∙ same);
  waiting = k.waiting;
  same_closed = k.same_closed ∙ h.same_closed;
}

nothing : (c : CaptureReader) → IsWaiting c → Copies c [] ([], c)
nothing c w = record {
  whole = sym (append-nil c.pending);
  by_line = λ streamed e. refl;
  steady = λ s. (s, refl);
  waiting = w;
  same_closed = refl;
}

module _ (valid : Str → Bool) (now : Time) (chunk : Str) where
  -- Detection appends nothing, and leaves a reader that has detected.
  detect-Copies :
      (c : CaptureReader)
      → IsWaiting c
      → let r = detect valid now chunk c in Copies c [] r × (r.1.sniffed ≡ true)
  detect-Copies c w =
      if_cases (λ (x : List Call × CaptureReader). Copies c [] x × (x.1.sniffed ≡ true)) c.sniffed
        (λ sniffed. (nothing c w, sniffed))
        (λ unsniffed.
          let none_pending = w.fresh unsniffed in
          if_either (λ (x : List Call × CaptureReader). Copies c [] x × (x.1.sniffed ≡ true))
            (str_eq f format_raw)
            ((
              record {
                whole = sym (append-nil c.pending);
                by_line = λ streamed e. refl;
                steady = λ s. (refl, refl);
                waiting = record { idle = w.idle; fresh = λ h. none_pending; partial = w.partial };
                same_closed = refl;
              },
              refl,
            ))
            ((
              record {
                whole = sym (append-nil c.pending);
                by_line = λ streamed e. refl;
                steady = λ s. absurd (ground (arith, unsniffed, s));
                waiting = record {
                  idle = λ h. none_pending;
                  fresh = λ h. none_pending;
                  partial = w.partial;
                };
                same_closed = refl;
              },
              refl,
            )))
    where
      f : Format
      f = sniff_format valid chunk

  copy-Copies :
      (c : CaptureReader) → IsWaiting c → c.sniffed ≡ true → Copies c chunk (copy valid now chunk c)
  copy-Copies c w sniffed =
      let pending = c.pending ++ chunk in
      let d = drain-Drained (length pending) pending (omega arith) in
      let ls = (drain (length pending) pending).0 in
      if_cases (λ (x : List Call × CaptureReader). Copies c chunk x) c.stream
        (λ stream. record {
          whole =
              ap (λ x. x ++ (drain (length pending) pending).1) (appended-map c.id now ls)
              ∙ d.whole;
          by_line = λ streamed e.
              subst (λ b. announces b (map (λ l. appends c.id l true now) ls) ≡ true)
                (sym (e sniffed ∙ stream)) (announces-map c.id now ls ∙ d.all_lines);
          steady = λ s. (s, refl);
          waiting = record { idle = λ h. cc; fresh = λ h. cc; partial = d.rest };
          same_closed = refl;
        })
        (λ unstreamed. record {
          whole = rw (w.idle unstreamed, append-nil chunk, append-nil chunk) refl;
          by_line = λ streamed e.
              subst (λ b. announces b (appends c.id chunk false now ∷ []) ≡ true)
                (sym (e sniffed ∙ unstreamed)) refl;
          steady = λ s. (s, refl);
          waiting = w;
          same_closed = refl;
        })

  consume-Copies : (c : CaptureReader) → IsWaiting c → Copies c chunk (consume valid now chunk c)
  unfolding consume
  consume-Copies c w =
      let d = detect valid now chunk c in
      let r = copy valid now chunk d.1 in
      let k = detect-Copies c w in
      Copies-then c [] chunk d.0 r.0 d.1 r.1 k.0 (copy-Copies d.1 k.0.waiting k.1)

  read-Copies : (c : CaptureReader) → IsWaiting c → Copies c chunk (read valid now chunk c)
  unfolding read
  read-Copies c w =
      if_cases (λ (x : List Call × CaptureReader). Copies c chunk x) (length chunk == 0)
        (λ empty. subst (λ b. Copies c b ([], c)) (sym (empty_chunk chunk empty)) (nothing c w))
        (λ some_bytes.
          let k =
            consume-Copies (seen_at now c)
              (record { idle = w.idle; fresh = w.fresh; partial = w.partial }) in
          record {
            whole = k.whole;
            by_line = k.by_line;
            steady = k.steady;
            waiting = k.waiting;
            same_closed = k.same_closed;
          })
    where
      empty_chunk : (b : Str) → (length b == 0) ≡ true → b ≡ []
      empty_chunk [] h = refl
      empty_chunk (x ∷ b) h = absurd (ground (arith, h))

read_all-Copies :
    (valid : Str → Bool) (cs : List (Time × Str)) (c : CaptureReader)
    → IsWaiting c
    → Copies c (concat (map (λ r. r.1) cs)) (read_all valid cs c)
unfolding read_all
read_all-Copies valid [] c w = nothing c w
read_all-Copies valid ((now, chunk) ∷ cs) c w =
    let r = read valid now chunk c in
    let h = read-Copies valid now chunk c w in
    let more = read_all valid cs r.1 in
    Copies-then c chunk _ r.0 more.0 r.1 more.1 h (read_all-Copies valid cs r.1 h.waiting)

flushed :
    (c : CaptureReader) (now : Time)
    → appended (if ltb 0 (length c.pending) then appends c.id c.pending true now ∷ [] else [])
      ≡ c.pending
flushed c now = go c.pending
  where
    go : (p : Str) → appended (if ltb 0 (length p) then appends c.id p true now ∷ [] else []) ≡ p
    go [] = refl
    go (x ∷ p) =
        let some_bytes : ltb 0 (length (x ∷ p)) ≡ true = ground arith in
        rw some_bytes (append-nil (x ∷ p))

close_reader_lem :
    (c : CaptureReader) (now : Time)
    → c.closed ≡ false
    → let last = close_reader now c in
      (appended last.0 ≡ c.pending) × (last.2.pending ≡ []) × (last.2.closed ≡ true)
unfolding close_reader
close_reader_lem c now h = rw h (flushed c now, refl, refl)

-- The first bytes that are read.
abbrev pub first_chunk : List (Time × Str) → Str
first_chunk [] = []
first_chunk ((now, []) ∷ cs) = first_chunk cs
first_chunk ((now, c ∷ s) ∷ cs) = c ∷ s

-- The format of the header decides, or else that of the first bytes.
abbrev pub streams : (Str → Bool) → Format → List (Time × Str) → Bool
streams valid format cs =
    is_streaming (if str_eq format format_raw then sniff_format valid (first_chunk cs) else format)

format_raw-is_streaming : is_streaming format_raw ≡ false
unfolding is_streaming str_eq
format_raw-is_streaming = refl

detect-stream :
    (valid : Str → Bool) (now : Time) (chunk : Str) (c : CaptureReader)
    → c.sniffed ≡ false
    → c.stream ≡ false
    → (detect valid now chunk c).1.stream ≡ is_streaming (sniff_format valid chunk)
detect-stream valid now chunk c h k =
    let f = sniff_format valid chunk in
    let P : List Call × CaptureReader → Type 0 = λ x. x.1.stream ≡ is_streaming f in
    subst P (sym (if_false _ _ h)) (
      if_cases P (str_eq f format_raw)
        (λ raw.
          k ∙ sym (ap is_streaming ((str_eq_iff f format_raw).0 raw) ∙ format_raw-is_streaming))
        (λ other. refl))

length-not_zero : (x : ℕ) (s : Str) → (length (x ∷ s) == 0) ≡ false
length-not_zero x s = ground arith

read_first-stream :
    (valid : Str → Bool) (now : Time) (x : ℕ) (s : Str) (c : CaptureReader)
    → IsWaiting c
    → c.sniffed ≡ false
    → c.stream ≡ false
    → let r = read valid now (x ∷ s) c in
      (r.1.sniffed ≡ true) × (r.1.stream ≡ is_streaming (sniff_format valid (x ∷ s)))
unfolding read consume
read_first-stream valid now x s c w h k =
    let chunk = x ∷ s in
    let P : List Call × CaptureReader → Type 0 =
      λ r. (r.1.sniffed ≡ true) × (r.1.stream ≡ is_streaming (sniff_format valid chunk)) in
    let d = detect valid now chunk (seen_at now c) in
    let seen : IsWaiting (seen_at now c) = record {
      idle = w.idle;
      fresh = w.fresh;
      partial = w.partial;
    } in
    let detected = detect-Copies valid now chunk (seen_at now c) seen in
    let (sniffed, same) =
      (copy-Copies valid now chunk d.1 detected.0.waiting detected.1).steady detected.1 in
    subst P (sym (if_false _ _ (length-not_zero x s)))
      (sniffed, same ∙ detect-stream valid now chunk (seen_at now c) h k)

read_all-unsniffed :
    (valid : Str → Bool) (cs : List (Time × Str)) (c : CaptureReader)
    → IsWaiting c
    → c.sniffed ≡ false
    → c.stream ≡ false
    → (read_all valid cs c).1.stream ≡ is_streaming (sniff_format valid (first_chunk cs))
unfolding read_all
read_all-unsniffed valid [] c w h k = k
read_all-unsniffed valid ((now, []) ∷ cs) c w h k = read_all-unsniffed valid cs c w h k
read_all-unsniffed valid ((now, x ∷ s) ∷ cs) c w h k =
    let r = read valid now (x ∷ s) c in
    let this = read-Copies valid now (x ∷ s) c w in
    let first = read_first-stream valid now x s c w h k in
    ((read_all-Copies valid cs r.1 this.waiting).steady first.0).1 ∙ first.1

read_all-stream :
    (valid : Str → Bool) (id : Str) (format : Format) (cs : List (Time × Str))
    → (read_all valid cs (new_capture_reader id format)).1.stream ≡ streams valid format cs
read_all-stream valid id format cs =
    let c = new_capture_reader id format in
    let w : IsWaiting c = record { idle = λ h. refl; fresh = λ h. refl; partial = refl } in
    let P : Format → Type 0 = λ f. (read_all valid cs c).1.stream ≡ is_streaming f in
    if_cases P (str_eq format format_raw)
      (λ raw.
        read_all-unsniffed valid cs c w (ap not raw)
          (ap is_streaming ((str_eq_iff format format_raw).0 raw) ∙ format_raw-is_streaming))
      (λ other. ((read_all-Copies valid cs c w).steady (ap not other)).1)

-- Every run of reads of a new reader, however the response is cut, and then Close: the appends of all
-- the calls are exactly the bytes read, in order. The reader takes the response for a streamed one if
-- its format is, which is the one of the header, or that of the first bytes where the header tells
-- none. When streamed, every append of a read is announced and is one whole line, so that what waits
-- for Close has no newline in it; otherwise no append of a read is announced. After Close nothing
-- waits, and a second Close does nothing.
pub read_all-close_reader :
    (valid : Str → Bool) (id : Str) (format : Format) (cs : List (Time × Str)) (now later : Time)
    → let r = read_all valid cs (new_capture_reader id format) in
      let last = close_reader now r.1 in
      (appended (r.0 ++ last.0) ≡ concat (map (λ c. c.1) cs))
      × (announces (streams valid format cs) r.0 ≡ true)
      × (has 10 r.1.pending ≡ false)
      × (last.2.pending ≡ [])
      × (close_reader later last.2 ≡ ([], none, last.2))
unfolding close_reader
read_all-close_reader valid id format cs now later =
    let c = new_capture_reader id format in
    let r = read_all valid cs c in
    let k =
      read_all-Copies valid cs c (record { idle = λ h. refl; fresh = λ h. refl; partial = refl }) in
    let last = close_reader now r.1 in
    let l = close_reader_lem r.1 now k.same_closed in
    (
      appended-append r.0 last.0 ∙ ap (◌++◌ (appended r.0)) l.0 ∙ k.whole,
      k.by_line (streams valid format cs) (λ s. sym (read_all-stream valid id format cs)),
      k.waiting.partial,
      l.1,
      if_true _ _ l.2,
    )

-- A reader that was only read from is open, so that its Close calls `onClose`.
pub read_all-open :
    (valid : Str → Bool) (id : Str) (format : Format) (cs : List (Time × Str)) (now : Time)
    → let c = (read_all valid cs (new_capture_reader id format)).1 in
      (close_reader now c).1 ≡ some (stream_time c)
unfolding close_reader
read_all-open valid id format cs now =
    let k =
      read_all-Copies valid cs (new_capture_reader id format)
        (record { idle = λ h. refl; fresh = λ h. refl; partial = refl }) in
    rw k.same_closed refl
