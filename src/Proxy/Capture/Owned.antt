-- ===== src/Proxy/Capture/Owned.antt =====
-- The capture reader keeps to its own entry.
use http_debug.Base.{
  ◌≡◌, refl, ◌∙◌, subst, Bool, true, ◌==◌, ltb, Option, List, [], ◌∷◌, ◌++◌, Str, str_eq, length,
  map, if_either,
}
use http_debug.Time.{Time, Duration}
use http_debug.Store.Entry.{Format, format_raw}
use http_debug.Store.Ops.Calls.{Call, appends, updates}
use http_debug.Proxy.Format.{sniff_format}
use http_debug.Proxy.Capture.{
  CaptureReader, set_format, detect, copy, consume, seen_at, read, read_all, close_reader,
}

-- Calls that append to one entry, or change it.
abbrev pub OnlyFor : Str → List Call → Type 0
OnlyFor id [] = Unit
OnlyFor id (appends j chunk emit_delta now ∷ cs) = (j ≡ id) × OnlyFor id cs
OnlyFor id (updates j fn now ∷ cs) = (j ≡ id) × ((f : Format) × (fn ≡ set_format f)) × OnlyFor id cs
OnlyFor id (_ ∷ cs) = ⊥

pub OnlyFor-append :
    (id : Str) (xs ys : List Call) → OnlyFor id xs → OnlyFor id ys → OnlyFor id (xs ++ ys)
OnlyFor-append id [] ys h k = k
OnlyFor-append id (appends j chunk e now ∷ cs) ys h k = (h.0, OnlyFor-append id cs ys h.1 k)
OnlyFor-append id (updates j fn now ∷ cs) ys h k = (h.0, h.1, OnlyFor-append id cs ys h.2 k)
OnlyFor-append id (Call.puts f n e ∷ cs) ys h k = absurd h
OnlyFor-append id (Call.sets_body i b ∷ cs) ys h k = absurd h
OnlyFor-append id (Call.finalizes i f n ∷ cs) ys h k = absurd h
OnlyFor-append id (Call.sweeps t r n ∷ cs) ys h k = absurd h
OnlyFor-append id (Call.clears ∷ cs) ys h k = absurd h
OnlyFor-append id (Call.subscribes ∷ cs) ys h k = absurd h
OnlyFor-append id (Call.gets i ∷ cs) ys h k = absurd h
OnlyFor-append id (Call.lists l c ∷ cs) ys h k = absurd h
OnlyFor-append id (Call.reads i s ∷ cs) ys h k = absurd h
OnlyFor-append id (Call.receives c ∷ cs) ys h k = absurd h
OnlyFor-append id (Call.drops c ∷ cs) ys h k = absurd h

OnlyFor-map :
    (id : Str) (now : Time) (ls : List Str) → OnlyFor id (map (λ l. appends id l true now) ls)
OnlyFor-map id now [] = tt
OnlyFor-map id now (l ∷ ls) = (refl, OnlyFor-map id now ls)

-- The reader keeps to its entry.
abbrev pub Owns : Str → List Call × CaptureReader → Type 0
Owns id r = OnlyFor id r.0 × (r.1.id ≡ id)

read-Owns :
    (valid : Str → Bool) (now : Time) (chunk : Str) (c : CaptureReader)
    → Owns c.id (read valid now chunk c)
unfolding read consume
read-Owns valid now chunk c =
    if_either (Owns c.id) (length chunk == 0) (tt, refl)
      (
        OnlyFor-append c.id (detect valid now chunk (seen_at now c)).0 _ d.0
            (subst (λ i. OnlyFor i (copy valid now chunk d').0) d.1 (copy-own d').0),
        (copy-own d').1 ∙ d.1,
      )
  where
    d : Owns c.id (detect valid now chunk (seen_at now c))
    d =
        if_either (Owns c.id) c.sniffed (tt, refl)
          (if_either (Owns c.id) (str_eq (sniff_format valid chunk) format_raw) (tt, refl)
            ((refl, (sniff_format valid chunk, refl), tt), refl))

    d' : CaptureReader
    d' = (detect valid now chunk (seen_at now c)).1

    copy-own : (k : CaptureReader) → Owns k.id (copy valid now chunk k)
    copy-own k = if_either (Owns k.id) k.stream (OnlyFor-map k.id now _, refl) ((refl, tt), refl)

pub read_all-Owns :
    (valid : Str → Bool) (cs : List (Time × Str)) (c : CaptureReader)
    → Owns c.id (read_all valid cs c)
unfolding read_all
read_all-Owns valid [] c = (tt, refl)
read_all-Owns valid ((now, chunk) ∷ cs) c =
    let r = read valid now chunk c in
    let h = read-Owns valid now chunk c in
    let k = read_all-Owns valid cs r.1 in
    (
      OnlyFor-append c.id r.0 _ h.0 (subst (λ i. OnlyFor i (read_all valid cs r.1).0) h.1 k.0),
      k.1 ∙ h.1,
    )

pub close_reader-OnlyFor : (now : Time) (c : CaptureReader) → OnlyFor c.id (close_reader now c).0
unfolding close_reader
close_reader-OnlyFor now c =
    if_either (λ (r : List Call × Option (Option Duration) × CaptureReader). OnlyFor c.id r.0)
      c.closed tt (if_either (OnlyFor c.id) (ltb 0 (length c.pending)) (refl, tt) tt)
