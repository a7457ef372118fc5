-- ===== src/Proxy/Capture/Lines.antt =====
-- The lines of a streamed response, and the bytes that the reader's calls append.
use http_debug.Base.{
  ℕ, zero, suc, ◌≡◌, ◌≤◌, ◌<◌, refl, sym, ap, ◌∙◌, Bool, true, false, not, ◌&&◌, ◌==◌, Option, none,
  some, List, [], ◌∷◌, ◌++◌, Str, length, map, all, has, arith, Bool-cases, inl, inr, append_assoc,
  if◌then◌else◌,
}
use http_debug.Time.{Time}
use http_debug.Store.Blobs.Body.{concat}
use http_debug.Store.Ops.Calls.{Call, appends, updates}
use http_debug.Proxy.Capture.{cut_line, drain}

-- The bytes that the calls append, in order.
abbrev pub appended : List Call → Str
appended [] = []
appended (appends id chunk emit_delta now ∷ cs) = chunk ++ appended cs
appended (_ ∷ cs) = appended cs

-- A newline at the end, and no other.
abbrev pub is_line : Str → Bool
is_line [] = false
is_line (c ∷ []) = c == 10
is_line (c ∷ d ∷ s) = not (c == 10) && is_line (d ∷ s)

-- When streamed, every append is announced and is one line; otherwise no append is announced.
abbrev pub announces : Bool → List Call → Bool
announces streamed [] = true
announces streamed (appends id chunk emit_delta now ∷ cs) =
    (if streamed then emit_delta && is_line chunk else not emit_delta) && announces streamed cs
announces streamed (_ ∷ cs) = announces streamed cs

pub appended-append : (xs ys : List Call) → appended (xs ++ ys) ≡ appended xs ++ appended ys
appended-append [] ys = refl
appended-append (appends id chunk e now ∷ cs) ys =
    ap (◌++◌ chunk) (appended-append cs ys) ∙ sym (append_assoc chunk (appended cs) (appended ys))
appended-append (Call.puts f n e ∷ cs) ys = appended-append cs ys
appended-append (Call.sets_body i b ∷ cs) ys = appended-append cs ys
appended-append (updates i f n ∷ cs) ys = appended-append cs ys
appended-append (Call.finalizes i f n ∷ cs) ys = appended-append cs ys
appended-append (Call.sweeps t r n ∷ cs) ys = appended-append cs ys
appended-append (Call.clears ∷ cs) ys = appended-append cs ys
appended-append (Call.subscribes ∷ cs) ys = appended-append cs ys
appended-append (Call.gets i ∷ cs) ys = appended-append cs ys
appended-append (Call.lists l c ∷ cs) ys = appended-append cs ys
appended-append (Call.reads i s ∷ cs) ys = appended-append cs ys
appended-append (Call.receives c ∷ cs) ys = appended-append cs ys
appended-append (Call.drops c ∷ cs) ys = appended-append cs ys

record Cuts (p l r : Str) : Type 0 where
  whole : l ++ r ≡ p
  line : is_line l ≡ true
  shorter : length r < length p

-- What `cut_line` does, by whether there is a newline.
cut_line_cases :
    (P : Option (Str × Str) → Type 0) (p : Str)
    → (has 10 p ≡ false → P none)
    → ((l r : Str) → Cuts p l r → P (some (l, r)))
    → P (cut_line p)
unfolding cut_line
cut_line_cases P [] missing found = missing refl
cut_line_cases P (c ∷ s) missing found = elim (Bool-cases (c == 10)) [
  | inl newline ↦
      rw newline (found (c ∷ []) s (record { whole = refl; line = newline; shorter = omega arith }))
  | inr other ↦ rw other (
      cut_line_cases (λ o. P (elim o [ none ↦ none | some (l, r) ↦ some (c ∷ l, r) ])) s
        (λ h. missing (ground (arith, h, other))) (λ l r k. found (c ∷ l) r (longer l r k other)))
]
  where
    longer : (l r : Str) → Cuts s l r → (c == 10) ≡ false → Cuts (c ∷ s) (c ∷ l) r
    longer [] r k o = absurd (ground (arith, k.line))
    longer (d ∷ l) r k o = record {
      whole = ap (◌∷◌ c) k.whole;
      line = rw (o, k.line) refl;
      shorter = omega (arith, k.shorter);
    }

pub record Drained (p : Str) (r : List Str × Str) : Type 0 where
  pub whole : concat r.0 ++ r.1 ≡ p
  pub all_lines : all is_line r.0 ≡ true
  pub rest : has 10 r.1 ≡ false

-- The fuel is enough: no newline is left.
pub drain-Drained : (fuel : ℕ) (p : Str) → length p ≤ fuel → Drained p (drain fuel p)
unfolding drain
drain-Drained zero [] h = record { whole = refl; all_lines = refl; rest = refl }
drain-Drained zero (c ∷ p) h = absurd (omega (arith, h))
drain-Drained (suc fuel) p h =
    cut_line_cases
      (λ o.
        Drained p
          (elim o [ none ↦ ([], p) | some (l, r) ↦ let (ls, q) = drain fuel r in (l ∷ ls, q) ]))
      p (λ no_line. record { whole = refl; all_lines = refl; rest = no_line })
      (λ l r k.
        let d = drain-Drained fuel r (omega (arith, k.shorter, h)) in
        record {
          whole = append_assoc l _ _ ∙ ap (◌++◌ l) d.whole ∙ k.whole;
          all_lines = rw k.line d.all_lines;
          rest = d.rest;
        })

drain-same : (m n : ℕ) (p : Str) → length p ≤ m → length p ≤ n → drain m p ≡ drain n p
unfolding drain
drain-same zero zero p h k = refl
drain-same zero (suc n) [] h k = refl
drain-same (suc m) zero [] h k = refl
drain-same zero (suc n) (c ∷ p) h k = absurd (omega (arith, h))
drain-same (suc m) zero (c ∷ p) h k = absurd (omega (arith, k))
drain-same (suc m) (suc n) p h k =
    cut_line_cases
      (λ o.
        let x : List Str × Str = elim o [
          | none ↦ ([], p)
          | some (l, r) ↦ let (ls, q) = drain m r in (l ∷ ls, q)
        ] in
        let y : List Str × Str = elim o [
          | none ↦ ([], p)
          | some (l, r) ↦ let (ls, q) = drain n r in (l ∷ ls, q)
        ] in
        x ≡ y)
      p (λ no_line. refl)
      (λ l r c.
        ap (λ (x : List Str × Str). (l ∷ x.0, x.1))
          (drain-same m n r (omega (arith, c.shorter, h)) (omega (arith, c.shorter, k))))

-- The loop over the complete lines of the pending bytes ends: it needs at most as many rounds as there
-- are bytes, and more rounds change nothing. Then no newline is left in what is pending, each line that
-- was taken ends in its only newline, and the lines and the rest are the pending bytes.
pub drain_lem :
    (fuel : ℕ) (p : Str)
    → length p ≤ fuel
    → (drain fuel p ≡ drain (length p) p) × Drained p (drain fuel p)
drain_lem fuel p h = (drain-same fuel (length p) p h (omega arith), drain-Drained fuel p h)

pub announces-append :
    (streamed : Bool) (xs ys : List Call)
    → announces streamed xs ≡ true
    → announces streamed ys ≡ true
    → announces streamed (xs ++ ys) ≡ true
announces-append streamed [] ys h k = k
announces-append streamed (appends id chunk e now ∷ cs) ys h k =
    ground (arith, announces-append streamed cs ys)
announces-append streamed (Call.puts f n e ∷ cs) ys h k = announces-append streamed cs ys h k
announces-append streamed (Call.sets_body i b ∷ cs) ys h k = announces-append streamed cs ys h k
announces-append streamed (updates i f n ∷ cs) ys h k = announces-append streamed cs ys h k
announces-append streamed (Call.finalizes i f n ∷ cs) ys h k = announces-append streamed cs ys h k
announces-append streamed (Call.sweeps t r n ∷ cs) ys h k = announces-append streamed cs ys h k
announces-append streamed (Call.clears ∷ cs) ys h k = announces-append streamed cs ys h k
announces-append streamed (Call.subscribes ∷ cs) ys h k = announces-append streamed cs ys h k
announces-append streamed (Call.gets i ∷ cs) ys h k = announces-append streamed cs ys h k
announces-append streamed (Call.lists l c ∷ cs) ys h k = announces-append streamed cs ys h k
announces-append streamed (Call.reads i s ∷ cs) ys h k = announces-append streamed cs ys h k
announces-append streamed (Call.receives c ∷ cs) ys h k = announces-append streamed cs ys h k
announces-append streamed (Call.drops c ∷ cs) ys h k = announces-append streamed cs ys h k

-- The calls of a streamed chunk.
pub appended-map :
    (id : Str) (now : Time) (ls : List Str)
    → appended (map (λ l. appends id l true now) ls) ≡ concat ls
appended-map id now [] = refl
appended-map id now (l ∷ ls) = ap (◌++◌ l) (appended-map id now ls)

pub announces-map :
    (id : Str) (now : Time) (ls : List Str)
    → announces true (map (λ l. appends id l true now) ls) ≡ all is_line ls
announces-map id now [] = refl
announces-map id now (l ∷ ls) = ap (λ b. is_line l && b) (announces-map id now ls)
