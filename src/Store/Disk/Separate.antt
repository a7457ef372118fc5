-- ===== src/Store/Disk/Separate.antt =====
-- Files of different names have different inodes, and what the writer of one file leaves of the others:
-- the file operations of internal/store/blobs.go.
use http_debug.Base.{
  ℕ, suc, ◌<◌, ◌≡◌, ◌≢◌, refl, sym, ap, ◌∙◌, false, Option, none, some, List, [], ◌⊎◌, if_true,
  if_false, ◌++◌, Str, str_eq, str_eq_iff, arith, take, update, Bool-cases, inl, inr, ==_iff,
}
use http_debug.Base.Map.{lookup, insert, lookup-insert}
use http_debug.Base.Map.{lookup-delete}
use http_debug.Store.Disk.{
  remove, Disk, create, write, fault_of, spend, create_unless, write_unless,
}

-- No two names lead to one inode, and the inodes are below the next one.
pub record OwnFiles (d : Disk) : Type 0 where
  pub apart : (p q : Str) (i : ℕ) → lookup p d.names ≡ some i → lookup q d.names ≡ some i → p ≡ q
  pub below : (p : Str) (i : ℕ) → lookup p d.names ≡ some i → i < d.next

-- A handle on the inode `i`, to which no name but `p` leads.
pub record Handle (p : Str) (i : ℕ) (d : Disk) : Type 0 where
  pub made : i < d.next
  pub only : (q : Str) → lookup q d.names ≡ some i → q ≡ p

-- The steps by which the file of one name is written.
pub data Wrote (p : Str) : Disk → Disk → Type 0 where
  rests : (d : Disk) → Wrote p d d
  spends : (d : Disk) → Wrote p d (spend d)
  makes :
      (d : Disk)
      → Wrote p d (record d {
        names = insert p d.next d.names;
        content = update d.content d.next [];
        next = suc d.next;
      })
  fills :
      (i : ℕ) (t : Str) (d : Disk)
      → Handle p i d
      → Wrote p d (record d { content = update d.content i t })
  both : {d d' d'' : Disk} → Wrote p d d' → Wrote p d' d'' → Wrote p d d''

update_other {ℓ} : {A : Type ℓ} (f : ℕ → A) (i j : ℕ) (v : A) → i ≢ j → update f i v j ≡ f j
update_other f i j v n = ground (arith, ==_iff i j, n)

-- What a name leads to once another one, or itself, was made to lead somewhere.
insert_cases :
    (p q : Str) (n i : ℕ) (m : List (Str × ℕ))
    → lookup q (insert p n m) ≡ some i
    → ((p ≡ q) × (i ≡ n)) ⊎ (lookup q m ≡ some i)
insert_cases p q n i m h = elim (Bool-cases (str_eq p q)) [
  | inl same ↦
      inl (
        (str_eq_iff p q).0 same,
        ground (arith, sym (lookup-insert p q n m ∙ if_true _ _ same) ∙ h),
      )
  | inr other ↦ inr (sym (lookup-insert p q n m ∙ if_false _ _ other) ∙ h)
]

makes-OwnFiles :
    (p : Str) (d : Disk) (f : ℕ → Str)
    → OwnFiles d
    → OwnFiles (record d { names = insert p d.next d.names; content = f; next = suc d.next })
makes-OwnFiles p d f o = record {
  apart = λ a b i ha hb.
      go (insert_cases p a d.next i d.names ha) (insert_cases p b d.next i d.names hb);
  below = λ a i h. elim (insert_cases p a d.next i d.names h) [
    | inl new ↦ omega (arith, new.1)
    | inr old ↦ omega (arith, o.below a i old)
  ];
}
  where
    go :
        {a b : Str} {i : ℕ}
        → ((p ≡ a) × (i ≡ d.next)) ⊎ (lookup a d.names ≡ some i)
        → ((p ≡ b) × (i ≡ d.next)) ⊎ (lookup b d.names ≡ some i)
        → a ≡ b
    go (inl x) (inl y) = sym x.0 ∙ y.0
    go {b = b} {i = i} (inl x) (inr y) = absurd (omega (arith, x.1, o.below b i y))
    go {a = a} {i = i} (inr x) (inl y) = absurd (omega (arith, y.1, o.below a i x))
    go {a = a} {b = b} {i = i} (inr x) (inr y) = o.apart a b i x y

pub Wrote-OwnFiles : {p : Str} {d d' : Disk} → Wrote p d d' → OwnFiles d → OwnFiles d'
Wrote-OwnFiles (rests d) o = o
Wrote-OwnFiles (spends d) o = record { apart = o.apart; below = o.below }
Wrote-OwnFiles {p} (makes d) o = makes-OwnFiles p d _ o
Wrote-OwnFiles (fills i t d h) o = record { apart = o.apart; below = o.below }
Wrote-OwnFiles (both w v) o = Wrote-OwnFiles v (Wrote-OwnFiles w o)

pub Wrote-Handle : {p q : Str} {i : ℕ} {d d' : Disk} → Wrote p d d' → Handle q i d → Handle q i d'
Wrote-Handle (rests d) h = h
Wrote-Handle (spends d) h = record { made = h.made; only = h.only }
Wrote-Handle {p} {q} {i} (makes d) h = record {
  made = omega (arith, h.made);
  only = λ a l. elim (insert_cases p a d.next i d.names l) [
    | inl new ↦ absurd (omega (arith, new.1, h.made))
    | inr old ↦ h.only a old
  ];
}
Wrote-Handle (fills j t d k) h = record { made = h.made; only = h.only }
Wrote-Handle (both w v) h = Wrote-Handle v (Wrote-Handle w h)

pub Wrote-faults : {p : Str} {d d' : Disk} → Wrote p d d' → d.faults ≡ [] → d'.faults ≡ []
Wrote-faults (rests d) f = f
Wrote-faults (spends d) f = rw f
Wrote-faults (makes d) f = f
Wrote-faults (fills i t d h) f = f
Wrote-faults (both w v) f = Wrote-faults v (Wrote-faults w f)

-- The file of another name is as it was.
pub Wrote-other :
    {p : Str} {d d' : Disk} (q : Str) (i : ℕ)
    → Wrote p d d'
    → OwnFiles d
    → str_eq p q ≡ false
    → lookup q d.names ≡ some i
    → (lookup q d'.names ≡ some i) × (d'.content i ≡ d.content i)
Wrote-other q i (rests d) o n h = (h, refl)
Wrote-other q i (spends d) o n h = (h, refl)
Wrote-other {p} q i (makes d) o n h = (
  lookup-insert p q d.next d.names ∙ if_false _ _ n ∙ h,
  update_other d.content d.next i [] (λ e. omega (arith, e, o.below q i h)),
)
Wrote-other {p} q i (fills j t d k) o n h = (
  h,
  update_other d.content j i t (λ e.
      let same : q ≡ p = k.only q (h ∙ ap some (sym e)) in ground (arith, n, str_eq_iff p q, same)),
)
Wrote-other q i (both w v) o n h =
    let a = Wrote-other q i w o n h in
    let b = Wrote-other q i v (Wrote-OwnFiles w o) n a.0 in (b.0, b.1 ∙ a.1)

-- The handle that `create` gives, if it succeeds.
abbrev pub Opens : Str → Option ℕ × Disk → Type 0
Opens p (none, d) = Unit
Opens p (some i, d) = Handle p i d

pub create-Wrote :
    (p : Str) (d : Disk) → OwnFiles d → Wrote p d (create p d).1 × Opens p (create p d)
unfolding create
create-Wrote p d o = go (fault_of d.faults) (lookup p d.names) refl
  where
    go :
        (f : Option ℕ) (l : Option ℕ)
        → lookup p d.names ≡ l
        → Wrote p d (create_unless f p (spend d)).1 × Opens p (create_unless f p (spend d))
    go (some n) l e = (spends d, tt)
    go none (some i) e =
        let h : Handle p i (spend d) = record {
          made = o.below p i e;
          only = λ q l. o.apart q p i l e;
        } in
        rw (e, create_unless)
          (both (spends d) (fills i [] (spend d) h), record { made = h.made; only = h.only })
    go none none e =
        rw (e, create_unless)
          (
            both (spends d) (makes (spend d)),
            record {
              made = omega arith;
              only = λ q l. elim (insert_cases p q d.next d.next d.names l) [
                | inl new ↦ sym new.0
                | inr old ↦ absurd (omega (arith, o.below q d.next old))
              ];
            },
          )

pub write-Wrote : (p : Str) (i : ℕ) (t : Str) (d : Disk) → Handle p i d → Wrote p d (write i t d).1
unfolding write
write-Wrote p i t d h = go (fault_of d.faults)
  where
    k : Handle p i (spend d)
    k = record { made = h.made; only = h.only }

    go : (f : Option ℕ) → Wrote p d (write_unless f i t (spend d)).1
    go none = both (spends d) (fills i (d.content i ++ t) (spend d) k)
    go (some n) = both (spends d) (fills i (d.content i ++ take n t) (spend d) k)

-- What the handles and the names keep over a step of the disk.
pub record Evolves (d d' : Disk) : Type 0 where
  pub files : OwnFiles d → OwnFiles d'
  pub handles : (p : Str) (i : ℕ) → Handle p i d → Handle p i d'

pub Wrote-Evolves : {p : Str} {d d' : Disk} → Wrote p d d' → Evolves d d'
Wrote-Evolves w = record { files = Wrote-OwnFiles w; handles = λ q i. Wrote-Handle w }

pub Evolves-refl : (d : Disk) → Evolves d d
Evolves-refl d = record { files = λ o. o; handles = λ p i h. h }

pub Evolves-trans : {d d' d'' : Disk} → Evolves d d' → Evolves d' d'' → Evolves d d''
Evolves-trans e f = record {
  files = λ o. f.files (e.files o);
  handles = λ p i h. f.handles p i (e.handles p i h);
}

-- No name leads elsewhere.
fewer-Evolves :
    (d d' : Disk)
    → d'.next ≡ d.next
    → ((q : Str) (i : ℕ) → lookup q d'.names ≡ some i → lookup q d.names ≡ some i)
    → Evolves d d'
fewer-Evolves d d' n sub = record {
  files = λ o. record {
    apart = λ p q i h k. o.apart p q i (sub p i h) (sub q i k);
    below = λ p i h. omega (arith, n, o.below p i (sub p i h));
  };
  handles = λ p i h. record { made = omega (arith, n, h.made); only = λ q l. h.only q (sub q i l) };
}

pub spend-Evolves : (d : Disk) → Evolves d (spend d)
spend-Evolves d = fewer-Evolves d (spend d) refl (λ q i h. h)

pub remove-Evolves : (p : Str) (d : Disk) → Evolves d (remove p d).1
unfolding remove
remove-Evolves p d = fewer-Evolves d (remove p d).1 same sub
  where
    same : (remove p d).1.next ≡ d.next
    same = ground arith

    sub : (q : Str) (i : ℕ) → lookup q (remove p d).1.names ≡ some i → lookup q d.names ≡ some i
    sub q i h = ground (arith, h, lookup-delete p q d.names)
