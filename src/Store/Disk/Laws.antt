-- ===== src/Store/Disk/Laws.antt =====
-- The outcomes of the file operations, as rules: what holds in each of them holds of the call.
use http_debug.Base.{
  ℕ, ◌≡◌, refl, ◌∙◌, Bool, true, false, Option, none, some, [], ◌++◌, Str, str_eq_refl, arith,
  ==_iff, update, if_true,
}
use http_debug.Base.Map.{lookup, lookup-insert}
use http_debug.Store.Disk.{Disk, create, write, fault_of, spend, create_unless, write_unless}

pub update_self {ℓ} : {A : Type ℓ} (f : ℕ → A) (i : ℕ) (v : A) → update f i v i ≡ v
update_self f i v = ground (arith, ==_iff i i)

pub create_cases :
    (P : Option ℕ × Disk → Type 0) (path : Str) (d : Disk)
    → ((d' : Disk) → P (none, d'))
    → ((i : ℕ) (d' : Disk) → lookup path d'.names ≡ some i → d'.content i ≡ [] → P (some i, d'))
    → P (create path d)
unfolding create
create_cases P path d failed made = go (fault_of d.faults) (lookup path d.names) refl
  where
    go :
        (f : Option ℕ) (o : Option ℕ) → lookup path d.names ≡ o → P (create_unless f path (spend d))
    go (some n) o e = failed (spend d)
    go none (some i) e = rw (e, create_unless) (made i _ e (update_self d.content i []))
    go none none e =
        rw (e, create_unless)
          (made d.next _ (lookup-insert path path d.next d.names ∙ if_true _ _ (str_eq_refl path))
            (update_self d.content d.next []))

pub write_cases :
    (P : Bool × Disk → Type 0) (i : ℕ) (p : Str) (d : Disk)
    → ((d' : Disk) → d'.names ≡ d.names → d'.content i ≡ d.content i ++ p → P (true, d'))
    → ((d' : Disk) → d'.names ≡ d.names → P (false, d'))
    → P (write i p d)
unfolding write
write_cases P i p d done failed = go (fault_of d.faults)
  where
    go : (f : Option ℕ) → P (write_unless f i p (spend d))
    go none = done _ refl (update_self d.content i (d.content i ++ p))
    go (some n) = failed _ refl
