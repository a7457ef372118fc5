-- ===== src/Store/Ids.antt =====
-- internal/store/store.go: the ids of entries. The random bytes are an argument, none if the generator
-- fails.
use mathlib.Core.Option
use http_debug.Base.{
  ℕ, ◌+◌, ◌-◌, ◌*◌, ◌/◌, ◌%◌, ◌<◌, ◌≡◌, refl, ap, subst, ◌∙◌, false, ◌==◌, ltb, Option, none, some,
  List, [], ◌∷◌, Str, has, length, if◌then◌else◌, arith,
}

-- The digit of a number below 16.
abbrev pub hex_digit : ℕ → ℕ
hex_digit n = if ltb n 10 then b'0' + n else b'a' + (n - 10)

-- hex.EncodeToString
unfoldable pub hex : List ℕ → Str
hex [] = []
hex (b ∷ bs) = hex_digit (b / 16) ∷ hex_digit (b % 16) ∷ hex bs

-- newID, of eight random bytes
unfoldable pub new_id : Option (List ℕ) → Option Str
unfolding hex
new_id bytes = Option.map hex bytes

-- Bytes, as numbers.
abbrev pub AllBytes : List ℕ → Type 0
AllBytes [] = Unit
AllBytes (b ∷ bs) = (b < 256) × AllBytes bs

-- The number of a digit.
abbrev digit_value : ℕ → ℕ
digit_value c = if ltb c b'a' then c - b'0' else c - b'a' + 10

digit_value-hex_digit : (n : ℕ) → n < 16 → digit_value (hex_digit n) ≡ n
digit_value-hex_digit n h = ground arith

-- The bytes that a text of digits stands for.
abbrev pub unhex : Str → List ℕ
unhex [] = []
unhex (c ∷ []) = []
unhex (c ∷ d ∷ s) = (digit_value c * 16 + digit_value d) ∷ unhex s

hex_digit-ne-dash : (n : ℕ) → (b'-' == hex_digit n) ≡ false
hex_digit-ne-dash n = ground arith

length-hex : (bs : List ℕ) → length (hex bs) ≡ 2 * length bs
unfolding hex
length-hex [] = refl
length-hex (b ∷ bs) = omega (arith, length-hex bs)

unhex-hex : (bs : List ℕ) → AllBytes bs → unhex (hex bs) ≡ bs
unfolding hex
unhex-hex [] h = refl
unhex-hex (b ∷ bs) h =
    let value : digit_value (hex_digit (b / 16)) * 16 + digit_value (hex_digit (b % 16)) ≡ b =
      omega (
        arith,
        digit_value-hex_digit (b / 16) (omega arith),
        digit_value-hex_digit (b % 16) (omega arith),
      ) in
    ap (λ v. v ∷ unhex (hex bs)) value ∙ ap (λ l. b ∷ l) (unhex-hex bs h.1)

has-hex : (bs : List ℕ) → has b'-' (hex bs) ≡ false
unfolding hex
has-hex [] = refl
has-hex (b ∷ bs) =
    ground (arith, hex_digit-ne-dash (b / 16), hex_digit-ne-dash (b % 16), has-hex bs)

abbrev or_empty : Option Str → Str
or_empty none = []
or_empty (some s) = s

-- An id has two characters for each byte, none of them a dash, and tells which bytes it was made from:
-- the bytes can be read back from it.
pub new_id_lem :
    (bs : List ℕ) (id : Str)
    → AllBytes bs
    → new_id (some bs) ≡ some id
    → (length id ≡ 2 * length bs) × (has b'-' id ≡ false) × (unhex id ≡ bs)
unfolding new_id
new_id_lem bs id h e =
    subst (λ i. (length i ≡ 2 * length bs) × (has b'-' i ≡ false) × (unhex i ≡ bs)) (ap or_empty e)
      (length-hex bs, has-hex bs, unhex-hex bs h)
