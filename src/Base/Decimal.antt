-- ===== src/Base/Decimal.antt =====
-- Go's `strconv`, as the program uses it: decimal integers and Booleans.
use http_debug.Base.{
  ℕ, zero, suc, ◌+◌, ◌-◌, ◌*◌, ◌/◌, ◌%◌, ◌^◌, ◌<◌, ◌≤◌, ◌≡◌, refl, sym, ap, ◌∙◌, Bool, true, false,
  ◌&&◌, ltb, leb, ◌==◌, Option, none, some, [], ◌∷◌, Str, codes, str_eq, is_member, length,
  if◌then◌else◌, if_true, if_false, if_cases, if_either, arith, Bool-cases, inl, inr, lt→ltb,
  ltb→lt, leb→le, subst,
}
use http_debug.Base.Int.{ℤ, pos, negsuc}

abbrev pub is_digit : ℕ → Bool
is_digit c = leb b'0' c && leb c b'9'

-- The digits of a number, after a part that is worth `n`.
unfoldable pub digits_value : ℕ → Str → Option ℕ
digits_value n [] = some n
digits_value n (c ∷ s) =
    let rest = digits_value (n * 10 + (c - b'0')) s in if is_digit c then rest else none

-- A number with at least one digit.
abbrev pub parse_nat : Str → Option ℕ
parse_nat [] = none
parse_nat (c ∷ s) = digits_value 0 (c ∷ s)

abbrev pub negated : ℕ → ℤ
negated zero = pos 0
negated (suc n) = negsuc n

abbrev positive : Option ℕ → Option ℤ
positive none = none
positive (some n) = if ltb n (2 ^ 63) then some (pos n) else none

abbrev negative : Option ℕ → Option ℤ
negative none = none
negative (some n) = if leb n (2 ^ 63) then some (negated n) else none

-- strconv.ParseInt(s, 10, 64), and strconv.Atoi
unfoldable pub parse_int : Str → Option ℤ
unfolding digits_value
parse_int [] = none
parse_int (c ∷ s) =
    if c == b'-'
    then negative (parse_nat s)
    else if c == b'+'
    then positive (parse_nat s)
    else positive (parse_nat (c ∷ s))

-- strconv.ParseBool
unfoldable pub parse_bool : Str → Option Bool
unfolding str_eq
parse_bool s =
    if is_member s
      (codes "1" ∷ codes "t" ∷ codes "T" ∷ codes "TRUE" ∷ codes "true" ∷ codes "True" ∷ [])
    then some true
    else if is_member s
        (codes "0" ∷ codes "f" ∷ codes "F" ∷ codes "FALSE" ∷ codes "false" ∷ codes "False" ∷ [])
    then some false
    else none

-- The digits of `n`, before `acc`: a number below the fuel has fewer digits than it.
abbrev digits : ℕ → ℕ → Str → Str
digits zero n acc = acc
digits (suc fuel) n acc =
    if ltb n 10 then (b'0' + n) ∷ acc else digits fuel (n / 10) ((b'0' + n % 10) ∷ acc)

-- strconv.FormatInt(n, 10), of a number that is not negative
unfoldable pub format_nat : ℕ → Str
format_nat n = digits (suc n) n []

digits_value-digit :
    (m d : ℕ) (acc : Str)
    → d < 10
    → digits_value m ((b'0' + d) ∷ acc) ≡ digits_value (m * 10 + d) acc
unfolding digits_value
digits_value-digit m d acc h =
    let digit : is_digit (b'0' + d) ≡ true = ground arith in
    let value : m * 10 + (b'0' + d - b'0') ≡ m * 10 + d = omega arith in
    if_true _ _ digit ∙ ap (λ v. digits_value v acc) value

digits_value-digits :
    (fuel n : ℕ) (acc : Str) → n < fuel → digits_value 0 (digits fuel n acc) ≡ digits_value n acc
digits_value-digits zero n acc h = absurd (omega arith)
digits_value-digits (suc fuel) n acc h =
    if_cases (λ s. digits_value 0 s ≡ digits_value n acc) (ltb n 10)
      (λ small.
        digits_value-digit 0 n acc (ground arith) ∙ ap (λ v. digits_value v acc) (omega arith))
      (λ large.
        let whole : n / 10 * 10 + n % 10 ≡ n = omega arith in
        let below : n / 10 < fuel = ground arith in
        digits_value-digits fuel (n / 10) ((b'0' + n % 10) ∷ acc) below
        ∙ digits_value-digit (n / 10) (n % 10) acc (omega arith)
        ∙ ap (λ v. digits_value v acc) whole)

-- What begins with a digit has no sign.
parse_int-digits :
    (c : ℕ) (s : Str) (n : ℕ)
    → digits_value 0 (c ∷ s) ≡ some n
    → parse_int (c ∷ s) ≡ positive (some n)
unfolding parse_int digits_value
parse_int-digits c s n h = elim (Bool-cases (is_digit c)) [
  | inl d ↦
      let no_minus : (c == b'-') ≡ false = ground arith in
      let no_plus : (c == b'+') ≡ false = ground arith in
      if_false _ _ no_minus ∙ if_false _ _ no_plus ∙ ap positive h
  | inr d ↦ absurd (ground (arith, sym (if_false _ _ d) ∙ h))
]

from_digits :
    (s : Str) (n : ℕ) → digits_value 0 s ≡ some n → 0 < n → parse_int s ≡ positive (some n)
unfolding digits_value
from_digits [] n h k = absurd (ground (arith, h))
from_digits (c ∷ s) n h k = parse_int-digits c s n h

-- A number that fits in 63 bits reads back from its decimal digits.
pub parse_int-format_nat : (n : ℕ) → n < 2 ^ 63 → parse_int (format_nat n) ≡ some (pos n)
unfolding parse_int digits_value format_nat
parse_int-format_nat zero h = refl
parse_int-format_nat (suc n) h =
    from_digits (digits (suc (suc n)) (suc n) []) (suc n)
      (digits_value-digits (suc (suc n)) (suc n) [] (omega arith)) (omega arith)
    ∙ if_true _ _ (lt→ltb (suc n) (2 ^ 63) h)

-- The integers of 64 bits.
abbrev pub IsInt64 : ℤ → Type 0
IsInt64 (pos n) = n < 2 ^ 63
IsInt64 (negsuc n) = n < 2 ^ 63

abbrev Fits : Option ℤ → Type 0
Fits none = Unit
Fits (some v) = IsInt64 v

positive-Fits : (o : Option ℕ) → Fits (positive o)
positive-Fits none = tt
positive-Fits (some n) = if_cases Fits (ltb n (2 ^ 63)) (λ e. ltb→lt n (2 ^ 63) e) (λ e. tt)

negated-IsInt64 : (n : ℕ) → n ≤ 2 ^ 63 → IsInt64 (negated n)
negated-IsInt64 zero h = omega arith
negated-IsInt64 (suc n) h = omega arith

negative-Fits : (o : Option ℕ) → Fits (negative o)
negative-Fits none = tt
negative-Fits (some n) =
    if_cases Fits (leb n (2 ^ 63)) (λ e. negated-IsInt64 n (leb→le n (2 ^ 63) e)) (λ e. tt)

parse_int-Fits : (s : Str) → Fits (parse_int s)
unfolding parse_int
parse_int-Fits [] = tt
parse_int-Fits (c ∷ s) =
    if_either Fits (c == b'-') (negative-Fits (parse_nat s))
      (if_either Fits (c == b'+') (positive-Fits (parse_nat s)) (positive-Fits (parse_nat (c ∷ s))))

-- What is read fits in 64 bits.
pub parse_int-IsInt64 : (s : Str) (v : ℤ) → parse_int s ≡ some v → IsInt64 v
parse_int-IsInt64 s v h = subst Fits h (parse_int-Fits s)

pub format_nat-not_empty : (n : ℕ) → n < 2 ^ 63 → (length (format_nat n) == 0) ≡ false
unfolding parse_int
format_nat-not_empty n h = go (format_nat n) (parse_int-format_nat n h)
  where
    go : (s : Str) → parse_int s ≡ some (pos n) → (length s == 0) ≡ false
    go [] e = absurd (ground (arith, e))
    go (c ∷ s) e = ground arith
