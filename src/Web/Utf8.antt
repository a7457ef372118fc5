-- ===== src/Web/Utf8.antt =====
-- utf8.Valid, as a machine: the ranges that the next bytes of a rune must be in.
use http_debug.Base.{
  ℕ, ◌&&◌, leb, Bool, true, false, Option, none, some, List, [], ◌∷◌, Str, if◌then◌else◌,
}

abbrev in_range : ℕ → ℕ × ℕ → Bool
in_range c (low, high) = leb low c && leb c high

abbrev tail : ℕ × ℕ
tail = (128, 191)

-- What must follow the first byte of a rune, if there is such a rune.
abbrev pub followers : ℕ → Option (List (ℕ × ℕ))
followers c =
    if leb c 127
    then some []
    else if in_range c (194, 223)
    then some (tail ∷ [])
    else if leb c 224 && leb 224 c
    then some ((160, 191) ∷ tail ∷ [])
    else if leb c 237 && leb 237 c
    then some ((128, 159) ∷ tail ∷ [])
    else if in_range c (225, 239)
    then some (tail ∷ tail ∷ [])
    else if leb c 240 && leb 240 c
    then some ((144, 191) ∷ tail ∷ tail ∷ [])
    else if in_range c (241, 243)
    then some (tail ∷ tail ∷ tail ∷ [])
    else if leb c 244 && leb 244 c
    then some ((128, 143) ∷ tail ∷ tail ∷ [])
    else none

abbrev pub valid_from : List (ℕ × ℕ) → Str → Bool
valid_from [] [] = true
valid_from (r ∷ rs) [] = false
valid_from [] (c ∷ s) = elim (followers c) [ none ↦ false | some rs ↦ valid_from rs s ]
valid_from (r ∷ rs) (c ∷ s) = in_range c r && valid_from rs s

unfoldable pub valid_utf8 : Str → Bool
valid_utf8 s = valid_from [] s
