-- ===== src/Proxy/Header.antt =====
-- http.Header, as the program uses it: a map from canonical names to the values of each.
use http_debug.Base.{
  ℕ, ◌-◌, ◌≡◌, refl, Bool, true, false, ◌&&◌, ◌||◌, ◌==◌, leb, Option, none, some, List, [], ◌∷◌,
  ◌++◌, Str, codes, str_eq, has, all, if◌then◌else◌, if_false, if_either, map, arith, ◌∙◌,
}
use http_debug.Base.Map.{lookup, insert, lookup-insert}
use http_debug.Store.Entry.{Header}
use http_debug.Proxy.Format.{lower, to_lower}

abbrev is_letter : ℕ → Bool
is_letter c = (leb b'a' c && leb c b'z') || (leb b'A' c && leb c b'Z')

-- The bytes of a token.
abbrev pub is_token_byte : ℕ → Bool
is_token_byte c = is_letter c || (leb b'0' c && leb c b'9') || has c (codes "!#$%&'*+-.^_`|~")

abbrev upper : ℕ → ℕ
upper c = if leb b'a' c && leb c b'z' then c - 32 else c

-- The case of each letter, by whether it begins a word.
abbrev words : Bool → Str → Str
words start [] = []
words start (c ∷ s) = (if start then upper c else lower c) ∷ words (c == b'-') s

-- textproto.CanonicalMIMEHeaderKey
unfoldable pub canonical_key : Str → Str
canonical_key name = if all is_token_byte name then words true name else name

abbrev first_value : Option (List Str) → Str
first_value (some (v ∷ vs)) = v
first_value _ = []

abbrev pub values_of : Option (List Str) → List Str
values_of none = []
values_of (some vs) = vs

-- h.Get(name)
unfoldable pub header_get : Str → Header → Str
unfolding canonical_key lookup
header_get name h = first_value (lookup (canonical_key name) h)

-- h.Set(name, value)
unfoldable pub header_set : Str → Str → Header → Header
unfolding canonical_key insert
header_set name value h = insert (canonical_key name) (value ∷ []) h

-- h.Add(name, value)
unfoldable pub header_add : Str → Str → Header → Header
unfolding canonical_key insert lookup
header_add name value h =
    let key = canonical_key name in insert key (values_of (lookup key h) ++ value ∷ []) h

-- Setting and adding leave every other name alone.
pub lookup-header_set :
    (name value k : Str) (h : Header)
    → str_eq (canonical_key name) k ≡ false
    → lookup k (header_set name value h) ≡ lookup k h
unfolding header_set
lookup-header_set name value k h e =
    lookup-insert (canonical_key name) k (value ∷ []) h ∙ if_false _ _ e

pub lookup-header_add :
    (name value k : Str) (h : Header)
    → str_eq (canonical_key name) k ≡ false
    → lookup k (header_add name value h) ≡ lookup k h
unfolding header_add
lookup-header_add name value k h e = lookup-insert (canonical_key name) k _ h ∙ if_false _ _ e

-- Lower case forgets the canonical form.
lower-words : (start : Bool) (s : Str) → map lower (words start s) ≡ map lower s
lower-words start [] = refl
lower-words true (c ∷ s) = ground (arith, lower-words (c == b'-') s)
lower-words false (c ∷ s) = ground (arith, lower-words (c == b'-') s)

pub to_lower-canonical_key : (name : Str) → to_lower (canonical_key name) ≡ to_lower name
unfolding canonical_key to_lower
to_lower-canonical_key name =
    if_either (λ n. map lower n ≡ map lower name) (all is_token_byte name) (lower-words true name)
      refl
