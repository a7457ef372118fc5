-- ===== src/Proxy/Forwarded.antt =====
-- internal/proxy: what of a request is sent on, and what of a response's header is changed.
use http_debug.Base.{
  ◌≡◌, refl, ap, ◌∙◌, Bool, true, false, not, ◌==◌, some, [], ◌∷◌, ◌++◌, Str, length, codes, str_eq,
  if_false, append-nil, if_either, arith, if◌then◌else◌,
}
use http_debug.Base.Map.{lookup, lookup-insert}
use http_debug.Store.Entry.{Header}
use http_debug.Proxy.Header.{canonical_key, header_set, lookup-header_set, lookup-header_add}
use http_debug.Proxy.Url.{join_path, is_root, trim_slash_end, trim_slash_start, detail_url}
use http_debug.Proxy.Exchange.{ProxyConfig, Libraries, correlated, debug_url_header}

-- A path that neither begins nor ends with a slash.
abbrev pub begins_clean : Str → Bool
begins_clean [] = false
begins_clean (c ∷ s) = not (c == b'/')

abbrev pub ends_clean : Str → Bool
ends_clean [] = false
ends_clean (c ∷ s) = if length s == 0 then not (c == b'/') else ends_clean s

abbrev pub slash : Bool → Str
slash b = if b then b'/' ∷ [] else []

ends_clean-trim : (b : Str) → ends_clean b ≡ true → trim_slash_end b ≡ b
unfolding trim_slash_end
ends_clean-trim [] h = cc
ends_clean-trim (c ∷ []) h = ground arith
ends_clean-trim (c ∷ d ∷ s) h = ground (arith, ends_clean-trim (d ∷ s))

ends_clean-trim_slash : (b : Str) → ends_clean b ≡ true → trim_slash_end (b ++ b'/' ∷ []) ≡ b
unfolding trim_slash_end
ends_clean-trim_slash [] h = cc
ends_clean-trim_slash (c ∷ []) h = ground arith
ends_clean-trim_slash (c ∷ d ∷ s) h = ground (arith, ends_clean-trim_slash (d ∷ s))

trim_slash_end-slash :
    (b : Str) (after : Bool) → ends_clean b ≡ true → trim_slash_end (b ++ slash after) ≡ b
trim_slash_end-slash b true h = ends_clean-trim_slash b h
trim_slash_end-slash b false h = ap trim_slash_end (append-nil b) ∙ ends_clean-trim b h

trim_slash_start-slash :
    (p : Str) (before : Bool) → begins_clean p ≡ true → trim_slash_start (slash before ++ p) ≡ p
trim_slash_start-slash p true h = refl
trim_slash_start-slash [] false h = refl
trim_slash_start-slash (c ∷ s) false h = ground arith

is_root-base : (b : Str) (after : Bool) → ends_clean b ≡ true → is_root (b ++ slash after) ≡ false
is_root-base [] after h = cc
is_root-base (c ∷ []) true h = ground arith
is_root-base (c ∷ []) false h = ground arith
is_root-base (c ∷ d ∷ s) after h = ground arith

is_root-path :
    (p : Str) (before : Bool) → begins_clean p ≡ true → is_root (slash before ++ p) ≡ false
is_root-path [] before h = cc
is_root-path (c ∷ s) true h = ground arith
is_root-path (c ∷ s) false h = ground arith

-- A base that ends in something other than a slash and a path that begins with something other than
-- a slash are joined by one slash, whether or not the one brings a slash at its end and the other one
-- at its start.
pub join_path-one_slash :
    (b p : Str) (after before : Bool)
    → ends_clean b ≡ true
    → begins_clean p ≡ true
    → join_path (b ++ slash after) (slash before ++ p) ≡ b ++ b'/' ∷ p
unfolding join_path
join_path-one_slash b p after before h k =
    if_false _ _ (is_root-base b after h)
    ∙ if_false _ _ (is_root-path p before k)
    ∙ ap (λ x. x ++ b'/' ∷ trim_slash_start (slash before ++ p)) (trim_slash_end-slash b after h)
    ∙ ap (λ x. b ++ b'/' ∷ x) (trim_slash_start-slash p before k)

correlation :
    (lib : Libraries) (cfg : ProxyConfig) (id k : Str) (h : Header)
    → str_eq (canonical_key (codes "Set-Cookie")) k ≡ false
    → lookup k (correlated lib cfg id h)
      ≡ lookup k (header_set debug_url_header (detail_url cfg.public_url id) h)
unfolding correlated
correlation lib cfg id k h c =
    if_either
      (λ (x : Header).
        lookup k x ≡ lookup k (header_set debug_url_header (detail_url cfg.public_url id) h))
      cfg.set_debug_cookie (lookup-header_add (codes "Set-Cookie") _ k _ c) refl

-- The client gets the address of the exchange in the interface under the header's name, as its only
-- value, and the values that the backend gave under every name but that one and the cookies'.
pub lookup-correlated :
    (lib : Libraries) (cfg : ProxyConfig) (id k : Str) (h : Header)
    → str_eq (codes "X-Debug-Url") k ≡ false
    → str_eq (codes "Set-Cookie") k ≡ false
    → (lookup (codes "X-Debug-Url") (correlated lib cfg id h)
        ≡ some (detail_url cfg.public_url id ∷ []))
      × (lookup k (correlated lib cfg id h) ≡ lookup k h)
unfolding canonical_key str_eq header_set
lookup-correlated lib cfg id k h d c = (
  correlation lib cfg id debug_url_header h refl
      ∙ lookup-insert debug_url_header debug_url_header (detail_url cfg.public_url id ∷ []) h,
  correlation lib cfg id k h c
      ∙ lookup-header_set debug_url_header (detail_url cfg.public_url id) k h d,
)
