-- ===== src/Proxy/Sent.antt =====
-- internal/proxy/replay.go: what a composed request is refused for, and what is sent of its headers.
use http_debug.Base.{
  ◌≡◌, ◌≢◌, ◌⊎◌, ◌↔◌, inl, inr, refl, sym, ap, ◌∙◌, subst, Bool, true, false, not, ◌&&◌, ◌||◌, ◌==◌,
  Option, none, some, List, [], ◌∷◌, ◌++◌, Str, length, codes, str_eq, str_eq_iff, if_false,
  if_true, if_either, append-nil, append_assoc, arith, if◌then◌else◌, Bool-cases,
}
use http_debug.Base.Map.{lookup, lookup-insert}
use http_debug.Store.Entry.{Header}
use http_debug.Proxy.Format.{trim_space}
use http_debug.Proxy.Header.{canonical_key, header_add, values_of, to_lower-canonical_key}
use http_debug.Proxy.Url.{Url, UrlText}
use http_debug.Proxy.Replay.{
  Target, accepted, rejected, checked, parsed, replay_target, kept_headers, is_stripped, add_all,
}

-- The values that a name is to be sent with.
abbrev pub sent_values : Str → Header → List Str
sent_values k [] = []
sent_values k ((name, vs) ∷ rest) =
    let more = sent_values k rest in
    if not (is_stripped name) && str_eq (canonical_key name) k then vs ++ more else more

pub header_add-values :
    (name v k : Str) (h : Header)
    → values_of (lookup k (header_add name v h))
      ≡ values_of (lookup k h) ++ (if str_eq (canonical_key name) k then v ∷ [] else [])
unfolding header_add
header_add-values name v k h = elim (Bool-cases (str_eq (canonical_key name) k)) [
  | inl e ↦
      let same = (str_eq_iff (canonical_key name) k).0 e in
      rw
        (
          lookup-insert (canonical_key name) k (values_of (lookup (canonical_key name) h) ++ v ∷ [])
              h,
          e,
          same,
        )
        refl
  | inr e ↦
      rw
        (
          lookup-insert (canonical_key name) k (values_of (lookup (canonical_key name) h) ++ v ∷ [])
              h,
          e,
        )
        (sym (append-nil (values_of (lookup k h))))
]

spread :
    (b : Bool) (xs ys zs : List Str)
    → (xs ++ (if b then ys else [])) ++ (if b then zs else []) ≡ xs ++ (if b then ys ++ zs else [])
spread true xs ys zs = append_assoc xs ys zs
spread false xs ys zs = append-nil (xs ++ [])

add_all-values :
    (name k : Str) (vs : List Str) (h : Header)
    → values_of (lookup k (add_all name vs h))
      ≡ values_of (lookup k h) ++ (if str_eq (canonical_key name) k then vs else [])
add_all-values name k [] h =
    sym (append-nil (values_of (lookup k h)))
    ∙ ap (λ x. values_of (lookup k h) ++ x)
        (sym (if_either (λ x. x ≡ []) (str_eq (canonical_key name) k) refl refl))
add_all-values name k (v ∷ vs) h =
    let b = str_eq (canonical_key name) k in
    add_all-values name k vs (header_add name v h)
    ∙ ap (λ x. x ++ (if b then vs else [])) (header_add-values name v k h)
    ∙ spread b (values_of (lookup k h)) (v ∷ []) vs

added :
    (b : Bool) (xs vs more : List Str)
    → (xs ++ (if b then vs else [])) ++ more ≡ xs ++ (if b then vs ++ more else more)
added true xs vs more = append_assoc xs vs more
added false xs vs more = ap (λ x. x ++ more) (append-nil xs)

-- Under each name, a composed request is sent with the values of every header of that canonical name
-- that is not stripped, in the order in which they are visited, after those that were there.
pub kept_headers-values :
    (k : Str) (hs h : Header)
    → values_of (lookup k (kept_headers hs h)) ≡ values_of (lookup k h) ++ sent_values k hs
unfolding kept_headers
kept_headers-values k [] h = sym (append-nil (values_of (lookup k h)))
kept_headers-values k ((name, vs) ∷ rest) h = elim (Bool-cases (is_stripped name)) [
  | inl e ↦ rw e (kept_headers-values k rest h)
  | inr e ↦ rw e (
      kept_headers-values k rest (add_all name vs h)
      ∙ ap (λ x. x ++ sent_values k rest) (add_all-values name k vs h)
      ∙ added (str_eq (canonical_key name) k) (values_of (lookup k h)) vs (sent_values k rest))
]

is_stripped-canonical_key : (name : Str) → is_stripped (canonical_key name) ≡ is_stripped name
unfolding is_stripped
is_stripped-canonical_key name = rw (to_lower-canonical_key name) refl

sent_values-IsStripped : (k : Str) (hs : Header) → is_stripped k ≡ true → sent_values k hs ≡ []
sent_values-IsStripped k [] e = refl
sent_values-IsStripped k ((name, vs) ∷ rest) e =
    ground (arith, same, sent_values-IsStripped k rest e)
  where
    same : str_eq (canonical_key name) k ≡ true → is_stripped name ≡ true
    same h =
        sym (is_stripped-canonical_key name)
        ∙ ap is_stripped ((str_eq_iff (canonical_key name) k).0 h)
        ∙ e

-- No header whose name is one of the stripped ones, in any case, is sent.
pub kept_headers-IsStripped :
    (k : Str) (hs : Header) → is_stripped k ≡ true → values_of (lookup k (kept_headers hs [])) ≡ []
unfolding lookup
kept_headers-IsStripped k hs e = kept_headers-values k hs [] ∙ sent_values-IsStripped k hs e

-- What an address must be to be accepted.
abbrev pub IsRelayable : UrlText → Str → Url → Type 0
IsRelayable urls text u =
    (urls.parse (trim_space text) ≡ some u)
    × (u.host ≢ [])
    × ((u.scheme ≡ codes "http") ⊎ (u.scheme ≡ codes "https"))

accepted_url : Url → Target → Url
accepted_url v (accepted u) = u
accepted_url v (rejected e) = v

abbrev is_missing : Url → Bool
is_missing v = (length v.scheme == 0) || (length v.host == 0)

abbrev is_foreign : Url → Bool
is_foreign v = not (str_eq v.scheme (codes "http")) && not (str_eq v.scheme (codes "https"))

length-zero : (s : Str) → (s ≡ []) ↔ ((length s == 0) ≡ true)
length-zero [] = (λ _. refl, λ _. refl)
length-zero (c ∷ s) = ground arith

checked-accepted :
    (v u : Url) → checked v ≡ accepted u → (v ≡ u) × (is_missing v ≡ false) × (is_foreign v ≡ false)
unfolding accepted_url
checked-accepted v u e = elim (Bool-cases (is_missing v)) [
  | inl m ↦ absurd (ground (arith, sym (if_true _ _ m) ∙ e))
  | inr m ↦ elim (Bool-cases (is_foreign v)) [
    | inl f ↦ absurd (ground (arith, sym (if_false _ _ m ∙ if_true _ _ f) ∙ e))
    | inr f ↦ (ap (accepted_url v) (sym (if_false _ _ m ∙ if_false _ _ f) ∙ e), m, f)
  ]
]

host_iff :
    (u : Url)
    → ((is_missing u ≡ false) × (is_foreign u ≡ false))
      ↔ ((u.host ≢ []) × ((u.scheme ≡ codes "http") ⊎ (u.scheme ≡ codes "https")))
host_iff u = ground (
  arith,
  length-zero u.scheme,
  length-zero u.host,
  str_eq_iff u.scheme (codes "http"),
  str_eq_iff u.scheme (codes "https"),
)

-- An address is accepted, as a URL, exactly when it reads as that URL once the white space around it
-- is gone, and that one has a host and the scheme of HTTP or HTTPS.
pub replay_target-accepted :
    (urls : UrlText) (text : Str) (u : Url)
    → (replay_target urls text ≡ accepted u) ↔ IsRelayable urls text u
unfolding replay_target
replay_target-accepted urls text u = (
  λ h. from_parsed (urls.parse (trim_space text)) h,
  λ (h : IsRelayable urls text u).
      let ok = (host_iff u).1 (h.1, h.2) in ap parsed h.0 ∙ if_false _ _ ok.0 ∙ if_false _ _ ok.1,
)
  where
    from_parsed :
        (o : Option Url)
        → parsed o ≡ accepted u
        → (o ≡ some u) × (u.host ≢ []) × ((u.scheme ≡ codes "http") ⊎ (u.scheme ≡ codes "https"))
    from_parsed none e = cc
    from_parsed (some v) e =
        let c = checked-accepted v u e in
        let ok =
          (host_iff u).0
            (subst (λ x. (is_missing x ≡ false) × (is_foreign x ≡ false)) c.0 (c.1, c.2)) in
        (ap some c.0, ok.0, ok.1)
