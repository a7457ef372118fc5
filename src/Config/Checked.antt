-- ===== src/Config/Checked.antt =====
-- What a configuration that is loaded satisfies, and the time between two sweeps.
use http_debug.Base.{
  ◌∷◌, str_eq, ℕ, ◌*◌, ◌/◌, if◌then◌else◌, ◌≤◌, ◌^◌, ◌<◌, ◌==◌, ◌≡◌, ◌≢◌, inl, inr, refl, sym, ap,
  subst, true, false, ◌||◌, Option, none, some, [], Str, codes, length, if_cases, ltb, Bool-cases,
  if_either, arith,
}
use http_debug.Base.Int.{ℤ, pos, negsuc, ◌<ℤ◌}
use http_debug.Base.Decimal.{parse_int, IsInt64, parse_int-IsInt64}
use http_debug.Time.{Duration}
use http_debug.Proxy.Url.{Url, UrlText}
use http_debug.Config.{
  Loaded, loaded, rejects, ◌>>=◌, Config, Environment, second, is_positive, positive_integer,
  env_int64, positive_duration, env_duration, env_bool, target_url, checked_target, configured,
  load_config, sweep_interval,
}

-- The time between two sweeps for a timeout: 5 seconds below a timeout of 10 seconds, 60 seconds above
-- one of 120 seconds, and half of the timeout, rounded down, between them.
pub data Interval : Duration → Duration → Type 0 where
  shortest :
      (timeout : Duration) → timeout <ℤ pos (10 * second) → Interval timeout (pos (5 * second))
  halved : (n : ℕ) → 10 * second ≤ n → n ≤ 120 * second → Interval (pos n) (pos (n / 2))
  longest :
      (timeout : Duration) → pos (120 * second) <ℤ timeout → Interval timeout (pos (60 * second))

sweep_interval_below : (t : Duration) → t <ℤ pos (10 * second) → sweep_interval t ≡ pos (5 * second)
unfolding sweep_interval
sweep_interval_below (pos n) h = ground arith
sweep_interval_below (negsuc n) h = ground arith

sweep_interval_above : (n : ℕ) → 120 * second < n → sweep_interval (pos n) ≡ pos (60 * second)
unfolding sweep_interval
sweep_interval_above n h = ground arith

sweep_interval_between :
    (n : ℕ) → 10 * second ≤ n → n ≤ 120 * second → sweep_interval (pos n) ≡ pos (n / 2)
unfolding sweep_interval
sweep_interval_between n h k = ground arith

-- The sweeps are half of the timeout apart, rounded down, where the timeout is from 10 to 120 seconds.
-- They are 5 seconds apart for every smaller timeout, and 60 seconds for every greater one.
pub sweep_interval-Interval : (timeout : Duration) → Interval timeout (sweep_interval timeout)
sweep_interval-Interval (negsuc n) =
    let h : negsuc n <ℤ pos (10 * second) = omega arith in
    subst (Interval (negsuc n)) (sym (sweep_interval_below (negsuc n) h)) (shortest (negsuc n) h)
sweep_interval-Interval (pos n) = elim (Bool-cases (ltb n (10 * second))) [
  | inl low ↦
      let h : pos n <ℤ pos (10 * second) = ground (arith, low) in
      subst (Interval (pos n)) (sym (sweep_interval_below (pos n) h)) (shortest (pos n) h)
  | inr high ↦
      let h : 10 * second ≤ n = ground (arith, high) in
      elim (Bool-cases (ltb (120 * second) n)) [
        | inl over ↦
            let k : 120 * second < n = ground (arith, over) in
            subst (Interval (pos n)) (sym (sweep_interval_above n k))
              (longest (pos n) (omega arith))
        | inr within ↦
            let k : n ≤ 120 * second = ground (arith, within) in
            subst (Interval (pos n)) (sym (sweep_interval_between n h k)) (halved n h k)
      ]
]

-- The host of the guessed address, for a listen address with this host.
abbrev pub named_host : Str → Str
named_host [] = codes "localhost"
named_host (c ∷ s) = if str_eq (c ∷ s) (codes "0.0.0.0") then codes "localhost" else c ∷ s

-- What a loaded configuration satisfies.
pub record IsUsable (urls : UrlText) (c : Config) : Type 0 where
  pub url : Url
  pub reads : urls.parse c.target_url ≡ some url
  pub has_scheme : url.scheme ≢ []
  pub has_host : url.host ≢ []
  pub max_inline : (n : ℕ) × (c.max_inline_body_size ≡ pos n) × (0 < n) × (n < 2 ^ 63)
  pub max_entries : (n : ℕ) × (c.max_entries ≡ pos n) × (0 < n) × (n < 2 ^ 63)
  pub timeout : is_positive c.pending_timeout ≡ true

-- The value, if there is one, satisfies P.
abbrev Loads : {A : Type 0} → (A → Type 0) → Loaded A → Type 0
Loads P (loaded a) = P a
Loads P (rejects e) = Unit

-- Five steps, of which the last one is not constrained.
steps-Loads :
    {A B C D E F : Type 0} (P : A → Type 0) (P₁ : B → Type 0) (P₂ : C → Type 0) (P₃ : D → Type 0)
    (Q : F → Type 0) (f : B → C → D → E → F) (m : Loaded A) (m₁ : Loaded B) (m₂ : Loaded C)
    (m₃ : Loaded D) (m₄ : Loaded E)
    → Loads P m
    → Loads P₁ m₁
    → Loads P₂ m₂
    → Loads P₃ m₃
    → ((a : A) (b : B) (c : C) (d : D) (e : E) → P a → P₁ b → P₂ c → P₃ d → Q (f b c d e))
    → Loads Q (m >>= λ _. m₁ >>= λ b. m₂ >>= λ c. m₃ >>= λ d. m₄ >>= λ e. loaded (f b c d e))
steps-Loads P P₁ P₂ P₃ Q f (loaded a) (loaded b) (loaded c) (loaded d) (loaded e) h h₁ h₂ h₃ k =
    k a b c d e h h₁ h₂ h₃
steps-Loads P P₁ P₂ P₃ Q f (rejects x) m₁ m₂ m₃ m₄ h h₁ h₂ h₃ k = tt
steps-Loads P P₁ P₂ P₃ Q f (loaded a) (rejects x) m₂ m₃ m₄ h h₁ h₂ h₃ k = tt
steps-Loads P P₁ P₂ P₃ Q f (loaded a) (loaded b) (rejects x) m₃ m₄ h h₁ h₂ h₃ k = tt
steps-Loads P P₁ P₂ P₃ Q f (loaded a) (loaded b) (loaded c) (rejects x) m₄ h h₁ h₂ h₃ k = tt
steps-Loads P P₁ P₂ P₃ Q f (loaded a) (loaded b) (loaded c) (loaded d) (rejects x) h h₁ h₂ h₃ k = tt

abbrev IsPositive64 : ℤ → Type 0
IsPositive64 v = (n : ℕ) × (v ≡ pos n) × (0 < n) × (n < 2 ^ 63)

IsInt64-IsPositive64 : (v : ℤ) → IsInt64 v → is_positive v ≡ true → IsPositive64 v
IsInt64-IsPositive64 (pos n) h k = (n, refl, ground arith, h)
IsInt64-IsPositive64 (negsuc n) h k = absurd (ground arith)

positive_integer-Loads :
    (name raw : Str) (o : Option ℤ)
    → ((v : ℤ) → o ≡ some v → IsInt64 v)
    → Loads IsPositive64 (positive_integer name raw o)
positive_integer-Loads name raw none h = tt
positive_integer-Loads name raw (some v) h =
    if_cases (Loads IsPositive64) (is_positive v) (λ e. IsInt64-IsPositive64 v (h v refl) e)
      (λ e. tt)

env_int64-Loads :
    (env : Environment) (name : Str) (fallback : ℤ)
    → IsPositive64 fallback
    → Loads IsPositive64 (env_int64 env name fallback)
unfolding env_int64
env_int64-Loads env name fallback h =
    if_either (Loads IsPositive64) (length (env name) == 0) h
      (positive_integer-Loads name (env name) (parse_int (env name)) (parse_int-IsInt64 (env name)))

abbrev IsPositive : ℤ → Type 0
IsPositive v = is_positive v ≡ true

positive_duration-Loads :
    (name raw : Str) (o : Option Duration) → Loads IsPositive (positive_duration name raw o)
positive_duration-Loads name raw none = tt
positive_duration-Loads name raw (some d) =
    if_cases (Loads IsPositive) (is_positive d) (λ e. e) (λ e. tt)

env_duration-Loads :
    (parse : Str → Option Duration) (env : Environment) (name : Str) (fallback : Duration)
    → IsPositive fallback
    → Loads IsPositive (env_duration parse env name fallback)
unfolding env_duration
env_duration-Loads parse env name fallback h =
    if_either (Loads IsPositive) (length (env name) == 0) h
      (positive_duration-Loads name (env name) (parse (env name)))

abbrev IsAbsolute : UrlText → Str → Url → Type 0
IsAbsolute urls raw u = (urls.parse raw ≡ some u) × (u.scheme ≢ []) × (u.host ≢ [])

target_url-Loads : (urls : UrlText) (raw : Str) → Loads (IsAbsolute urls raw) (target_url urls raw)
unfolding target_url
target_url-Loads urls raw =
    if_either (Loads (IsAbsolute urls raw)) (length raw == 0) tt (go (urls.parse raw) refl)
  where
    go : (o : Option Url) → urls.parse raw ≡ o → Loads (IsAbsolute urls raw) (checked_target raw o)
    go none e = tt
    go (some u) e =
        if_cases (Loads (IsAbsolute urls raw)) ((length u.scheme == 0) || (length u.host == 0))
          (λ _. tt) (λ h. (e, λ s. ground (arith, ap length s), λ s. ground (arith, ap length s)))

-- A configuration that is loaded has a target that reads as a URL with a scheme and a host, positive
-- limits that fit in 64 bits, and a positive timeout, whatever the environment holds.
pub load_config-IsUsable :
    (urls : UrlText) (durations : Str → Option Duration) (env : Environment) (c : Config)
    → load_config urls durations env ≡ loaded c
    → IsUsable urls c
unfolding load_config
load_config-IsUsable urls durations env c e = subst (Loads (IsUsable urls)) e (
    steps-Loads (IsAbsolute urls (env (codes "TARGET_URL"))) IsPositive64 IsPositive64 IsPositive
      (IsUsable urls) (configured env) (target_url urls (env (codes "TARGET_URL")))
      (env_int64 env (codes "MAX_INLINE_BODY_SIZE") (pos (2 ^ 20)))
      (env_int64 env (codes "MAX_ENTRIES") (pos 1000))
      (env_duration durations env (codes "PENDING_TIMEOUT") (pos (5 * 60 * second)))
      (env_bool env (codes "SET_DEBUG_COOKIE") false)
      (target_url-Loads urls (env (codes "TARGET_URL")))
      (env_int64-Loads env (codes "MAX_INLINE_BODY_SIZE") (pos (2 ^ 20))
        (2 ^ 20, refl, omega arith, omega arith))
      (env_int64-Loads env (codes "MAX_ENTRIES") (pos 1000) (1000, refl, omega arith, omega arith))
      (env_duration-Loads durations env (codes "PENDING_TIMEOUT") (pos (5 * 60 * second)) refl)
      (λ u inl_max n t b h h₁ h₂ h₃. record {
        url = u;
        reads = h.0;
        has_scheme = h.1;
        has_host = h.2;
        max_inline = h₁;
        max_entries = h₂;
        timeout = h₃;
      }))
