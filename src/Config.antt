-- ===== src/Config.antt =====
-- cmd/debugproxy/main.go: the configuration that is read from the environment. `url.Parse` and
-- `time.ParseDuration` are parameters.
pub mod Checked
use http_debug.Base.{
  ℕ, suc, ◌-◌, ◌*◌, ◌/◌, ◌^◌, ◌==◌, ltb, Bool, true, false, not, ◌||◌, Option, none, some, List, [],
  ◌∷◌, ◌++◌, Str, codes, str_eq, length, if◌then◌else◌,
}
use http_debug.Base.Int.{ℤ, pos, negsuc, ltb_ℤ}
use http_debug.Base.Decimal.{parse_int, parse_bool}
use http_debug.Time.{Duration, milli}
use http_debug.Proxy.Url.{Url, UrlText}

-- `name` and the value that is refused.
pub data ConfigError : Type 0 where
  target_missing : ConfigError
  target_not_absolute : Str → ConfigError
  not_positive_integer not_positive_duration not_boolean : Str → Str → ConfigError

pub data Loaded (A : Type 0) : Type 0 where
  loaded : A → Loaded A
  rejects : ConfigError → Loaded A

abbrev pub if_loaded : {A B : Type 0} → (A → Loaded B) → Loaded A → Loaded B
if_loaded f (loaded a) = f a
if_loaded f (rejects e) = rejects e

infixl 5 ◌>>=◌
abbrev pub ◌>>=◌ : {A B : Type 0} → Loaded A → (A → Loaded B) → Loaded B
m >>= f = if_loaded f m

-- config
pub record Config : Type 0 where
  pub target_url : Str
  pub listen_addr : Str
  pub web_addr : Str
  pub public_url : Str
  pub data_dir : Str
  pub max_inline_body_size : ℤ
  pub max_entries : ℤ
  pub pending_timeout : Duration
  pub set_debug_cookie : Bool

-- os.Getenv: a variable that is not set is empty.
abbrev pub Environment : Type 0
Environment = Str → Str

abbrev pub second : ℕ
second = 1000 * milli

abbrev pub is_positive : ℤ → Bool
is_positive v = ltb_ℤ (pos 0) v

-- envString
abbrev pub env_string : Environment → Str → Str → Str
env_string env name fallback = if length (env name) == 0 then fallback else env name

abbrev pub positive_integer : Str → Str → Option ℤ → Loaded ℤ
positive_integer name raw none = rejects (not_positive_integer name raw)
positive_integer name raw (some n) =
    if is_positive n then loaded n else rejects (not_positive_integer name raw)

-- envInt64, and envInt, whose `int` has 64 bits
unfoldable pub env_int64 : Environment → Str → ℤ → Loaded ℤ
unfolding parse_int
env_int64 env name fallback =
    if length (env name) == 0
    then loaded fallback
    else positive_integer name (env name) (parse_int (env name))

abbrev pub positive_duration : Str → Str → Option Duration → Loaded Duration
positive_duration name raw none = rejects (not_positive_duration name raw)
positive_duration name raw (some d) =
    if is_positive d then loaded d else rejects (not_positive_duration name raw)

-- envDuration
unfoldable pub env_duration :
    (Str → Option Duration) → Environment → Str → Duration → Loaded Duration
env_duration parse env name fallback =
    if length (env name) == 0
    then loaded fallback
    else positive_duration name (env name) (parse (env name))

abbrev boolean : Str → Str → Option Bool → Loaded Bool
boolean name raw none = rejects (not_boolean name raw)
boolean name raw (some b) = loaded b

-- envBool
unfoldable pub env_bool : Environment → Str → Bool → Loaded Bool
unfolding parse_bool
env_bool env name fallback =
    if length (env name) == 0
    then loaded fallback
    else boolean name (env name) (parse_bool (env name))

-- strings.Cut at the first `:`
unfoldable pub cut_colon : Str → Option (Str × Str)
cut_colon [] = none
cut_colon (c ∷ s) =
    let rest = cut_colon s in
    if c == b':' then some ([], s) else elim rest [ none ↦ none | some (l, r) ↦ some (c ∷ l, r) ]

abbrev pub is_unspecified : Str → Bool
is_unspecified host =
    (length host == 0) || (str_eq host (codes "0.0.0.0") || str_eq host (codes "[::]"))

-- defaultPublicURL
unfoldable pub default_public_url : Str → Str
unfolding cut_colon str_eq
default_public_url web_addr = elim (cut_colon web_addr) [
  | none ↦ codes "http://localhost" ++ web_addr
  | some (host, port) ↦
      codes "http://"
      ++ (if is_unspecified host then codes "localhost" else host)
      ++ codes ":"
      ++ port
]

abbrev pub checked_target : Str → Option Url → Loaded Url
checked_target raw none = rejects (target_not_absolute raw)
checked_target raw (some u) =
    if (length u.scheme == 0) || (length u.host == 0)
    then rejects (target_not_absolute raw)
    else loaded u

-- The target, if it is absolute.
unfoldable pub target_url : UrlText → Str → Loaded Url
target_url urls raw =
    if length raw == 0 then rejects target_missing else checked_target raw (urls.parse raw)

-- The configuration, once its checks are passed.
abbrev pub configured : Environment → ℤ → ℤ → Duration → Bool → Config
configured env max_inline max_entries timeout cookie =
    let web_addr = env_string env (codes "WEB_ADDR") (codes ":8081") in
    record {
      target_url = env (codes "TARGET_URL");
      listen_addr = env_string env (codes "LISTEN_ADDR") (codes ":8080");
      web_addr = web_addr;
      public_url = env_string env (codes "PUBLIC_URL") (default_public_url web_addr);
      data_dir = env_string env (codes "DATA_DIR") (codes "/data");
      max_inline_body_size = max_inline;
      max_entries = max_entries;
      pending_timeout = timeout;
      set_debug_cookie = cookie;
    }

-- loadConfig
unfoldable pub load_config : UrlText → (Str → Option Duration) → Environment → Loaded Config
unfolding target_url default_public_url env_int64 env_duration env_bool
load_config urls durations env = do
  target ← target_url urls (env (codes "TARGET_URL"))
  max_inline ← env_int64 env (codes "MAX_INLINE_BODY_SIZE") (pos (2 ^ 20))
  max_entries ← env_int64 env (codes "MAX_ENTRIES") (pos 1000)
  timeout ← env_duration durations env (codes "PENDING_TIMEOUT") (pos (5 * 60 * second))
  cookie ← env_bool env (codes "SET_DEBUG_COOKIE") false
  loaded (configured env max_inline max_entries timeout cookie)

-- timeout / 2, which rounds towards zero
abbrev pub half : Duration → Duration
half (pos n) = pos (n / 2)
half (negsuc n) = if n == 0 then pos 0 else negsuc ((suc n) / 2 - 1)

abbrev pub at_least : Duration → Duration → Duration
at_least low d = if ltb_ℤ d low then low else d

abbrev pub at_most : Duration → Duration → Duration
at_most high d = if ltb_ℤ high d then high else d

-- The time between two sweeps, of sweepPending.
unfoldable pub sweep_interval : Duration → Duration
sweep_interval timeout = at_most (pos (60 * second)) (at_least (pos (5 * second)) (half timeout))
