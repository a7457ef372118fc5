-- ===== src/Tests/Settings.antt =====
-- The configuration, in two environments.
use http_debug.Base.{◌≡◌, refl, false, Option, none, [], Str, codes, str_eq, if◌then◌else◌, ◌*◌}
use http_debug.Base.Int.{pos}
use http_debug.Base.Decimal.{parse_int}
use http_debug.Time.{Duration}
use http_debug.Config.{
  Config, Environment, loaded, rejects, not_positive_integer, second, default_public_url,
  load_config, sweep_interval,
}
use http_debug.Config.Checked.{Interval, IsUsable, load_config-IsUsable, sweep_interval-Interval}
use http_debug.Tests.Exchanges.{libraries}

-- Only the target and the number of entries are set.
abbrev pub environment : Str → Environment
environment entries name =
    if str_eq name (codes "TARGET_URL")
    then codes "http://backend/v1/"
    else if str_eq name (codes "MAX_ENTRIES")
    then entries
    else []

abbrev pub no_duration : Str → Option Duration
no_duration s = none

abbrev defaults : Config
defaults = record {
  target_url = codes "http://backend/v1/";
  listen_addr = codes ":8080";
  web_addr = codes ":8081";
  public_url = codes "http://localhost:8081";
  data_dir = codes "/data";
  max_inline_body_size = pos 1048576;
  max_entries = pos 50;
  pending_timeout = pos 300000000000;
  set_debug_cookie = false;
}

loads : load_config libraries.urls no_duration (environment (codes "50")) ≡ loaded defaults
unfolding load_config str_eq parse_int default_public_url
loads = refl

rejects_zero :
    load_config libraries.urls no_duration (environment (codes "0"))
    ≡ rejects (not_positive_integer (codes "MAX_ENTRIES") (codes "0"))
unfolding load_config str_eq parse_int
rejects_zero = refl

load_config-IsUsable_example : IsUsable libraries.urls defaults
load_config-IsUsable_example =
    load_config-IsUsable libraries.urls no_duration (environment (codes "50")) defaults loads

sweep_interval-Interval_example : Interval (pos (30 * second)) (sweep_interval (pos (30 * second)))
sweep_interval-Interval_example = sweep_interval-Interval (pos (30 * second))
