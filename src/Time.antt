-- ===== src/Time.antt =====
-- Go's `time` package, as the program uses it: an instant is a number of nanoseconds since the Unix
-- epoch, a duration is a number of nanoseconds. Neither is bounded.
use http_debug.Base.{ℕ, suc, ◌-◌, ◌*◌, ◌/◌, Bool, not, ◌&&◌}
use http_debug.Base.Int.{ℤ, pos, negsuc, ◌-ℤ◌, ltb_ℤ}

abbrev pub Time : Type 0
Time = ℤ

abbrev pub Duration : Type 0
Duration = ℤ

-- nanoseconds in a millisecond
abbrev pub milli : ℕ
milli = 1000000

-- The zero `time.Time`, January 1 of year 1: 62135596800 seconds before the epoch.
abbrev pub zero_time : Time
zero_time = negsuc (62135596800000000000 - 1)

abbrev pub before : Time → Time → Bool
before a b = ltb_ℤ a b

abbrev pub after : Time → Time → Bool
after a b = ltb_ℤ b a

abbrev pub is_zero : Time → Bool
is_zero t = not (ltb_ℤ t zero_time) && not (ltb_ℤ zero_time t)

-- t.UnixMilli(), which rounds down
abbrev pub unix_milli : Time → ℤ
unix_milli (pos n) = pos (n / milli)
unix_milli (negsuc n) = negsuc (n / milli)

-- time.UnixMilli(ms)
abbrev pub of_unix_milli : ℤ → Time
of_unix_milli (pos n) = pos (n * milli)
of_unix_milli (negsuc n) = negsuc (suc n * milli - 1)

-- t.Sub(u)
abbrev pub since : Time → Time → Duration
since t u = t -ℤ u

-- d.Milliseconds(), which rounds towards zero
abbrev pub milliseconds : Duration → ℤ
milliseconds (pos n) = pos (n / milli)
milliseconds (negsuc n) = pos 0 -ℤ pos (suc n / milli)
