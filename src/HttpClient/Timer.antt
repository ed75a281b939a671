-- ===== src/HttpClient/Timer.antt =====
-- The timer of `AsyncHttpClient`, which libcurl sets in milliseconds.
use yeti_lnp_resolver.Base.{
  ◌≡◌, ℕ, zero, suc, ◌+◌, ◌*◌, ◌/◌, ◌%◌, ◌<◌, Bool, true, false, ℤ, pos, negsuc, arith,
}

-- `its.it_value` of `set_timer_value`, in seconds and nanoseconds: 0 would disarm the timer.
unfoldable pub it_value_of : ℤ → ℕ × ℕ
it_value_of (negsuc n) = (0, 0)
it_value_of (pos zero) = (0, 1)
it_value_of (pos (suc n)) = (suc n / 1000, (suc n % 1000) * 1000 * 1000)

-- What `read` of the timer gave.
pub data TimerRead : Type 0 where
  eight_bytes fewer_bytes again other_error : TimerRead

-- Whether `read_timer` returned 0.
unfoldable pub read_timer : ℤ → TimerRead → Bool
read_timer (negsuc n) r = false
read_timer (pos n) again = false
read_timer (pos n) _ = true

-- The time at which the timer is to fire, in nanoseconds.
abbrev pub nanoseconds : ℕ × ℕ → ℕ
nanoseconds (sec, nsec) = sec * 1000000000 + nsec

-- What libcurl asks for, in nanoseconds; a timer that is due at once fires in one nanosecond, and 0
-- stands for a timer that is off.
abbrev pub nanoseconds_of : ℤ → ℕ
nanoseconds_of (negsuc n) = 0
nanoseconds_of (pos zero) = 1
nanoseconds_of (pos (suc n)) = suc n * 1000000

-- The timer is set to the time that libcurl asks for, off for a negative time, and the value's
-- nanoseconds are fewer than a second.
it_value_of-nanoseconds :
    (ms : ℤ)
    → (nanoseconds (it_value_of ms) ≡ nanoseconds_of ms) × ((it_value_of ms).1 < 1000000000)
unfolding it_value_of
it_value_of-nanoseconds (negsuc n) = (omega arith, omega arith)
it_value_of-nanoseconds (pos zero) = (omega arith, omega arith)
it_value_of-nanoseconds (pos (suc n)) = (omega arith, omega arith)
