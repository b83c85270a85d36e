-- ===== src/QuicEngine/Timeout.antt =====
-- The time that the event thread waits.
use mod_http.Common.{ℕ, zero, suc, ◌+◌, ◌*◌, ◌/◌, Bool, false, Option, none, some, min}
use mod_http.QuicEngine.{H3qEngine}

abbrev pub listens : Option H3qEngine → Bool
listens none = false
listens (some e) = e.ssl_listener

abbrev pub at_least_one : ℕ → ℕ
at_least_one zero = 1
at_least_one (suc n) = suc n

-- What is left of a timer of seconds and microseconds, in microseconds.
abbrev pub microseconds : ℕ × ℕ → ℕ
microseconds (tv_sec, tv_usec) = tv_sec * 1000000 + tv_usec

-- The whole milliseconds to the sooner of the two ends, and no less than one.
abbrev pub wait : Option (ℕ × ℕ) → ℕ → ℕ
wait none timeout_ms = at_least_one timeout_ms
wait (some tv) timeout_ms = at_least_one (min timeout_ms (microseconds tv / 1000))
