-- ===== src/Reconnect/Backoff.antt =====
-- The delay doubles from the initial one and stops at the cap.
use native.Mathlib.Nat.{pow-suc}
use feed_mux.Prelude.{ℕ, zero, suc, ◌*◌, ◌^◌, ◌≤◌, ◌≡◌, refl, max, min, arith}
use feed_mux.Reconnect.{
  ReconnectBackoff, new_backoff, reset, next_delay, wait, max_duration, nanos_per_ms,
}

pub record IsValid (b : ReconnectBackoff) : Type 0 where
  pub positive : nanos_per_ms ≤ b.initial
  pub from_initial : b.initial ≤ b.current
  pub to_cap : b.current ≤ b.cap_delay
  pub representable : b.cap_delay ≤ max_duration

pub new_backoff-IsValid :
    (initial cap_delay : ℕ)
    → initial ≤ max_duration
    → cap_delay ≤ max_duration
    → IsValid (new_backoff initial cap_delay)
unfolding new_backoff
new_backoff-IsValid initial cap_delay h k = omega arith

-- Waiting keeps the delay between the initial one, which is at least a millisecond, and the cap.
pub wait-IsValid : (b : ReconnectBackoff) → IsValid b → IsValid (wait b)
unfolding wait
wait-IsValid b v = omega arith

pub reset-IsValid : (b : ReconnectBackoff) → IsValid b → IsValid (reset b)
unfolding reset
reset-IsValid b v = omega arith

-- `n` sleeps in a row with no reset between them.
abbrev pub waits : ℕ → ReconnectBackoff → ReconnectBackoff
waits zero b = b
waits (suc n) b = wait (waits n b)

waits-cap : (n : ℕ) (b : ReconnectBackoff) → (waits n b).cap_delay ≡ b.cap_delay
unfolding wait
waits-cap zero b = refl
waits-cap (suc n) b = waits-cap n b

doubled :
    (c m k : ℕ)
    → m ≤ max_duration
    → min (min (min (c * k) m * 2) max_duration) m ≡ min (c * (k * 2)) m
doubled c m k h = omega arith

waits-initial : (n : ℕ) (b : ReconnectBackoff) → (waits n b).initial ≡ b.initial
unfolding wait
waits-initial zero b = refl
waits-initial (suc n) b = waits-initial n b

waits-current :
    (n : ℕ) (b : ReconnectBackoff)
    → b.current ≤ b.cap_delay
    → b.cap_delay ≤ max_duration
    → (waits n b).current ≡ min (b.current * 2 ^ n) b.cap_delay
unfolding wait
waits-current zero b h k = omega arith
waits-current (suc n) b h k =
    rw (waits-current n b h k, waits-cap n b, pow-suc 2 n) (doubled b.current b.cap_delay (2 ^ n) k)

-- The delay after `n` waits from a fresh backoff is the initial delay times 2^n, up to the cap; a
-- reset at any point brings the initial delay back.
pub next_delay-waits :
    (n initial cap_delay : ℕ)
    → nanos_per_ms ≤ initial
    → initial ≤ cap_delay
    → cap_delay ≤ max_duration
    → (next_delay (waits n (new_backoff initial cap_delay)) ≡ min (initial * 2 ^ n) cap_delay)
      × (next_delay (reset (waits n (new_backoff initial cap_delay))) ≡ initial)
unfolding next_delay reset new_backoff
next_delay-waits n initial cap_delay low le h =
    let b = new_backoff initial cap_delay in
    let first : max initial nanos_per_ms ≡ initial = omega arith in
    let last : max cap_delay initial ≡ cap_delay = omega arith in
    (rw (waits-current n b (omega arith) (omega arith), first, last), rw (waits-initial n b, first))
