-- ===== src/Daemon/Backoff.antt =====
-- src/daemon/resilience.rs: `RetryBackoff`, and src/daemon/submit.rs: `backoff_delay` before its
-- jitter, which is in floating point. A `Duration` is its number of nanoseconds.
pub mod Laws
use jmapsyncd.Base.{ℕ, zero, suc, ◌+◌, ◌-◌, ◌*◌, ◌^◌, min, max, if◌then◌else◌, leb}

-- `Duration::MAX`
abbrev pub duration_max : ℕ
duration_max = (2 ^ 64 - 1) * 1000000000 + 999999999

abbrev pub u64_max : ℕ
u64_max = 2 ^ 64 - 1

-- `saturating_mul`, of a type with this greatest value.
unfoldable pub saturating_mul : ℕ → ℕ → ℕ → ℕ
saturating_mul greatest a b = min (a * b) greatest

pub record RetryBackoff : Type 0 where
  pub base : ℕ
  pub cap : ℕ
  pub next : ℕ

unfoldable pub new : ℕ → ℕ → RetryBackoff
new base cap = record { base = base; cap = cap; next = base }

unfoldable pub take_delay : RetryBackoff → ℕ × RetryBackoff
take_delay b = (b.next, record b { next = min (saturating_mul duration_max b.next 2) b.cap })

unfoldable pub reset : RetryBackoff → RetryBackoff
reset b = record b { next = b.base }

-- The state after a number of delays.
unfoldable pub after : ℕ → RetryBackoff → RetryBackoff
after zero b = b
after (suc n) b = (take_delay (after n b)).1

abbrev pub backoff_attempt_cap : ℕ
backoff_attempt_cap = 30

-- `raw`; a shift by less than 64 does not fail.
unfoldable pub raw_delay : ℕ → ℕ → ℕ → ℕ
raw_delay attempts base_secs cap_secs =
    let exp = min (attempts - 1) backoff_attempt_cap in
    max (min (saturating_mul u64_max base_secs (2 ^ exp)) cap_secs) 1
