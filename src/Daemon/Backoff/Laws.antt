-- ===== src/Daemon/Backoff/Laws.antt =====
-- src/daemon/resilience.rs and src/daemon/submit.rs: how the delays grow.
use jmapsyncd.Base.{
  ℕ, zero, suc, ◌-◌, ◌*◌, ◌^◌, ◌≤◌, ◌≡◌, refl, sym, ap, ◌∙◌, ◌⊎◌, inl, inr, arith, min, max,
}
use native.Mathlib.Omega.{pow_step}
use jmapsyncd.Daemon.Backoff.{
  new, take_delay, reset, after, saturating_mul, duration_max, u64_max, raw_delay,
  backoff_attempt_cap,
}

double_step :
    (x cap : ℕ)
    → cap ≤ duration_max
    → min (saturating_mul duration_max (min x cap) 2) cap ≡ min (x * 2) cap
unfolding saturating_mul
double_step x cap h = omega (arith, h)

power-suc : (base n : ℕ) → base * 2 ^ n * 2 ≡ base * 2 ^ (suc n)
power-suc base n = grind (arith, pow_step 2 n)

after-fields :
    (n base cap : ℕ) → ((after n (new base cap)).base ≡ base) × ((after n (new base cap)).cap ≡ cap)
unfolding after new take_delay
after-fields zero base cap = (refl, refl)
after-fields (suc n) base cap = after-fields n base cap

after-next :
    (n base cap : ℕ)
    → base ≤ cap
    → cap ≤ duration_max
    → (after n (new base cap)).next ≡ min (base * 2 ^ n) cap
unfolding after new take_delay
after-next zero base cap h k = omega (arith, h)
after-next (suc n) base cap h k =
    rw (after-next n base cap h k, (after-fields n base cap).1)
      (double_step (base * 2 ^ n) cap k ∙ ap (λ x. min x cap) (power-suc base n))

-- With a base of at most the cap, the delay after n delays is the base doubled n times, or the cap
-- where that is less, and a reset starts over with the base. The cap is a duration.
pub take_delay-after :
    (n base cap : ℕ)
    → base ≤ cap
    → cap ≤ duration_max
    → ((take_delay (after n (new base cap))).0 ≡ min (base * 2 ^ n) cap)
      × ((take_delay (reset (after n (new base cap)))).0 ≡ base)
unfolding take_delay reset
take_delay-after n base cap h k = (after-next n base cap h k, (after-fields n base cap).0)

power-le : (base d e : ℕ) → (e ≡ d) ⊎ (e ≡ suc d) → base * 2 ^ d ≤ base * 2 ^ e
power-le base d e (inl h) = rw h (omega arith)
power-le base d e (inr h) = rw (h, sym (power-suc base d)) (omega arith)

next_exponent :
    (n c : ℕ) → (min (suc n - 1) c ≡ min (n - 1) c) ⊎ (min (suc n - 1) c ≡ suc (min (n - 1) c))
next_exponent n c = ground arith

-- The delay before its jitter is at least one second and at most the cap (or one second). It does
-- not shrink from one attempt to the next.
pub raw_delay-bounds :
    (attempts base cap : ℕ)
    → (1 ≤ raw_delay attempts base cap)
      × (raw_delay attempts base cap ≤ max cap 1)
      × (raw_delay attempts base cap ≤ raw_delay (suc attempts) base cap)
unfolding raw_delay saturating_mul
raw_delay-bounds attempts base cap =
    let exp = min (attempts - 1) backoff_attempt_cap in
    let exp' = min (suc attempts - 1) backoff_attempt_cap in
    let grows = power-le base exp exp' (next_exponent attempts backoff_attempt_cap) in
    (omega arith, omega arith, omega (arith, grows))

-- For attempts from the first to the 31st and a cap in 64 bits, the delay before its jitter is the
-- base doubled once for each attempt after the first, within one second and the cap.
pub raw_delay_lem :
    (n base cap : ℕ)
    → n ≤ backoff_attempt_cap
    → cap ≤ u64_max
    → raw_delay (suc n) base cap ≡ max (min (base * 2 ^ n) cap) 1
unfolding raw_delay saturating_mul
raw_delay_lem n base cap h k =
    let e : min (suc n - 1) backoff_attempt_cap ≡ n = omega (arith, h) in rw e (omega (arith, k))
