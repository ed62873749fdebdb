-- ===== src/Ws/Delay.antt =====
-- The delay before an attempt in closed form, and within a fifth of it.
use mosona_manager.Ws.Client.{Client}
use mosona_manager.Ws.Retry.{grow, jitter, reconnect_delay}
use mosona_manager.Prelude.{
  Bool-cases, arith, if◌then◌else◌, inl, inr, ltb, pow-double, pow-grows, suc, zero, ℕ, ◌*◌, ◌+◌,
  ◌/◌, ◌<◌, ◌==◌, ◌^◌, ◌≡◌, ◌≤◌,
}

-- the delay without the jitter, as it is meant
abbrev backoff : ℕ → ℕ → ℕ → ℕ
backoff retries maximum initial =
    if ltb initial maximum
    then (if ltb (initial * 2 ^ retries) maximum then initial * 2 ^ retries else maximum)
    else initial

grow-backoff : (n maximum d : ℕ) → grow n maximum d ≡ backoff n maximum d
unfolding grow
grow-backoff zero maximum d = ground arith
grow-backoff (suc n) maximum d = ground (
  arith,
  grow-backoff n maximum (d * 2),
  grow-backoff n maximum maximum,
  pow-double d n,
  pow-grows (d * 2) n,
  pow-grows d (suc n),
)

jitter_bounds :
    (random : ℕ → ℕ) (d : ℕ)
    → ((n : ℕ) → random (n + 1) < n + 1)
    → (4 * d ≤ 5 * jitter random d) × (5 * jitter random d ≤ 6 * d)
unfolding jitter
jitter_bounds random d h = elim (Bool-cases (d / 5 == 0)) [
  | inl t ↦ simp t (omega arith, omega arith)
  | inr t ↦ simp t (omega (arith, h (d / 5 * 2)), omega (arith, h (d / 5 * 2)))
]

-- The doubling loop computes the closed form: the initial delay doubled once for every attempt so
-- far and at most the maximum, or the initial delay where the maximum is not above it; and with its
-- jitter the delay before an attempt is within a fifth of that.
reconnect_delay_lem :
    (random : ℕ → ℕ) (retries : ℕ) (c : Client)
    → ((n : ℕ) → random (n + 1) < n + 1)
    → let delay = backoff retries c.max_retry_delay c.retry_interval in
      (grow retries c.max_retry_delay c.retry_interval ≡ delay)
      × (4 * delay ≤ 5 * reconnect_delay random retries c)
      × (5 * reconnect_delay random retries c ≤ 6 * delay)
unfolding reconnect_delay
reconnect_delay_lem random retries c h =
    let closed_form = grow-backoff retries c.max_retry_delay c.retry_interval in
    let delay = backoff retries c.max_retry_delay c.retry_interval in
    let (low, high) = jitter_bounds random delay h in
    (closed_form, rw closed_form low, rw closed_form high)
