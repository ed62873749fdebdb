-- ===== src/Conn/Backoff.antt =====
-- internal/connect/conn/start.go: the pauses between the attempts to reach an Agent
-- (`retryDelay`), and the loop of the goroutine that makes them. Durations are in nanoseconds.
use native.Mathlib.Numerals.{add-one}
use mathlib.Core.Path.{ap₂}
use native.Mathlib.Nat.{two-pow-succ}
use mosona_manager.Prelude.{
  Bool, List, [], ap, arith, false, get_elem?, if◌then◌else◌, leb, length, ltb, not, pow-grows,
  pow-suc, some, suc, true, zero, ℕ, ◌&&◌, ◌*◌, ◌+◌, ◌/◌, ◌<◌, ◌^◌, ◌||◌, ◌∙◌, ◌∷◌, ◌≡◌, ◌≤◌,
}

abbrev pub second : ℕ
second = 1_000_000_000

abbrev pub minute : ℕ
minute = 60 * second

abbrev pub at_most_minute : ℕ → ℕ
at_most_minute delay = if ltb minute delay then minute else delay

-- the loop of `retryDelay`, by the turns that are left
unfoldable pub double_delay : ℕ → ℕ → ℕ
double_delay zero delay = delay
double_delay (suc turns) delay =
    let rest = double_delay turns (at_most_minute (delay * 2)) in
    if ltb delay minute then rest else delay

-- `retryDelay`. `extra` is what the jitter adds: the whole part of a quarter of the delay times
-- the jitter, which is `float64` arithmetic.
unfoldable pub retry_delay : (ℕ → ℕ) → ℕ → ℕ
unfolding double_delay
retry_delay extra failures = let delay = double_delay failures second in delay + extra delay

-- What one turn of the loop meets: whether the context is done while it waits or when the
-- connection has ended, the error, and how long the connection took.
pub record Attempt : Type 0 where
  pub done_waiting : Bool
  pub done_after : Bool
  pub identity_mismatch : Bool
  pub errs : Bool
  pub took : ℕ

unfoldable pub next_failures : Attempt → ℕ → ℕ
next_failures a failures =
    if a.errs then (if leb minute a.took then 0 else failures + 1) else failures

-- whether the loop returns in this turn
unfoldable pub returns : Bool → Attempt → Bool
returns allow_monitor a =
    a.done_waiting || a.done_after || a.identity_mismatch || (not a.errs && not allow_monitor)

-- the pauses that the loop makes, one before each attempt; each turn has its jitter
unfoldable pub active_loop : Bool → (ℕ → ℕ → ℕ) → ℕ → List Attempt → List ℕ
active_loop allow_monitor extra failures [] = []
active_loop allow_monitor extra failures (a ∷ later) =
    let rest = active_loop allow_monitor (λ n. extra (n + 1)) (next_failures a failures) later in
    retry_delay (extra 0) failures ∷ (if returns allow_monitor a then [] else rest)

double_delay-closed :
    (n d : ℕ)
    → d ≤ minute
    → double_delay n d ≡ (if ltb (d * 2 ^ n) minute then d * 2 ^ n else minute)
unfolding double_delay
double_delay-closed zero d h = ground arith
double_delay-closed (suc n) d h = ground (
  arith,
  double_delay-closed n (d * 2),
  double_delay-closed n minute,
  pow-suc d n,
  pow-grows d (suc n),
  pow-grows (d * 2) n,
  pow-grows minute n,
)

-- After n failures the pause without a jitter is 2^n seconds where that is under a minute, and
-- a minute otherwise, so that one more failure never makes it shorter; with a jitter of at most
-- a quarter the pause is never under a second nor over 75.
pub retry_delay_lem :
    (extra : ℕ → ℕ) (failures : ℕ)
    → ((d : ℕ) → extra d ≤ d / 4)
    → (retry_delay (λ d. 0) failures
        ≡ (if ltb (2 ^ failures) 60 then 2 ^ failures * second else minute))
      × (second ≤ retry_delay extra failures)
      × (retry_delay extra failures ≤ 75 * second)
      × (retry_delay (λ d. 0) failures ≤ retry_delay (λ d. 0) (failures + 1))
unfolding retry_delay
retry_delay_lem extra n h =
    let closed = double_delay-closed n second (omega arith) in
    let next = double_delay-closed (n + 1) second (omega arith) in
    let doubles : 2 ^ (n + 1) ≡ 2 * 2 ^ n = rw (add-one n, two-pow-succ n) (omega arith) in
    let least = pow-grows 1 n in
    (
      ground (arith, closed),
      ground (arith, closed, least),
      ground (arith, closed, h (double_delay n second)),
      ground (arith, closed, next, doubles),
    )

-- an attempt that fails within a minute, and is not called off
pub record IsQuick (a : Attempt) : Type 0 where
  pub waits : a.done_waiting ≡ false
  pub goes_on : a.done_after ≡ false
  pub known : a.identity_mismatch ≡ false
  pub fails : a.errs ≡ true
  pub short : a.took < minute

abbrev pub AllQuick : List Attempt → Type 0
AllQuick [] = Unit
AllQuick (a ∷ later) = IsQuick a × AllQuick later

quick_from :
    (m : Bool) (extra : ℕ → ℕ → ℕ) (n i : ℕ) (later : List Attempt)
    → AllQuick later
    → i < length later
    → get_elem? (active_loop m extra n later) i ≡ some (retry_delay (extra i) (n + i))
unfolding active_loop returns next_failures
quick_from m extra n i [] q h = absurd (omega arith)
quick_from m extra n zero (a ∷ later) q h = ap (λ k. some (retry_delay (extra 0) k)) (omega arith)
quick_from m extra n (suc i) (a ∷ later) q h =
    let slow : leb minute a.took ≡ false = ground (arith, q.0.short) in
    let shift : n + 1 + i ≡ n + suc i = omega arith in
    let one_on : i + 1 ≡ suc i = omega arith in
    rw (q.0.waits, q.0.goes_on, q.0.known, q.0.fails, slow)
      (quick_from m (λ k. extra (k + 1)) (n + 1) i later q.1 (omega arith)
        ∙ ap₂ (λ j k. some (retry_delay (extra j) k)) one_on shift)

-- While attempts fail within a minute and are not called off, the loop goes on, and the pause
-- before attempt i, counted from 0, is that of i failures.
pub active_loop-quick :
    (allow_monitor : Bool) (extra : ℕ → ℕ → ℕ) (i : ℕ) (later : List Attempt)
    → AllQuick later
    → i < length later
    → get_elem? (active_loop allow_monitor extra 0 later) i ≡ some (retry_delay (extra i) i)
active_loop-quick m extra i later q h =
    quick_from m extra 0 i later q h ∙ ap (λ k. some (retry_delay (extra i) k)) (omega arith)
