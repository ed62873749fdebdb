-- ===== src/AutoRenew/Renewal.antt =====
-- Which expiry a renewal picks.
use native.Mathlib.Decide.{ℕ_discrete}
use mosona_manager.AutoRenew.{
  Time, month_index, add_anchored_months, before, renewed, elapsed_months, cycles_to_add,
  next_renewal_end_time, months_per_cycle,
}
use mosona_manager.AutoRenew.Months.{
  IsValid, month_index-add, add_anchored_months_lem, before_earlier_month, before_later_month,
  before_month,
}
use mosona_manager.Prelude.{
  Bool-cases, arith, false, if◌then◌else◌, inl, inr, ltb, ltb→lt, refl, some, suc, true, zero, ℕ,
  ◌*◌, ◌+◌, ◌/◌, ◌<◌, ◌==◌, ◌≡◌, ◌≤◌,
}

rounds_up : (n per : ℕ) → 0 < per → n < (n / per + 1) * per
rounds_up n per h = grind arith

below_rounded : (n per j : ℕ) → 0 < per → j < n / per → j * per < n
below_rounded n per j h k = grind arith

-- the expiry after `k` cycles
abbrev pub after : Time → ℕ → ℕ → Time
after end_time per k = add_anchored_months end_time (k * per)

-- `t` is the first expiry that is at least one cycle on and not before `now`
pub record IsFirst (end_time now : Time) (per : ℕ) (t : Time) : Type 0 where
  pub cycles : ℕ
  pub least : 1 ≤ cycles
  pub is_after : t ≡ after end_time per cycles
  pub reached : before t now ≡ false
  pub first : (j : ℕ) → 1 ≤ j → j < cycles → before (after end_time per j) now ≡ true

cycles_least : (n per : ℕ) → 1 ≤ cycles_to_add n per
unfolding cycles_to_add
cycles_least n per = ground arith

cycles_first : (n per j : ℕ) → 0 < per → 1 ≤ j → j < cycles_to_add n per → j * per < n
unfolding cycles_to_add
cycles_first n per j positive least h = below_rounded n per j positive (ground arith)

cycles_enough : (n per : ℕ) → 0 < per → n < (cycles_to_add n per + 1) * per
unfolding cycles_to_add
cycles_enough n per positive = elim (Bool-cases (ltb (n / per) 1)) [
  | inl e ↦ rw e (grind (arith, rounds_up n per positive, ltb→lt (n / per) 1 e))
  | inr e ↦ rw e (rounds_up n per positive)
]

module _ (end_time now : Time) (per : ℕ) (positive : 0 < per) (ve : IsValid end_time)
    (vn : IsValid now) (ordered : month_index end_time ≤ month_index now) where
  after-IsValid : (k : ℕ) → IsValid (after end_time per k)
  after-IsValid k = (add_anchored_months_lem end_time (k * per) ve).0

  too_early :
      (k : ℕ) → k * per < elapsed_months end_time now → before (after end_time per k) now ≡ true
  too_early k h =
      before_earlier_month (after end_time per k) now (after-IsValid k) vn
        (omega (arith, month_index-add end_time (k * per)))

  late_enough :
      (k : ℕ) → elapsed_months end_time now < k * per → before (after end_time per k) now ≡ false
  late_enough k h =
      before_later_month (after end_time per k) now (after-IsValid k) vn
        (omega (arith, month_index-add end_time (k * per)))

  renewed-IsFirst : IsFirst end_time now per (renewed end_time now per)
  unfolding renewed
  renewed-IsFirst =
      let n = elapsed_months end_time now in
      let c = cycles_to_add n per in
      elim (Bool-cases (before (after end_time per c) now)) [
        | inl short ↦ record {
          cycles = c + 1;
          least = omega arith;
          is_after = rw short;
          reached = rw short (late_enough (c + 1) (cycles_enough n per positive));
          first = λ j least h. elim (ℕ_discrete j c) [
            | yes e ↦ rw e short
            | no ne ↦ too_early j (cycles_first n per j positive least (omega arith))
          ];
        }
        | inr fits ↦ record {
          cycles = c;
          least = cycles_least n per;
          is_after = rw fits;
          reached = rw fits fits;
          first = λ j least h. too_early j (cycles_first n per j positive least h);
        }
      ]

-- the months of a cycle, as the comment of `serverExpireInfo` lists them
pub months_of : ℕ → ℕ
months_of cycle = if cycle == 1 then 1 else if cycle == 2 then 3 else if cycle == 3 then 6 else 12

months_lem :
    (cycle : ℕ)
    → 1 ≤ cycle
    → cycle ≤ 4
    → (months_per_cycle cycle ≡ some (months_of cycle)) × (0 < months_of cycle)
unfolding months_per_cycle months_of
months_lem zero l m = absurd (omega arith)
months_lem (suc zero) l m = (refl, omega arith)
months_lem (suc (suc zero)) l m = (refl, omega arith)
months_lem (suc (suc (suc zero))) l m = (refl, omega arith)
months_lem (suc (suc (suc (suc zero)))) l m = (refl, omega arith)
months_lem (suc (suc (suc (suc (suc n))))) l m = absurd (omega arith)

renewed-IsValid :
    (end_time now : Time) (per : ℕ) → IsValid end_time → IsValid (renewed end_time now per)
unfolding renewed
renewed-IsValid end_time now per v =
    let c = cycles_to_add (elapsed_months end_time now) per in
    elim (Bool-cases (before (after end_time per c) now)) [
      | inl e ↦ rw e (add_anchored_months_lem end_time ((c + 1) * per) v).0
      | inr e ↦ rw e (add_anchored_months_lem end_time (c * per) v).0
    ]

-- For an expiry that has passed and a cycle of 1 to 4, the renewal succeeds: the new expiry is a
-- valid time, a whole number of billing cycles (of 1, 3, 6 or 12 months) and at least one after
-- the old, not before now, and the first such.
pub next_renewal_end_time-IsFirst :
    (end_time now : Time) (cycle : ℕ)
    → IsValid end_time
    → IsValid now
    → before end_time now ≡ true
    → 1 ≤ cycle
    → cycle ≤ 4
    → (t : Time) × (next_renewal_end_time end_time now cycle ≡ some t)
      × IsValid t
      × IsFirst end_time now (months_of cycle) t
unfolding next_renewal_end_time
next_renewal_end_time-IsFirst end_time now cycle ve vn b l m =
    let (selected, positive) = months_lem cycle l m in
    let per = months_of cycle in
    (
      renewed end_time now per,
      rw selected,
      renewed-IsValid end_time now per ve,
      renewed-IsFirst end_time now per positive ve vn (before_month end_time now ve vn b),
    )
