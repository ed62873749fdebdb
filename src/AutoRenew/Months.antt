-- ===== src/AutoRenew/Months.antt =====
-- Adding months: what the result is, and how it compares.
use mosona_manager.AutoRenew.{Time, days_in_month, month_index, add_anchored_months, before}
use mosona_manager.Prelude.{Bool, arith, false, true, ℕ, ◌%◌, ◌+◌, ◌/◌, ◌<◌, ◌==◌, ◌≡◌, ◌≤◌}

pub record IsValid (t : Time) : Type 0 where
  pub month_least : 1 ≤ t.month
  pub month_most : t.month ≤ 12
  pub day_least : 1 ≤ t.day
  pub day_most : t.day ≤ days_in_month t.year t.month

days_in_month_least : (y m : ℕ) → 28 ≤ days_in_month y m
unfolding days_in_month
days_in_month_least y m = ground arith

abbrev pub is_last_day : Time → Bool
is_last_day t = t.day == days_in_month t.year t.month

pub month_index-add : (t : Time) (k : ℕ) → month_index (add_anchored_months t k) ≡ month_index t + k
unfolding add_anchored_months
month_index-add t k = omega arith

-- Adding months to a valid time gives a valid time in the month that many months later, at the
-- same clock. A last day of a month becomes the last day of that month; any other day stays what
-- it is where the month has it, and becomes the last day where it has not.
pub add_anchored_months_lem :
    (t : Time) (k : ℕ)
    → IsValid t
    → let u = add_anchored_months t k in
      IsValid u
      × (month_index u ≡ month_index t + k)
      × (u.clock ≡ t.clock)
      × (is_last_day t ≡ true → is_last_day u ≡ true)
      × (is_last_day t ≡ false → t.day ≤ days_in_month u.year u.month → u.day ≡ t.day)
      × (days_in_month u.year u.month < t.day → is_last_day u ≡ true)
unfolding add_anchored_months
add_anchored_months_lem t k v =
    let index = month_index t + k in
    ground (arith, days_in_month_least (index / 12) (index % 12 + 1))

pub before_earlier_month :
    (a b : Time) → IsValid a → IsValid b → month_index a < month_index b → before a b ≡ true
unfolding before
before_earlier_month a b va vb h = ground arith

pub before_later_month :
    (a b : Time) → IsValid a → IsValid b → month_index b < month_index a → before a b ≡ false
unfolding before
before_later_month a b va vb h = ground arith

pub before_month :
    (a b : Time) → IsValid a → IsValid b → before a b ≡ true → month_index a ≤ month_index b
unfolding before
before_month a b va vb h = ground arith
