-- ===== src/AutoRenew.antt =====
-- internal/task/auto_renew.go: moving the expiry of a server forward by whole billing cycles.
-- A time is its civil date and its nanosecond of the day, both in the location of the expiry, in
-- which the code computes (`now.In(endTime.Location())`); years are not negative, and the clock
-- of a day is taken to exist on every day (`time.Date` moves a clock that a location skips).
pub mod Months
pub mod Renewal
pub mod Rows
mod Tests
use mathlib.Core.Option
use mosona_manager.Prelude.{
  Bool, List, Option, [], false, if◌then◌else◌, inl, inr, leb, ltb, none, not, some, suc, zero, ℕ,
  ◌%◌, ◌&&◌, ◌*◌, ◌+◌, ◌-◌, ◌/◌, ◌==◌, ◌||◌, ◌∷◌, ◌⊎◌,
}

pub record Time : Type 0 where
  pub year : ℕ
  pub month : ℕ
  pub day : ℕ
  pub clock : ℕ

-- the days of a month in the Gregorian calendar, which `time.Date(year, month+1, 0, …).Day()` gives
unfoldable pub is_leap : ℕ → Bool
is_leap y = (y % 4 == 0) && (not (y % 100 == 0) || (y % 400 == 0))

unfoldable pub days_in_month : ℕ → ℕ → ℕ
unfolding is_leap
days_in_month y m =
    if m == 2
    then (if is_leap y then 29 else 28)
    else if (m == 4) || (m == 6) || (m == 9) || (m == 11)
    then 30
    else 31

-- `value.Year()*12 + int(value.Month()) - 1`
abbrev pub month_index : Time → ℕ
month_index t = t.year * 12 + t.month - 1

unfoldable pub anchored_day : Time → ℕ → ℕ
anchored_day value last_day =
    if value.day == days_in_month value.year value.month || ltb last_day value.day
    then last_day
    else value.day

-- `addAnchoredMonths`
unfoldable pub add_anchored_months : Time → ℕ → Time
unfolding anchored_day
add_anchored_months value months =
    let index = month_index value + months in
    let year = index / 12 in
    let month = index % 12 + 1 in
    record {
      year = year;
      month = month;
      day = anchored_day value (days_in_month year month);
      clock = value.clock;
    }

-- `a.Before(b)`, the order of civil times
unfoldable pub before : Time → Time → Bool
before a b =
    if not (a.year == b.year)
    then ltb a.year b.year
    else if not (a.month == b.month)
    then ltb a.month b.month
    else if not (a.day == b.day)
    then ltb a.day b.day
    else ltb a.clock b.clock

-- the `switch` on the cycle; a cycle is 1 to 4, as the query selects
unfoldable pub months_per_cycle : ℕ → Option ℕ
months_per_cycle (suc zero) = some 1
months_per_cycle (suc (suc zero)) = some 3
months_per_cycle (suc (suc (suc zero))) = some 6
months_per_cycle (suc (suc (suc (suc zero)))) = some 12
months_per_cycle _ = none

-- `(localNow.Year()-endTime.Year())*12 + int(localNow.Month()-endTime.Month())`, which is used
-- only where it is at least one cycle: a negative difference and 0 both give one cycle.
abbrev pub elapsed_months : Time → Time → ℕ
elapsed_months end_time now = month_index now - month_index end_time

unfoldable pub cycles_to_add : ℕ → ℕ → ℕ
cycles_to_add elapsed per = if ltb (elapsed / per) 1 then 1 else elapsed / per

unfoldable pub renewed : Time → Time → ℕ → Time
renewed end_time now per =
    let cycles = cycles_to_add (elapsed_months end_time now) per in
    let new_end_time = add_anchored_months end_time (cycles * per) in
    if before new_end_time now
    then add_anchored_months end_time ((cycles + 1) * per)
    else new_end_time

-- `nextRenewalEndTime`; `none` is an unsupported cycle
unfoldable pub next_renewal_end_time : Time → Time → ℕ → Option Time
next_renewal_end_time end_time now cycle =
    Option.map (renewed end_time now) (months_per_cycle cycle)

-- a row of `server_info`
pub record ServerInfo : Type 0 where
  pub sid : ℕ
  pub end_time : Option Time
  pub auto_renew : Bool
  pub cycle : ℕ

-- the `WHERE` of the query
unfoldable pub is_due : Time → ServerInfo → Option Time → Bool
is_due now row none = false
is_due now row (some end_time) =
    before end_time now && row.auto_renew && leb 1 row.cycle && leb row.cycle 4

-- the renewal of one row; `none` is the error of an unsupported cycle
unfoldable pub renew_row : Time → ServerInfo → Option Time → Option ServerInfo
renew_row now row none = some row
renew_row now row (some end_time) =
    if is_due now row (some end_time)
    then Option.map (λ t. record row { end_time = some t })
        (next_renewal_end_time end_time now row.cycle)
    else some row

pub data RenewError : Type 0 where
  database_error unsupported_cycle : RenewError

-- the statements of the transaction; an update is about a row's `sid`
pub data RenewStatement : Type 0 where
  begins selects commits : RenewStatement
  updates : ℕ → RenewStatement

abbrev pub and_row :
    RenewError ⊎ ServerInfo → RenewError ⊎ List ServerInfo → RenewError ⊎ List ServerInfo
and_row (inl e) rows = inl e
and_row (inr row) (inl e) = inl e
and_row (inr row) (inr rows) = inr (row ∷ rows)

-- the update of a row, and whether that fails
abbrev pub stored_row : Bool → Option ServerInfo → RenewError ⊎ ServerInfo
stored_row fails none = inl unsupported_cycle
stored_row fails (some row) = if fails then inl database_error else inr row

module _ (fails : RenewStatement → Bool) where
  -- the turn of the loop for a row, where the query has it: the new expiry, and the update
  unfoldable pub update_row : Time → ServerInfo → RenewError ⊎ ServerInfo
  unfolding renew_row
  update_row now row =
      if is_due now row row.end_time
      then stored_row (fails (updates row.sid)) (renew_row now row row.end_time)
      else inr row

  unfoldable pub renew_rows : Time → List ServerInfo → RenewError ⊎ List ServerInfo
  unfolding update_row
  renew_rows now [] = inr []
  renew_rows now (row ∷ rows) = and_row (update_row now row) (renew_rows now rows)

  -- the commit; an error before it rolls the table back, and a commit that fails has not happened
  abbrev pub committed :
      List ServerInfo → RenewError ⊎ List ServerInfo → Option RenewError × List ServerInfo
  committed rows (inl e) = (some e, rows)
  committed rows (inr rows') = if fails commits then (some database_error, rows) else (none, rows')

  -- `autoRenewAt`: its error, and the table afterwards
  unfoldable pub auto_renew_at : Time → List ServerInfo → Option RenewError × List ServerInfo
  unfolding renew_rows
  auto_renew_at now rows =
      if fails begins || fails selects
      then (some database_error, rows)
      else committed rows (renew_rows now rows)
