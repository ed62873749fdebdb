-- ===== src/AutoRenew/Tests.antt =====
-- The theorems on the renewal, at concrete dates.
use mosona_manager.AutoRenew.{
  is_due, Time, is_leap, days_in_month, add_anchored_months, before, cycles_to_add, renewed,
  next_renewal_end_time, ServerInfo, RenewStatement, auto_renew_at, months_per_cycle,
}
use mosona_manager.AutoRenew.Months.{IsValid}
use mosona_manager.AutoRenew.Renewal.{IsFirst, months_of, next_renewal_end_time-IsFirst}
use mosona_manager.AutoRenew.Rows.{AllRenewed, auto_renew_at_lem}
use mosona_manager.Prelude.{Bool, List, [], arith, false, none, refl, some, true, ◌∷◌, ◌≡◌}

-- 31 January 2024, and 15 March 2024
abbrev end_of_january : Time
end_of_january = record { year = 2024; month = 1; day = 31; clock = 0 }

abbrev mid_march : Time
mid_march = record { year = 2024; month = 3; day = 15; clock = 0 }

end_of_january-IsValid : IsValid end_of_january
unfolding days_in_month is_leap
end_of_january-IsValid = record {
  month_least = omega arith;
  month_most = omega arith;
  day_least = omega arith;
  day_most = omega arith;
}

mid_march-IsValid : IsValid mid_march
unfolding days_in_month is_leap
mid_march-IsValid = record {
  month_least = omega arith;
  month_most = omega arith;
  day_least = omega arith;
  day_most = omega arith;
}

-- the end of January is renewed to the end of March
renewed_to_end :
    next_renewal_end_time end_of_january mid_march 1
    ≡ some (record { year = 2024; month = 3; day = 31; clock = 0 })
unfolding next_renewal_end_time renewed cycles_to_add add_anchored_months before months_per_cycle
    days_in_month
renewed_to_end = refl

next_renewal_end_time-IsFirst_example :
    (t : Time) × (next_renewal_end_time end_of_january mid_march 1 ≡ some t)
    × IsValid t
    × IsFirst end_of_january mid_march (months_of 1) t
unfolding before
next_renewal_end_time-IsFirst_example =
    next_renewal_end_time-IsFirst end_of_january mid_march 1 end_of_january-IsValid
      mid_march-IsValid refl (omega arith) (omega arith)

abbrev rows : List ServerInfo
rows =
    record { sid = 1; end_time = some end_of_january; auto_renew = true; cycle = 1 }
    ∷ record { sid = 2; end_time = none; auto_renew = true; cycle = 1 }
    ∷ []

abbrev works : RenewStatement → Bool
works st = false

auto_renew_at_lem_example :
    (rows' : List ServerInfo) × AllRenewed mid_march rows rows'
    × (auto_renew_at works mid_march rows ≡ (none, rows'))
    × ((again : RenewStatement → Bool) → (auto_renew_at again mid_march rows').1 ≡ rows')
unfolding is_due before
auto_renew_at_lem_example =
    auto_renew_at_lem mid_march mid_march-IsValid works rows (end_of_january-IsValid, (tt, tt))
