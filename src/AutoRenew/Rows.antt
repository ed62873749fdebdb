-- ===== src/AutoRenew/Rows.antt =====
-- The renewal of the whole table.
use mosona_manager.AutoRenew.{
  begins, selects, commits, updates, RenewStatement, Time, ServerInfo, is_due, renew_row, before,
  renewed, auto_renew_at, update_row, renew_rows, database_error, stored_row, and_row, committed,
  RenewError,
}
use mosona_manager.AutoRenew.Months.{IsValid}
use mosona_manager.AutoRenew.Renewal.{IsFirst, months_of, next_renewal_end_time-IsFirst}
use mosona_manager.Prelude.{
  Bool, Bool-cases, List, Option, [], ap, arith, false, get_or, if◌then◌else◌, inl, inr, none, refl,
  some, sym, true, ◌&&◌, ◌||◌, ◌∙◌, ◌∷◌, ◌≡◌, ◌≤◌,
}

abbrev pub ValidTime : Option Time → Type 0
ValidTime none = Unit
ValidTime (some t) = IsValid t

abbrev pub ValidRows : List ServerInfo → Type 0
ValidRows [] = Unit
ValidRows (row ∷ rows) = ValidTime row.end_time × ValidRows rows

-- a row that was due has the first expiry that is not before now, and any other is as it was
pub data Renewed (now : Time) (row row' : ServerInfo) : Type 0 where
  kept : is_due now row row.end_time ≡ false → row' ≡ row → Renewed now row row'
  moved :
      (old new : Time)
      → is_due now row row.end_time ≡ true
      → row.end_time ≡ some old
      → row' ≡ record row { end_time = some new }
      → IsFirst old now (months_of row.cycle) new
      → Renewed now row row'

abbrev pub AllRenewed : Time → List ServerInfo → List ServerInfo → Type 0
AllRenewed now [] [] = Unit
AllRenewed now (row ∷ rows) (row' ∷ rows') = Renewed now row row' × AllRenewed now rows rows'
AllRenewed now _ _ = ⊥

settled :
    (now : Time) (row : ServerInfo) (end_time : Option Time)
    → is_due now row end_time ≡ false
    → renew_row now row end_time ≡ some row
unfolding renew_row
settled now row none h = refl
settled now row (some t) h = ground arith

due_facts :
    (now : Time) (row : ServerInfo) (old : Time)
    → is_due now row (some old) ≡ true
    → (before old now ≡ true) × (1 ≤ row.cycle) × (row.cycle ≤ 4)
unfolding is_due
due_facts now row old h = ground arith

not_due :
    (now : Time) (row : ServerInfo) (t : Time)
    → before t now ≡ false
    → is_due now row (some t) ≡ false
unfolding is_due
not_due now row t h = ground arith

-- whether the update of a row fails that is due
abbrev pub meets_failure : (RenewStatement → Bool) → Time → List ServerInfo → Bool
meets_failure fails now [] = false
meets_failure fails now (row ∷ rows) =
    (is_due now row row.end_time && fails (updates row.sid)) || meets_failure fails now rows

module _ (now : Time) (vn : IsValid now) where
  renew_due :
      (row : ServerInfo) (old : Time)
      → row.end_time ≡ some old
      → IsValid old
      → is_due now row (some old) ≡ true
      → (row' : ServerInfo) × (renew_row now row (some old) ≡ some row')
        × Renewed now row row'
        × (is_due now row' row'.end_time ≡ false)
  unfolding renew_row
  renew_due row old e v due =
      let (passed, least, most) = due_facts now row old due in
      let (t, found, valid, first) =
        next_renewal_end_time-IsFirst old now row.cycle v vn passed least most in
      let row' : ServerInfo = record row { end_time = some t } in
      (
        row',
        rw (due, found),
        moved old t (ap (is_due now row) e ∙ due) e refl first,
        not_due now row' t first.reached,
      )

  renew_row_lem :
      (row : ServerInfo) (end_time : Option Time)
      → row.end_time ≡ end_time
      → ValidTime end_time
      → (row' : ServerInfo) × (renew_row now row end_time ≡ some row')
        × Renewed now row row'
        × (is_due now row' row'.end_time ≡ false)
  unfolding is_due
  renew_row_lem row none e v =
      let idle = ap (is_due now row) e in (row, settled now row none refl, kept idle refl, idle)
  renew_row_lem row (some old) e v = elim (Bool-cases (is_due now row (some old))) [
    | inl due ↦ renew_due row old e v due
    | inr idle ↦
        let idle' = ap (is_due now row) e ∙ idle in
        (row, settled now row (some old) idle, kept idle' refl, idle')
  ]

  module _ (fails : RenewStatement → Bool) where
    joined :
        (f g : Bool) (row : ServerInfo) (rows : List ServerInfo)
        → and_row
            (if f then inl database_error else inr row)
            (if g then inl database_error else inr rows)
          ≡ (if f || g then inl database_error else inr (row ∷ rows))
    joined true g row rows = refl
    joined false true row rows = refl
    joined false false row rows = refl

    -- the transaction by whether its loop met a failure
    committed_lem :
        (b g : Bool) (rows rows' : List ServerInfo)
        → (if b
            then (some database_error, rows)
            else committed fails rows (if g then inl database_error else inr rows'))
          ≡ (if b || g || fails commits then (some database_error, rows) else (none, rows'))
    committed_lem true g rows rows' = refl
    committed_lem false true rows rows' = refl
    committed_lem false false rows rows' = refl

    kept_rows :
        (b f : Bool) (rows : List ServerInfo)
        → let outcome : Option RenewError × List ServerInfo =
            if b
            then (some database_error, rows)
            else (if f then (some database_error, rows) else (none, rows)) in
          outcome.1 ≡ rows
    kept_rows true f rows = refl
    kept_rows false true rows = refl
    kept_rows false false rows = refl

    update_row_lem :
        (row : ServerInfo)
        → ValidTime row.end_time
        → (row' : ServerInfo) × Renewed now row row'
          × (is_due now row' row'.end_time ≡ false)
          × (update_row fails now row ≡ (
              if is_due now row row.end_time && fails (updates row.sid)
              then inl database_error
              else inr row'))
    unfolding update_row
    update_row_lem row v =
        let (row', done, renewed, idle) = renew_row_lem row row.end_time refl v in
        (row', renewed, idle, by_due (is_due now row row.end_time) refl done)
      where
        by_due :
            (due : Bool)
            → is_due now row row.end_time ≡ due
            → {row' : ServerInfo} → renew_row now row row.end_time ≡ some row'
            → (if due
                then stored_row (fails (updates row.sid)) (renew_row now row row.end_time)
                else inr row)
              ≡ (if due && fails (updates row.sid) then inl database_error else inr row')
        by_due true e done = ap (stored_row (fails (updates row.sid))) done
        by_due false e done =
            ap (λ o. inr (get_or o row)) (sym (settled now row row.end_time e) ∙ done)

    renew_rows_lem :
        (rows : List ServerInfo)
        → ValidRows rows
        → (rows' : List ServerInfo) × AllRenewed now rows rows'
          × (renew_rows fails now rows
              ≡ (if meets_failure fails now rows then inl database_error else inr rows'))
          × ((again : RenewStatement → Bool) → renew_rows again now rows' ≡ inr rows')
    unfolding renew_rows update_row
    renew_rows_lem [] v = ([], tt, refl, λ again. refl)
    renew_rows_lem (row ∷ rows) v =
        let (row', renewed, idle, done) = update_row_lem row v.0 in
        let (rows', all_renewed, all_done, all_again) = renew_rows_lem rows v.1 in
        (
          row' ∷ rows',
          (renewed, all_renewed),
          rw (done, all_done)
              (joined (is_due now row row.end_time && fails (updates row.sid))
                (meets_failure fails now rows) row' rows'),
          λ again. rw (idle, all_again again),
        )

    -- Over a table of valid times the renewal meets no other error than the database's: a
    -- statement that fails, the update of a row that is due or the commit among them, leaves the
    -- table as it was, and otherwise every row that was due has the first expiry that is not
    -- before now, and the others are as before. A second renewal at the same time then changes
    -- nothing, whichever statements fail.
    pub auto_renew_at_lem :
        (rows : List ServerInfo)
        → ValidRows rows
        → (rows' : List ServerInfo) × AllRenewed now rows rows'
          × (auto_renew_at fails now rows ≡ (
              if fails begins || fails selects || meets_failure fails now rows || fails commits
              then (some database_error, rows)
              else (none, rows')))
          × ((again : RenewStatement → Bool) → (auto_renew_at again now rows').1 ≡ rows')
    unfolding auto_renew_at
    auto_renew_at_lem rows v =
        let (rows', renewed, done, again) = renew_rows_lem rows v in
        (
          rows',
          renewed,
          rw done (
              committed_lem (fails begins || fails selects) (meets_failure fails now rows) rows
                rows'),
          λ other.
              rw (again other) (kept_rows (other begins || other selects) (other commits) rows'),
        )
