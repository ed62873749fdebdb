-- ===== src/Logins/Tests.antt =====
-- The theorems on the login records, at concrete scans.
use mosona_manager.Decimal.{plus}
use mosona_manager.Logins.Records.{Record}
use mosona_manager.Logins.Scan.{ScanState, new_scan_state, ingest}
use mosona_manager.Logins.Window.{Inv, ingest-Inv}
use mosona_manager.Prelude.{List, [], arith, false, refl, some, true, ℕ, ◌∷◌, ◌≡◌}

abbrev login : ℕ → Record
login n = record { user = 97 ∷ []; tty = 98 ∷ []; ip = 99 ∷ []; time = plus n }

new_scan_state-Inv : Inv new_scan_state
unfolding new_scan_state
new_scan_state-Inv = record {
  window = record { in_order = refl; distinct = tt; in_range = omega arith };
  size = omega arith;
  head = omega arith;
}

abbrev scanned : List Record
scanned = login 1 ∷ login 2 ∷ login 1 ∷ []

ingest-Inv_example :
    (fresh : List Record) × (s' : ScanState) × (ingest scanned new_scan_state ≡ some (fresh, s'))
    × Inv s'
    × (s'.seeded ≡ true)
    × (new_scan_state.seeded ≡ false → fresh ≡ [])
ingest-Inv_example = ingest-Inv scanned new_scan_state new_scan_state-Inv
