-- ===== src/Logins/Scan.antt =====
-- `scanState`: which sessions were seen. The map `seen` is the list of its keys, in the order in
-- which they came in.
use mathlib.Core.Logic.{ite}
use native.Mathlib.Decide.{ℕ_discrete}
use mathlib.Core.Option
use mosona_manager.Logins.Records.{Record, key}
use mosona_manager.Prelude.{
  Bool, List, Option, [], drop, false, get_elem?, if◌then◌else◌, length, ltb, none, some, suc, true,
  zero, ℕ, ◌++◌, ◌+◌, ◌/◌, ◌∷◌,
}

pub Key-discrete : Discrete (List ℕ)
Key-discrete = hlevel ℕ_discrete

abbrev pub max_seen_keys : ℕ
max_seen_keys = 4096

pub record ScanState : Type 0 where
  pub seen : List (List ℕ)
  pub order : List (List ℕ)
  pub head : ℕ
  pub seeded : Bool

unfoldable pub new_scan_state : ScanState
new_scan_state = record { seen = []; order = []; head = 0; seeded = false }

-- `_, dup := s.seen[key]`, and `delete(s.seen, key)`
unfoldable pub is_member : List ℕ → List (List ℕ) → Bool
is_member k [] = false
is_member k (j ∷ js) = ite (Key-discrete j k) true (is_member k js)

unfoldable pub remove : List ℕ → List (List ℕ) → List (List ℕ)
remove k [] = []
remove k (j ∷ js) = ite (Key-discrete j k) (remove k js) (j ∷ remove k js)

-- one turn of the loop of `evictOldest`; `none` is an index out of range, which panics
abbrev pub evict_one : ScanState → Option (List ℕ) → Option ScanState
evict_one s none = none
evict_one s (some k) = some (record s { seen = remove k s.seen; head = s.head + 1 })

abbrev pub and_then : Option ScanState → (ScanState → Option ScanState) → Option ScanState
and_then none f = none
and_then (some s) f = f s

unfoldable pub evict_loop : ℕ → ScanState → Option ScanState
evict_loop zero s = some s
evict_loop (suc n) s = and_then (evict_one s (get_elem? s.order s.head)) (evict_loop n)

unfoldable pub compact : ScanState → ScanState
compact s =
    if ltb s.head max_seen_keys then s else record s { order = drop s.head s.order; head = 0 }

-- `evictOldest`
unfoldable pub evict_oldest : ScanState → Option ScanState
evict_oldest s = Option.map compact (evict_loop (max_seen_keys / 4) s)

-- room for one more
unfoldable pub make_room : ScanState → Option ScanState
make_room s = if ltb (length s.seen) max_seen_keys then some s else evict_oldest s

abbrev pub add : List ℕ → ScanState → ScanState
add k s = record s { seen = s.seen ++ k ∷ []; order = s.order ++ k ∷ [] }

abbrev pub report :
    Bool → Record → Option (List Record × ScanState) → Option (List Record × ScanState)
report seeded r none = none
report true r (some (fresh, s)) = some (r ∷ fresh, s)
report false r (some (fresh, s)) = some (fresh, s)

abbrev pub add_then :
    List ℕ
    → (ScanState → Option (List Record × ScanState))
    → Option ScanState
    → Option (List Record × ScanState)
add_then k f none = none
add_then k f (some s) = f (add k s)

-- the loop of `ingest`: what it reports, and the state
unfoldable pub ingest_loop : List Record → ScanState → Option (List Record × ScanState)
ingest_loop [] s = some ([], s)
ingest_loop (r ∷ rs) s =
    let known = ingest_loop rs s in
    let new = report s.seeded r (add_then (key r) (ingest_loop rs) (make_room s)) in
    if is_member (key r) s.seen then known else new

abbrev pub seed : List Record × ScanState → List Record × ScanState
seed (fresh, s) = (fresh, record s { seeded = true })

-- `ingest`
unfoldable pub ingest : List Record → ScanState → Option (List Record × ScanState)
ingest rs s = Option.map seed (ingest_loop rs s)
