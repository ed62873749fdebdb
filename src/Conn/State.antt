-- ===== src/Conn/State.antt =====
-- The pool of outbound connections, the goroutines that run them, the inbound connections and the
-- pending retries. The operations on one server exclude one another by its lifecycle lock, and
-- `stopOutboundServer` waits for the goroutine that it cancels, so each operation is one step.
use native.Mathlib.Decide.{ℕ_discrete}
use mosona_manager.Prelude.{
  Bool, List, Option, [], delete, false, find, if◌then◌else◌, none, not, some, store, true, ℕ, ◌&&◌,
  ◌+◌, ◌==◌, ◌||◌, ◌∷◌,
}

pub record State : Type 0 where
  -- `connectPool`: the entry of a server, by a number that is never given twice
  pub pool : List (ℕ × ℕ)
  -- the goroutines that have not finished: their server and entry
  pub running : List (ℕ × ℕ)
  pub next : ℕ
  -- the servers with an inbound connection, which the stopper closes
  pub inbound : List (ℕ × Unit {0})
  pub stopper : Bool
  -- `reconcileRetries`: the current retry of a server, by a number
  pub retries : List (ℕ × ℕ)

pub data ServerRow : Type 0 where
  row : ℕ → Bool → ServerRow
  no_rows failed : ServerRow

-- the public key of the server's agent: empty or not
pub data KeyRow : Type 0 where
  key : Bool → KeyRow
  no_key key_failed : KeyRow

-- how far `startServer` comes before it starts a goroutine
pub data StartResult : Type 0 where
  ready start_no_rows start_failed : StartResult

pub record Answers : Type 0 where
  pub server : ServerRow
  pub agent : KeyRow
  pub start : StartResult

-- forget a goroutine
unfoldable pub finish_goroutine : ℕ → ℕ → List (ℕ × ℕ) → List (ℕ × ℕ)
finish_goroutine s e [] = []
finish_goroutine s e ((t, f) ∷ rest) =
    if t == s && f == e then finish_goroutine s e rest else (t, f) ∷ finish_goroutine s e rest

abbrev pub stop_entry : ℕ → Option ℕ → State → State
stop_entry s none st = st
stop_entry s (some e) st = record st {
  pool = delete ℕ_discrete s st.pool;
  running = finish_goroutine s e st.running;
}

-- `stopOutboundServer`
unfoldable pub stop_outbound_server : ℕ → State → State
unfolding finish_goroutine
stop_outbound_server s st = stop_entry s (find ℕ_discrete s st.pool) st

-- `stopInboundServer`
unfoldable pub stop_inbound_server : ℕ → State → State
stop_inbound_server s st =
    if st.stopper then record st { inbound = delete ℕ_discrete s st.inbound } else st

-- `stopServer`
unfoldable pub stop_server : ℕ → State → State
stop_server s st = stop_inbound_server s (stop_outbound_server s st)

-- the end of `startServer`: a new entry, and its goroutine
unfoldable pub connect : ℕ → State → State
connect s st =
    let st' = stop_outbound_server s st in
    record st' {
      pool = store ℕ_discrete s st'.next st'.pool;
      running = (s, st'.next) ∷ st'.running;
      next = st'.next + 1;
    }

-- `startServer` for the modes 0 and 1, and the `sql.ErrNoRows` that is no error; true is an error
unfoldable pub start_server : ℕ → StartResult → State → State × Bool
start_server s ready st = (connect s st, false)
start_server s start_no_rows st = (st, false)
start_server s start_failed st = (st, true)

-- the `switch` of `reconcileServer`
unfoldable pub by_mode : ℕ → ℕ → StartResult → State → State × Bool
by_mode s mode start st =
    if mode == 0 || mode == 1
    then start_server s start (stop_outbound_server s (stop_inbound_server s st))
    else if mode == 2
    then (stop_outbound_server s st, false)
    else (stop_server s st, true)

-- the tests of a server that is not monitored
unfoldable pub unmonitored : ℕ → ℕ → KeyRow → StartResult → State → State × Bool
unmonitored s mode k start st = if not (mode == 1) then (stop_server s st, false) else elim k [
  | no_key ↦ (stop_server s st, false)
  | key_failed ↦ (stop_server s st, true)
  | key present ↦ if present then (stop_server s st, false) else by_mode s mode start st
]

unfoldable pub reconcile_row : ℕ → ServerRow → KeyRow → StartResult → State → State × Bool
reconcile_row s no_rows k start st = (stop_server s st, false)
reconcile_row s failed k start st = (stop_server s st, true)
reconcile_row s (row mode allow_monitor) k start st =
    if not allow_monitor then unmonitored s mode k start st else by_mode s mode start st

-- `reconcileServer`
unfoldable pub reconcile : ℕ → Answers → State → State × Bool
reconcile s a st = reconcile_row s a.server a.agent a.start st

-- `cancelReconcileRetry`
unfoldable pub cancel_reconcile_retry : ℕ → State → State
cancel_reconcile_retry s st = record st { retries = delete ℕ_discrete s st.retries }

-- `startReconcileRetry`
unfoldable pub start_reconcile_retry : ℕ → State → State
start_reconcile_retry s st = record st {
  retries = store ℕ_discrete s st.next st.retries;
  next = st.next + 1;
}

abbrev pub retry_on_error : ℕ → State × Bool → State × Bool
retry_on_error s (st, true) = (start_reconcile_retry s st, true)
retry_on_error s (st, false) = (st, false)

-- `ReconcileServer`
unfoldable pub reconcile_server : ℕ → Answers → State → State × Bool
reconcile_server s a st = retry_on_error s (reconcile s a (cancel_reconcile_retry s st))

-- `StopServer`
unfoldable pub stop : ℕ → State → State
stop s st = stop_server s (cancel_reconcile_retry s st)

abbrev pub settle_retry : ℕ → State × Bool → State
settle_retry s (st, true) = st
settle_retry s (st, false) = cancel_reconcile_retry s st

abbrev pub retry_if : ℕ → ℕ → Answers → State → Option ℕ → State
retry_if s r a st none = st
retry_if s r a st (some current) = if current == r then settle_retry s (reconcile s a st) else st

-- a turn of the retry's goroutine, when its timer fires: it does nothing unless it is current
unfoldable pub retry_turn : ℕ → ℕ → Answers → State → State
retry_turn s r a st = retry_if s r a st (find ℕ_discrete s st.retries)

abbrev pub drop_entry : ℕ → ℕ → State → Option ℕ → State
drop_entry s e st none = st
drop_entry s e st (some current) =
    if current == e then record st { pool = delete ℕ_discrete s st.pool } else st

-- `finishOutboundServer`, which a goroutine calls at its end
unfoldable pub finish_outbound_server : ℕ → ℕ → State → State
finish_outbound_server s e st =
    let st' = drop_entry s e st (find ℕ_discrete s st.pool) in
    record st' { running = finish_goroutine s e st'.running }
