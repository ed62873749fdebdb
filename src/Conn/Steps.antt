-- ===== src/Conn/Steps.antt =====
-- The histories of the Hub: any operations, in any order.
use native.Mathlib.Decide.{ℕ_discrete}
use mosona_manager.Conn.State.{
  State, Answers, reconcile_server, stop, retry_turn, finish_outbound_server,
}
use mosona_manager.Prelude.{List, [], false, store, true, ℕ, ◌∷◌}

pub data Op : Type 0 where
  reconciles : ℕ → Answers → Op
  stops : ℕ → Op
  retry_fires : ℕ → ℕ → Answers → Op
  goroutine_ends : ℕ → ℕ → Op
  connects_inbound : ℕ → Op
  registers_stopper : Op

unfoldable pub apply : Op → State → State
apply (reconciles s a) st = (reconcile_server s a st).0
apply (stops s) st = stop s st
apply (retry_fires s r a) st = retry_turn s r a st
apply (goroutine_ends s e) st = finish_outbound_server s e st
apply (connects_inbound s) st = record st { inbound = store ℕ_discrete s tt st.inbound }
apply registers_stopper st = record st { stopper = true }

unfoldable pub run : List Op → State → State
run [] st = st
run (op ∷ ops) st = run ops (apply op st)

abbrev pub start : State
start = record { pool = []; running = []; next = 0; inbound = []; stopper = false; retries = [] }
