-- ===== src/Ws/World.antt =====
-- A client with the calls that are under way, and what happens to it, in any order.
use mosona_manager.Ws.Client.{
  WsError, Client, new_client, set_reconnect_backoff, set_terminal_close_codes, cancel_context,
  close_connection, begin_connect, ReconnectStart, begin_reconnect, close, read_failed,
  reconnect_runs,
}
use mosona_manager.Ws.Retry.{Task, Answer, move, connect_dials, retry_checks}
use mosona_manager.Prelude.{List, Option, [], inl, inr, none, some, suc, zero, ℕ, ◌∷◌, ◌⊎◌}

pub record World : Type 0 where
  pub client : Client
  pub tasks : List Task

pub data Event : Type 0 where
  -- `Connect`, `Close`, and the end of a context from outside
  connects closes : Event
  ends_context : ℕ → Event
  -- a read of `ReadMessage`, a write of `SendMessage`, and one of `SendMessageIfConnected`, that
  -- failed on a connection
  fails_read : ℕ → WsError → Event
  fails_write fails_plain_write : ℕ → Event
  -- a task, by its position, meets an answer
  moves : ℕ → Answer → Event
  sets_backoff : Option ℕ → ℕ → ℕ → Event
  sets_codes : List ℕ → Event
  sets_pong_wait : ℕ → Event

abbrev pub keep : Option Task → List Task → List Task
keep none ts = ts
keep (some t) ts = t ∷ ts

-- the step of the task at a position
unfoldable pub step_task : ℕ → Answer → List Task → Client → Client × List Task
unfolding move
step_task i a [] c = (c, [])
step_task zero a (t ∷ ts) c = let (after, left) = move t a c in (after, keep left ts)
step_task (suc i) a (t ∷ ts) c = let (after, left) = step_task i a ts c in (after, t ∷ left)

abbrev pub connecting_task : WsError ⊎ ℕ → List Task → List Task
connecting_task (inl e) ts = ts
connecting_task (inr ctx) ts = connect_dials ctx ∷ ts

abbrev pub reconnecting_task : ReconnectStart → List Task → List Task
reconnecting_task (reconnect_runs ctx call) ts = retry_checks ctx call 0 ∷ ts
reconnecting_task _ ts = ts

unfoldable pub apply : Event → World → World
unfolding begin_connect close read_failed begin_reconnect step_task
apply connects w =
    let (start, c) = begin_connect w.client in
    record { client = c; tasks = connecting_task start w.tasks }
apply closes w = record w { client = close w.client }
apply (ends_context ctx) w = record w { client = cancel_context ctx w.client }
apply (fails_read k e) w =
    let (start, c) = read_failed k e w.client in
    record { client = c; tasks = reconnecting_task start w.tasks }
apply (fails_write k) w =
    let (start, c) = begin_reconnect k w.client in
    record { client = c; tasks = reconnecting_task start w.tasks }
apply (fails_plain_write k) w = record w { client = close_connection k w.client }
apply (moves i a) w =
    let (c, ts) = step_task i a w.tasks w.client in record { client = c; tasks = ts }
apply (sets_backoff n initial maximum) w = record w {
  client = set_reconnect_backoff n initial maximum w.client;
}
apply (sets_codes codes) w = record w { client = set_terminal_close_codes codes w.client }
apply (sets_pong_wait wait) w = record w { client = record w.client { pong_wait = wait } }

unfoldable pub run : List Event → World → World
run [] w = w
run (e ∷ es) w = run es (apply e w)

abbrev pub started : World
started = record { client = new_client; tasks = [] }
