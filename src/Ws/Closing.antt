-- ===== src/Ws/Closing.antt =====
-- After `Close`: what is left open of a client, and what its calls answer.
use mosona_manager.Ws.Client.{
  WsError, Client, remove_id, same_pointer, is_terminal_close_error, close_connection,
  begin_connect, finish_connect, DialAnswer, install, dial, begin_reconnect, finish_reconnect,
  close, refuse, read_failed, refused, dialled, connection, connection_to_send, client_closed,
  reconnect_returns, unconnected, recheck_connection, not_connected,
}
use mosona_manager.Ws.Retry.{
  Task, Answer, move, connect_dials, connect_ends, retry_checks, retry_pauses, retry_resumes,
  retry_dials, retry_ends, timer_fires, context_ends, network_answers,
}
use mosona_manager.Ws.World.{
  World, Event, step_task, apply, run, connects, closes, ends_context, fails_read, fails_write,
  fails_plain_write, moves, sets_backoff, sets_codes, sets_pong_wait, started,
}
use mosona_manager.Ws.Single.{IsSingle}
use mosona_manager.Ws.Tasks.{started-IsSingle}
use mosona_manager.Prelude.{
  Bool-cases, List, Option, [], ap, false, if◌then◌else◌, inl, inr, ltb, none, refl, some, suc,
  true, zero, ℕ, ◌∷◌, ◌≡◌,
}

pub record IsShut (c : Client) : Type 0 where
  pub shut : c.closed ≡ true
  pub disconnected : c.conn ≡ none
  pub none_open : c.open_connections ≡ []

close-IsShut : (c : Client) (ts : List Task) → IsSingle c ts → c.closed ≡ false → IsShut (close c)
unfolding close
close-IsShut c ts h e =
    simp e (record { shut = refl; disconnected = refl; none_open = h.one_connection })

dial-IsShut : (ctx : ℕ) (a : DialAnswer) (c : Client) → IsShut c → IsShut (dial ctx a c).1
unfolding dial install
dial-IsShut ctx (refused e) c h = h
dial-IsShut ctx (dialled none) c h = simp h.shut h
dial-IsShut ctx (dialled (some e)) c h = elim (Bool-cases (ltb 0 c.pong_wait)) [
  | inl t ↦ simp t h
  | inr t ↦ simp (t, h.shut) h
]

finish_connect-IsShut :
    (ctx : ℕ) (err : Option WsError) (c : Client) → IsShut c → IsShut (finish_connect ctx err c).1
unfolding finish_connect
finish_connect-IsShut ctx none c h = elim (Bool-cases (same_pointer c.ctx ctx)) [
  | inl t ↦
      simp t (record { shut = h.shut; disconnected = h.disconnected; none_open = h.none_open })
  | inr t ↦ simp t h
]
finish_connect-IsShut ctx (some e) c h = elim (Bool-cases (same_pointer c.ctx ctx)) [
  | inl t ↦
      simp t (record { shut = h.shut; disconnected = h.disconnected; none_open = h.none_open })
  | inr t ↦
      simp t (record { shut = h.shut; disconnected = h.disconnected; none_open = h.none_open })
]

finish_reconnect-IsShut :
    (call : ℕ) (err : Option WsError) (c : Client)
    → IsShut c
    → IsShut (finish_reconnect call err c).1
unfolding finish_reconnect
finish_reconnect-IsShut call err c h = elim (Bool-cases (same_pointer c.reconnect_call call)) [
  | inl t ↦
      simp t (record { shut = h.shut; disconnected = h.disconnected; none_open = h.none_open })
  | inr t ↦ simp t h
]

close_connection-IsShut : (k : ℕ) (c : Client) → IsShut c → IsShut (close_connection k c)
unfolding remove_id
close_connection-IsShut k c h = record {
  shut = h.shut;
  disconnected = h.disconnected;
  none_open = ap (remove_id k) h.none_open;
}

read_failed-IsShut : (k : ℕ) (e : WsError) (c : Client) → IsShut c → IsShut (read_failed k e c).1
unfolding read_failed begin_reconnect refuse remove_id
read_failed-IsShut k e c h = elim (Bool-cases (is_terminal_close_error e c)) [
  | inl t ↦
      simp (t, h.disconnected)
        (record { shut = h.shut; disconnected = refl; none_open = ap (remove_id k) h.none_open })
  | inr t ↦ simp (t, h.shut) h
]

move-IsShut : (t : Task) (a : Answer) (c : Client) → IsShut c → IsShut (move t a c).0
unfolding move
move-IsShut (connect_dials ctx) (network_answers a) c h = dial-IsShut ctx a c h
move-IsShut (connect_dials ctx) timer_fires c h = h
move-IsShut (connect_dials ctx) context_ends c h = h
move-IsShut (connect_ends ctx err) a c h = finish_connect-IsShut ctx err c h
move-IsShut (retry_checks ctx call n) a c h = h
move-IsShut (retry_pauses ctx call n) (network_answers a) c h = h
move-IsShut (retry_pauses ctx call n) timer_fires c h = h
move-IsShut (retry_pauses ctx call n) context_ends c h = h
move-IsShut (retry_resumes ctx call n) a c h = h
move-IsShut (retry_dials ctx call n) (network_answers a) c h = dial-IsShut ctx a c h
move-IsShut (retry_dials ctx call n) timer_fires c h = h
move-IsShut (retry_dials ctx call n) context_ends c h = h
move-IsShut (retry_ends call err) a c h = finish_reconnect-IsShut call err c h

step_task-IsShut :
    (i : ℕ) (a : Answer) (ts : List Task) (c : Client) → IsShut c → IsShut (step_task i a ts c).0
unfolding step_task
step_task-IsShut i a [] c h = h
step_task-IsShut zero a (t ∷ ts) c h = move-IsShut t a c h
step_task-IsShut (suc i) a (t ∷ ts) c h = step_task-IsShut i a ts c h

apply-IsShut : (e : Event) (w : World) → IsShut w.client → IsShut (apply e w).client
unfolding apply begin_connect close begin_reconnect
apply-IsShut connects w h = simp h.shut h
apply-IsShut closes w h = simp h.shut h
apply-IsShut (ends_context ctx) w h = record {
  shut = h.shut;
  disconnected = h.disconnected;
  none_open = h.none_open;
}
apply-IsShut (fails_read k e) w h = read_failed-IsShut k e w.client h
apply-IsShut (fails_write k) w h = simp h.shut h
apply-IsShut (fails_plain_write k) w h = close_connection-IsShut k w.client h
apply-IsShut (moves i a) w h = step_task-IsShut i a w.tasks w.client h
apply-IsShut (sets_backoff n initial maximum) w h = record {
  shut = h.shut;
  disconnected = h.disconnected;
  none_open = h.none_open;
}
apply-IsShut (sets_codes codes) w h = record {
  shut = h.shut;
  disconnected = h.disconnected;
  none_open = h.none_open;
}
apply-IsShut (sets_pong_wait wait) w h = record {
  shut = h.shut;
  disconnected = h.disconnected;
  none_open = h.none_open;
}

run-IsShut : (es : List Event) (w : World) → IsShut w.client → IsShut (run es w).client
unfolding run
run-IsShut [] w h = h
run-IsShut (e ∷ es) w h = run-IsShut es (apply e w) (apply-IsShut e w h)

-- what a closed client answers to its callers, and to the calls that were under way
abbrev pub AnswersClosed : Client → Type 0
AnswersClosed c =
    (connection c ≡ unconnected client_closed)
    × (connection_to_send c ≡ inl client_closed)
    × ((k : ℕ) → recheck_connection k c ≡ some not_connected)
    × ((begin_connect c).0 ≡ inl client_closed)
    × ((k : ℕ) → (begin_reconnect k c).0 ≡ reconnect_returns (some client_closed))
    × ((k : ℕ) (e : WsError)
        → (read_failed k e c).0
          ≡ reconnect_returns (some (if is_terminal_close_error e c then e else client_closed)))
    × ((ctx : ℕ) (err : Option WsError) → (finish_connect ctx err c).0 ≡ some client_closed)
    × ((call : ℕ) (err : Option WsError) → (finish_reconnect call err c).0 ≡ some client_closed)

closed-read_failed :
    (c : Client)
    → IsShut c
    → (k : ℕ) (e : WsError)
    → (read_failed k e c).0
      ≡ reconnect_returns (some (if is_terminal_close_error e c then e else client_closed))
unfolding read_failed begin_reconnect
closed-read_failed c h k e = elim (Bool-cases (is_terminal_close_error e c)) [
  | inl t ↦ simp t refl
  | inr t ↦ simp (t, h.shut) refl
]

answers_closed : (c : Client) → IsShut c → AnswersClosed c
unfolding connection connection_to_send recheck_connection begin_connect begin_reconnect
    finish_connect finish_reconnect
answers_closed c h = (
  simp h.shut refl,
  simp h.shut refl,
  λ k. simp h.shut refl,
  simp h.shut refl,
  λ k. simp h.shut refl,
  closed-read_failed c h,
  λ ctx err. simp h.shut refl,
  λ call err. simp h.shut refl,
)

-- From the moment `Close` is called on a client that was not closed, whatever was under way then
-- (a `Connect` or a reconnect that dials, say) and whatever comes later, the client has no
-- connection, and every connection that it ever made is closed. `Connect`, `reconnect`, a call
-- that waits for a connection and the start of `SendMessageIfConnected` answer that the client is
-- closed, and so do a `Connect` and a reconnect that had not ended, and a `SendMessage` whose
-- write fails. A `SendMessageIfConnected` that waited for its turn to write answers that there is
-- no connection, and a `ReadMessage` whose read fails answers a close frame that is final, or else
-- that the client is closed.
pub closed_for_good :
    (before after : List Event)
    → (run before started).client.closed ≡ false
    → let c = (run after (apply closes (run before started))).client in
      (c.conn ≡ none) × (c.open_connections ≡ []) × AnswersClosed c
unfolding apply
closed_for_good before after e =
    let w = run before started in
    let h =
      run-IsShut after (apply closes w)
        (close-IsShut w.client w.tasks (started-IsSingle before) e) in
    let c = (run after (apply closes w)).client in (h.disconnected, h.none_open, answers_closed c h)
