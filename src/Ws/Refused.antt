-- ===== src/Ws/Refused.antt =====
-- A close frame that the client takes for final: `SetTerminalCloseCodes`.
use mosona_manager.Ws.Client.{
  WsError, Client, has_id, is_terminal_close_error, begin_connect, with_context, begin_reconnect,
  close, connection, refuse, read_failed, client_closed, close_sent, close_frame, reconnect_returns,
  unconnected, connection_to_send, not_connected,
}
use mosona_manager.Ws.World.{
  World, Event, step_task, apply, run, connects, closes, ends_context, fails_read, fails_write,
  fails_plain_write, moves, sets_backoff, sets_codes, sets_pong_wait,
}
use mosona_manager.Ws.Single.{same_pointer_self}
use mosona_manager.Prelude.{
  Bool, Bool-cases, List, Option, [], false, if◌then◌else◌, inl, inr, is_some, none, refl, some,
  true, ℕ, ◌||◌, ◌∷◌, ◌≡◌,
}

-- no connection, none to come, and the error to answer
record IsRefused (e : WsError) (w : World) : Type 0 where
  disconnected : w.client.conn ≡ none
  in_use : is_some w.client.ctx ≡ true
  no_call : w.client.reconnect_call ≡ none
  remembered : w.client.terminal_err ≡ some e
  no_task : w.tasks ≡ []

-- a reconnect for a connection that is gone
begin_reconnect-refused :
    (k : ℕ) (c : Client)
    → c.conn ≡ none
    → c.reconnect_call ≡ none
    → (e : Option WsError) × (begin_reconnect k c ≡ (reconnect_returns e, c))
unfolding begin_reconnect
begin_reconnect-refused k c d n = elim (Bool-cases c.closed) [
  | inl t ↦ (some client_closed, simp t refl)
  | inr t ↦ simp t (in_context c.ctx)
]
  where
    in_context :
        (o : Option ℕ) → (e : Option WsError) × (with_context k o c ≡ (reconnect_returns e, c))
    in_context none = (some close_sent, refl)
    in_context (some ctx) = (none, rw (n, d) refl)

apply-IsRefused : (r : WsError) (e : Event) (w : World) → IsRefused r w → IsRefused r (apply e w)
unfolding apply begin_connect close read_failed refuse step_task
apply-IsRefused r connects w h = elim (Bool-cases w.client.closed) [
  | inl t ↦ simp t h
  | inr t ↦ simp (t, h.in_use, or_true w.client.connecting) h
]
  where
    or_true : (b : Bool) → (b || true) ≡ true
    or_true true = refl
    or_true false = refl
apply-IsRefused r closes w h = elim (Bool-cases w.client.closed) [
  | inl t ↦ simp t h
  | inr t ↦ simp t (record {
    disconnected = refl;
    in_use = h.in_use;
    no_call = h.no_call;
    remembered = h.remembered;
    no_task = h.no_task;
  })
]
apply-IsRefused r (ends_context ctx) w h = record {
  disconnected = h.disconnected;
  in_use = h.in_use;
  no_call = h.no_call;
  remembered = h.remembered;
  no_task = h.no_task;
}
apply-IsRefused r (fails_read k e) w h = elim (Bool-cases (is_terminal_close_error e w.client)) [
  | inl t ↦
      simp (t, h.disconnected)
        (record {
          disconnected = refl;
          in_use = h.in_use;
          no_call = h.no_call;
          remembered = h.remembered;
          no_task = h.no_task;
        })
  | inr t ↦ simp (t, (begin_reconnect-refused k w.client h.disconnected h.no_call).1) h
]
apply-IsRefused r (fails_write k) w h =
    simp ((begin_reconnect-refused k w.client h.disconnected h.no_call).1) h
apply-IsRefused r (fails_plain_write k) w h = record {
  disconnected = h.disconnected;
  in_use = h.in_use;
  no_call = h.no_call;
  remembered = h.remembered;
  no_task = h.no_task;
}
apply-IsRefused r (moves i a) w h = simp h.no_task (record {
  disconnected = h.disconnected;
  in_use = h.in_use;
  no_call = h.no_call;
  remembered = h.remembered;
  no_task = refl;
})
apply-IsRefused r (sets_backoff n initial maximum) w h = record {
  disconnected = h.disconnected;
  in_use = h.in_use;
  no_call = h.no_call;
  remembered = h.remembered;
  no_task = h.no_task;
}
apply-IsRefused r (sets_codes codes) w h = record {
  disconnected = h.disconnected;
  in_use = h.in_use;
  no_call = h.no_call;
  remembered = h.remembered;
  no_task = h.no_task;
}
apply-IsRefused r (sets_pong_wait wait) w h = record {
  disconnected = h.disconnected;
  in_use = h.in_use;
  no_call = h.no_call;
  remembered = h.remembered;
  no_task = h.no_task;
}

run-IsRefused : (r : WsError) (es : List Event) (w : World) → IsRefused r w → IsRefused r (run es w)
unfolding run
run-IsRefused r [] w h = h
run-IsRefused r (e ∷ es) w h = run-IsRefused r es (apply e w) (apply-IsRefused r e w h)

read-IsRefused :
    (k code : ℕ) (w : World)
    → w.tasks ≡ []
    → w.client.conn ≡ some k
    → is_some w.client.ctx ≡ true
    → w.client.reconnect_call ≡ none
    → has_id code w.client.terminal_close_codes ≡ true
    → IsRefused (close_frame code) (apply (fails_read k (close_frame code)) w)
unfolding apply read_failed refuse is_terminal_close_error
read-IsRefused k code w ts conn ctx call final =
    simp (final, conn, same_pointer_self k)
      (record {
        disconnected = refl;
        in_use = ctx;
        no_call = call;
        remembered = refl;
        no_task = ts;
      })

answers_refused :
    (e : WsError) (w : World)
    → IsRefused e w
    → connection w.client ≡ unconnected (if w.client.closed then client_closed else e)
unfolding connection
answers_refused e w h = elim (Bool-cases w.client.closed) [
  | inl t ↦ simp t refl
  | inr t ↦ simp (t, h.disconnected, h.remembered) refl
]

answers_send :
    (e : WsError) (w : World)
    → IsRefused e w
    → connection_to_send w.client ≡ inl (if w.client.closed then client_closed else not_connected)
unfolding connection_to_send
answers_send e w h = elim (Bool-cases w.client.closed) [
  | inl t ↦ simp t refl
  | inr t ↦ simp (t, h.no_call, h.disconnected) refl
]

-- When the current connection of a client ends with a close frame whose code was set as final,
-- and no `Connect` or reconnect is under way, the client never dials again, whatever its users do
-- later: no call is under way, and it has no connection. A call that waits for a connection, as
-- `ReadMessage` and `SendMessage` do, gets that close error, and `SendMessageIfConnected` answers
-- that there is no connection; once the client is closed, both answer that it is.
pub refused_for_good :
    (k code : ℕ) (w : World) (later : List Event)
    → w.tasks ≡ []
    → w.client.conn ≡ some k
    → is_some w.client.ctx ≡ true
    → w.client.reconnect_call ≡ none
    → has_id code w.client.terminal_close_codes ≡ true
    → let after = run later (apply (fails_read k (close_frame code)) w) in
      (after.tasks ≡ [])
      × (after.client.conn ≡ none)
      × (connection after.client
          ≡ unconnected (if after.client.closed then client_closed else close_frame code))
      × (connection_to_send after.client
          ≡ inl (if after.client.closed then client_closed else not_connected))
refused_for_good k code w later ts conn ctx call final =
    let first = apply (fails_read k (close_frame code)) w in
    let h =
      run-IsRefused (close_frame code) later first
        (read-IsRefused k code w ts conn ctx call final) in
    let end_ = run later first in
    (
      h.no_task,
      h.disconnected,
      answers_refused (close_frame code) end_ h,
      answers_send (close_frame code) end_ h,
    )
