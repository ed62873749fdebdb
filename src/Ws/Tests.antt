-- ===== src/Ws/Tests.antt =====
-- The theorems on the client, at a client that connects, loses its connection and is closed.
use mosona_manager.Ws.Client.{
  has_id, remove_id, new_client, is_terminal_close_error, state_error, begin_connect,
  finish_connect, install, dial, begin_reconnect, connection, read_failed, client_closed,
  close_frame, refused, dialled, unconnected, finish_reconnect, refuse, close_sent,
  connection_to_send, not_connected,
}
use mosona_manager.Ws.Retry.{move, retry_checks, retry_dials, timer_fires, network_answers}
use mosona_manager.Ws.World.{
  Event, step_task, apply, run, started, connects, closes, fails_read, fails_write, moves,
  sets_backoff, sets_codes,
}
use mosona_manager.Ws.Single.{IsSingle}
use mosona_manager.Ws.Tasks.{started-IsSingle}
use mosona_manager.Ws.Closing.{AnswersClosed, closed_for_good}
use mosona_manager.Ws.Refused.{refused_for_good}
use mosona_manager.Ws.Attempts.{finish}
use mosona_manager.Ws.Ending.{HasEnded, reconnect_lem}
use mosona_manager.Prelude.{List, [], arith, if◌then◌else◌, inl, none, refl, some, ◌∷◌, ◌≡◌}

-- `Connect` under context 0 makes connection 1
abbrev connecting_events : List Event
connecting_events =
    sets_backoff (some 2) 100 400
    ∷ sets_codes (1008 ∷ [])
    ∷ connects
    ∷ moves 0 (network_answers (dialled none))
    ∷ moves 0 timer_fires
    ∷ []

-- a read fails, so that a reconnect starts under call 2, a write fails too, and an attempt fails
abbrev reconnecting_events : List Event
reconnecting_events =
    sets_backoff (some 2) 100 400
    ∷ connects
    ∷ moves 0 (network_answers (dialled none))
    ∷ moves 0 timer_fires
    ∷ fails_read 1 (close_frame 1006)
    ∷ fails_write 1
    ∷ moves 0 timer_fires
    ∷ moves 0 timer_fires
    ∷ moves 0 timer_fires
    ∷ []

after_connecting :
    let w = run connecting_events started in
    (w.tasks ≡ []) × (w.client.conn ≡ some 1) × (w.client.ctx ≡ some 0)
unfolding run apply new_client step_task begin_connect dial install finish_connect move
after_connecting = (refl, refl, refl)

after_reconnecting :
    let w = run reconnecting_events started in
    (w.tasks ≡ retry_dials 0 2 0 ∷ [])
    × (w.client.conn ≡ none)
    × (w.client.reconnect_call ≡ some 2)
    × (w.client.open_connections ≡ [])
unfolding run apply new_client step_task begin_connect begin_reconnect read_failed
    is_terminal_close_error has_id remove_id dial install finish_connect move state_error
after_reconnecting = (refl, refl, refl, refl)

-- `Close` while the reconnect dials, and the connection that the network then answers
closed_for_good_example :
    let c =
      (run
        (moves 0 (network_answers (dialled none)) ∷ [])
        (apply closes (run reconnecting_events started))).client in
    (c.conn ≡ none) × (c.open_connections ≡ []) × AnswersClosed c
unfolding run apply new_client step_task begin_connect begin_reconnect read_failed
    is_terminal_close_error has_id remove_id dial install finish_connect move state_error
closed_for_good_example =
    closed_for_good reconnecting_events (moves 0 (network_answers (dialled none)) ∷ []) refl

refused_for_good_example :
    let after =
      run
        (fails_write 1 ∷ connects ∷ closes ∷ [])
        (apply (fails_read 1 (close_frame 1008)) (run connecting_events started)) in
    (after.tasks ≡ [])
    × (after.client.conn ≡ none)
    × (connection after.client
        ≡ unconnected (if after.client.closed then client_closed else close_frame 1008))
    × (connection_to_send after.client
        ≡ inl (if after.client.closed then client_closed else not_connected))
unfolding run apply new_client step_task begin_connect dial install finish_connect move has_id
refused_for_good_example =
    refused_for_good 1 1008 (run connecting_events started) (fails_write 1 ∷ connects ∷ closes ∷ [])
      refl refl refl refl refl

reconnect_lem_example :
    let w = run connecting_events started in
    HasEnded 2 (
      finish
        (dialled none
          ∷ dialled none
          ∷ dialled none
          ∷ refused 7
          ∷ dialled none
          ∷ dialled none
          ∷ dialled none
          ∷ dialled none
          ∷ dialled none
          ∷ dialled none
          ∷ [])
        (retry_checks 0 2 0)
        (begin_reconnect 1 w.client).1)
unfolding run apply new_client step_task begin_connect begin_reconnect dial install finish_connect
    move has_id
reconnect_lem_example =
    reconnect_lem connecting_events 1 2 0 2
      (dialled none
        ∷ dialled none
        ∷ dialled none
        ∷ refused 7
        ∷ dialled none
        ∷ dialled none
        ∷ dialled none
        ∷ dialled none
        ∷ dialled none
        ∷ dialled none
        ∷ [])
      refl refl refl (omega arith)

started-IsSingle_example : let w = run reconnecting_events started in IsSingle w.client w.tasks
started-IsSingle_example = started-IsSingle reconnecting_events

-- a final close frame on the connection that a reconnect has just made, before `reconnect` ends:
-- the end of `reconnect` overwrites the close error
abbrev early_refusal : List Event
early_refusal =
    fails_read 1 (close_frame 1006)
    ∷ moves 0 timer_fires
    ∷ moves 0 timer_fires
    ∷ moves 0 timer_fires
    ∷ moves 0 (network_answers (dialled none))
    ∷ fails_read 3 (close_frame 1008)
    ∷ []

refusal_lost :
    let w = run early_refusal (run connecting_events started) in
    (connection w.client ≡ unconnected (close_frame 1008))
    × (connection (apply (moves 0 timer_fires) w).client ≡ unconnected close_sent)
unfolding run apply new_client step_task begin_connect begin_reconnect read_failed
    is_terminal_close_error has_id remove_id dial install finish_connect move state_error connection
    refuse finish_reconnect
refusal_lost = (refl, refl)
