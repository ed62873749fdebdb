-- ===== src/Conn/Tests.antt =====
-- The theorems on the connections, at a concrete history and concrete attempts.
use mosona_manager.Conn.State.{Answers, row, key, ready, stop, start_failed}
use mosona_manager.Conn.Steps.{Op, run, start, reconciles, retry_fires, goroutine_ends}
use mosona_manager.Conn.Stopped.{IsIdle, run-stop-IsIdle}
use mosona_manager.Conn.Single.{Inv, run_start-Inv}
use mosona_manager.Conn.Backoff.{second, Attempt}
use mosona_manager.Prelude.{List, [], arith, false, true, ◌∷◌}

abbrev active : Answers
active = record { server = row 1 true; agent = key true; start = ready }

-- a server is connected, connected again, and its first goroutine ends late
abbrev history : List Op
history =
    reconciles 7 active ∷ reconciles 7 active ∷ goroutine_ends 7 0 ∷ retry_fires 7 3 active ∷ []

run_start-Inv_example : Inv (run history start)
run_start-Inv_example = run_start-Inv history

abbrev attempt : Attempt
attempt = record {
  done_waiting = false;
  done_after = false;
  identity_mismatch = false;
  errs = true;
  took = second;
}

abbrev attempts : List Attempt
attempts = attempt ∷ attempt ∷ attempt ∷ []

abbrev failing : Answers
failing = record active { start = start_failed }

-- a retry is pending when the server is stopped, and its timer still fires
abbrev earlier : List Op
earlier = reconciles 7 active ∷ reconciles 7 failing ∷ []

abbrev further : List Op
further = retry_fires 7 1 active ∷ reconciles 8 active ∷ goroutine_ends 7 0 ∷ []

run-stop-IsIdle_example : IsIdle 7 (run further (stop 7 (run earlier start)))
run-stop-IsIdle_example = run-stop-IsIdle 7 earlier further ((λ e. omega arith), tt)
