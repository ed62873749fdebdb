-- ===== src/StatusWriter/Tests.antt =====
-- The theorems on the status writer, at a small queue that overflows and a writer that fails once.
use mosona_manager.StatusWriter.Ring.{push_locked, take_at_most, new_ring, ring_ops, fifo_ops}
use mosona_manager.StatusWriter.Slots.{Holds}
use mosona_manager.StatusWriter.Worker.{
  Config, Event, apply, run, new_processor, pending, reached, pausing, on_wake, write_error,
  enqueues, records_drop, works, notifies,
}
use mosona_manager.StatusWriter.Refines.{Alike, run-refines}
use mosona_manager.StatusWriter.Counts.{counted_twice, is_faulty, settled}
use mosona_manager.StatusWriter.Account.{run_balance}
use mosona_manager.StatusWriter.Drain.{drain}
use mosona_manager.StatusWriter.Shutdown.{IsDrained, shutdown_lem, after_stop}
use mosona_manager.Prelude.{
  Bool, List, [], arith, false, length, refl, replicate, true, ℕ, ◌+◌, ◌∷◌, ◌≡◌, ◌≤◌,
}

abbrev config : Config
config = record { batch_size = 2; write_attempts = 2 }

-- three points come into a queue of two, and the worker takes the two that are left
abbrev events : List (Event ℕ)
events =
    enqueues false 1
    ∷ enqueues false 2
    ∷ notifies
    ∷ enqueues false 3
    ∷ records_drop
    ∷ works on_wake
    ∷ enqueues true 9
    ∷ enqueues false 4
    ∷ works write_error
    ∷ []

after_events :
    ((reached config 2 events).batch ≡ 2 ∷ 3 ∷ [])
    × ((reached config 2 events).phase ≡ pausing 2)
    × ((reached config 2 events).metrics.dropped ≡ 1)
    × (pending ring_ops (reached config 2 events) ≡ 3)
unfolding run apply new_processor new_ring push_locked take_at_most
after_events = (refl, refl, refl, refl)

run-refines_example :
    Alike (Holds 2) (reached config 2 events) (run (fifo_ops 2) config events (new_processor []))
run-refines_example = run-refines config 2 events (omega arith)

run_balance_example :
    let p = reached config 2 events in
    (is_faulty p.phase ≡ false)
    × (length p.batch ≤ 2)
    × (pending ring_ops p ≤ 2 + 2)
    × (p.metrics.enqueued + counted_twice p.phase (length p.batch)
        ≡ settled p.phase p + pending ring_ops p)
run_balance_example = run_balance config 2 events (omega arith)

-- the second attempt fails too, and the last batch is written
abbrev writes : List Bool
writes = false ∷ false ∷ true ∷ replicate 20 true

shutdown_lem_example :
    let s = after_stop config (reached config 2 events) in
    IsDrained s (drain ring_ops config writes s)
unfolding run apply new_processor new_ring push_locked take_at_most
shutdown_lem_example =
    shutdown_lem config 2 events writes (omega arith) (omega arith) refl refl (omega arith)
