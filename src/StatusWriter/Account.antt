-- ===== src/StatusWriter/Account.antt =====
-- Each step of the processor keeps the account of its points.
use mathlib.Core.Path.{subst}
use mosona_manager.StatusWriter.Ring.{ring_ops, fifo_ops}
use mosona_manager.StatusWriter.Worker.{
  Config, Processor, Event, record_drop, enqueue, record_one_drop, notify, stop_accepting, apply,
  run, new_processor, pending, reached, enqueues, records_drop, notifies, stops, cancels, works,
}
use mosona_manager.StatusWriter.Refines.{run-refines}
use mosona_manager.StatusWriter.Counts.{counted_twice, is_faulty, settled, Balanced}
use mosona_manager.StatusWriter.Working.{work-Balanced}
use mosona_manager.Prelude.{
  Bool, Bool-cases, List, [], arith, drop, false, inl, inr, length, length-append, length-drop,
  refl, same, true, ℕ, ◌+◌, ◌<◌, ◌==◌, ◌∷◌, ◌≡◌, ◌≤◌,
}

module _ {A : Type 0} (capacity : ℕ) (config : Config) where
  enqueue-Balanced :
      (done : Bool) (x : A) (p : Processor A (List A))
      → 0 < capacity
      → Balanced capacity config p.phase p
      → Balanced capacity config
          (enqueue (fifo_ops capacity) config done x p).1.phase
          (enqueue (fifo_ops capacity) config done x p).1
  unfolding enqueue
  enqueue-Balanced true x p positive h = h
  enqueue-Balanced false x p positive h = elim (Bool-cases p.accepting) [
    | inr e ↦ simp e h
    | inl e ↦ elim (Bool-cases (length p.queue == capacity)) [
      | inl full ↦
          simp (e, full)
            (record {
              balance = omega (
                arith,
                h.balance,
                length-append (drop 1 p.queue) (x ∷ []),
                length-drop 1 p.queue,
                is_full full,
              );
              held = h.held;
              resting = h.resting;
              fits = h.fits;
              bounded = omega (
                arith,
                h.bounded,
                length-append (drop 1 p.queue) (x ∷ []),
                length-drop 1 p.queue,
              );
              sound = h.sound;
            })
      | inr room ↦
          simp (e, room)
            (record {
              balance = omega (arith, h.balance, length-append p.queue (x ∷ []));
              held = h.held;
              resting = h.resting;
              fits = h.fits;
              bounded = omega (arith, length-append p.queue (x ∷ []), has_room room);
              sound = h.sound;
            })
    ]
  ]
    where
      is_full : (length p.queue == capacity) ≡ true → length p.queue ≡ capacity
      is_full t = ground arith

      has_room : (length p.queue == capacity) ≡ false → length p.queue < capacity
      has_room t = ground (arith, h.bounded)

  pub apply-Balanced :
      (e : Event A) (p : Processor A (List A))
      → 0 < capacity
      → Balanced capacity config p.phase p
      → Balanced capacity config
          (apply (fifo_ops capacity) config e p).phase
          (apply (fifo_ops capacity) config e p)
  unfolding apply record_one_drop notify stop_accepting record_drop
  apply-Balanced (enqueues done x) p positive h = enqueue-Balanced done x p positive h
  apply-Balanced notifies p positive h = elim (Bool-cases (p.unnotified == 0)) [
    | inl e ↦ simp e h
    | inr e ↦ simp e (record {
      balance = h.balance;
      held = h.held;
      resting = h.resting;
      fits = h.fits;
      bounded = h.bounded;
      sound = h.sound;
    })
  ]
  apply-Balanced records_drop p positive h = elim (Bool-cases (p.unrecorded == 0)) [
    | inl e ↦ simp e h
    | inr e ↦ simp e (record {
      balance = ground (arith, h.balance);
      held = h.held;
      resting = h.resting;
      fits = h.fits;
      bounded = h.bounded;
      sound = h.sound;
    })
  ]
  apply-Balanced stops p positive h = record {
    balance = h.balance;
    held = h.held;
    resting = h.resting;
    fits = h.fits;
    bounded = h.bounded;
    sound = h.sound;
  }
  apply-Balanced cancels p positive h = record {
    balance = h.balance;
    held = h.held;
    resting = h.resting;
    fits = h.fits;
    bounded = h.bounded;
    sound = h.sound;
  }
  apply-Balanced (works c) p positive h = work-Balanced capacity config p.phase c p refl h

  pub run-Balanced :
      (es : List (Event A)) (p : Processor A (List A))
      → 0 < capacity
      → Balanced capacity config p.phase p
      → Balanced capacity config
          (run (fifo_ops capacity) config es p).phase
          (run (fifo_ops capacity) config es p)
  unfolding run
  run-Balanced [] p positive h = h
  run-Balanced (e ∷ es) p positive h =
      run-Balanced es (apply (fifo_ops capacity) config e p) positive
        (apply-Balanced e p positive h)

pub new_processor-Balanced :
    {A : Type 0} (capacity : ℕ) (config : Config)
    → Balanced capacity config
        (new_processor {A = A} {Q = List A} []).phase
        (new_processor {A = A} {Q = List A} [])
unfolding new_processor
new_processor-Balanced capacity config = record {
  balance = omega arith;
  held = omega arith;
  resting = λ e. refl;
  fits = omega arith;
  bounded = omega arith;
  sound = refl;
}

-- Whatever its users, the writer and the timers do, the processor never meets an empty slot, holds
-- at most one batch and a full queue of points, and has for every point that it accepted exactly one
-- of these: it is pending, was written, was given up after the last attempt, was dropped, or its
-- drop is about to be recorded. (The points of a batch that is written or given up stay pending
-- until the batch is completed.)
pub run_balance :
    {A : Type 0} (config : Config) (capacity : ℕ) (es : List (Event A))
    → 0 < capacity
    → let p = reached config capacity es in
      (is_faulty p.phase ≡ false)
      × (length p.batch ≤ config.batch_size)
      × (pending ring_ops p ≤ capacity + config.batch_size)
      × (p.metrics.enqueued + counted_twice p.phase (length p.batch)
          ≡ settled p.phase p + pending ring_ops p)
run_balance config capacity es positive =
    let (xs, held, same) = run-refines config capacity es positive in
    let b =
      run-Balanced capacity config es (new_processor []) positive
        (new_processor-Balanced capacity config) in
    let c = subst (λ q. Balanced capacity config q.phase q) same b in
    (
      c.sound,
      c.fits,
      omega (arith, c.bounded, c.fits, c.held, held.sized),
      omega (arith, c.balance, held.sized),
    )
