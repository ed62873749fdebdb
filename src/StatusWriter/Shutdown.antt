-- ===== src/StatusWriter/Shutdown.antt =====
-- A shutdown writes or gives up every point that was accepted, and drops none.
use mathlib.Core.Path.{subst}
use mosona_manager.StatusWriter.Ring.{QueueOps, Ring, ring_ops, fifo_ops}
use mosona_manager.StatusWriter.Slots.{Holds}
use mosona_manager.StatusWriter.Holds.{Simulates, ring-Simulates}
use mosona_manager.StatusWriter.Worker.{
  Phase, Config, Processor, stop_accepting, apply, pending, taking, waiting, filling, gathering,
  completing, finished, faulty, writing, pausing, dropping, works, Event, new_processor, reached,
  notify,
}
use mosona_manager.StatusWriter.Refines.{with_queue, Alike, apply-Alike, run-refines}
use mosona_manager.StatusWriter.Counts.{Balanced}
use mosona_manager.StatusWriter.Account.{apply-Balanced, run-Balanced, new_processor-Balanced}
use mosona_manager.StatusWriter.Drain.{
  answer, drain, steps_left, is_dropping, drain-ends, Draining, EndsFrom,
}
use mosona_manager.Prelude.{
  Bool, List, [], arith, false, length, refl, same, sym, true, ℕ, ◌+◌, ◌-◌, ◌<◌, ◌==◌, ◌∷◌, ◌≡◌,
  ◌≢◌, ◌≤◌,
}

-- the worker has ended, or is about to after it dropped what was left
abbrev pub is_ended : Phase → Bool
is_ended finished = true
is_ended (dropping n) = true
is_ended _ = false

not_dropping : (f : Phase) → is_ended f ≡ false → (is_dropping f ≡ false) × (f ≢ finished)
not_dropping taking e = (refl, λ q. cc q)
not_dropping waiting e = (refl, λ q. cc q)
not_dropping filling e = (refl, λ q. cc q)
not_dropping gathering e = (refl, λ q. cc q)
not_dropping completing e = (refl, λ q. cc q)
not_dropping (writing n) e = (refl, λ q. cc q)
not_dropping (pausing n) e = (refl, λ q. cc q)
not_dropping faulty e = (refl, λ q. cc q)
not_dropping finished e = absurd (cc e)
not_dropping (dropping n) e = absurd (cc e)

module _ {A Q P : Type 0} (a : QueueOps A Q) (b : QueueOps A P) (R : Q → P → Type 0)
    (sim : Simulates a b R) (config : Config) where
  drain-Alike :
      (oks : List Bool) (p : Processor A Q) (q : P)
      → R p.queue q
      → Alike R (drain a config oks p) (drain b config oks (with_queue q p))
  unfolding drain
  drain-Alike [] p q r = (q, r, refl)
  drain-Alike (ok ∷ oks) p q r =
      let e = works (answer p.phase ok) in
      let (q', r', same) = apply-Alike a b R sim config e p q r in
      rw same (drain-Alike oks (apply a config e p) q' r')

drain-Balanced :
    {A : Type 0} (capacity : ℕ) (config : Config) (oks : List Bool) (p : Processor A (List A))
    → 0 < capacity
    → Balanced capacity config p.phase p
    → let o = drain (fifo_ops capacity) config oks p in Balanced capacity config o.phase o
unfolding drain
drain-Balanced capacity config [] p positive h = h
drain-Balanced capacity config (ok ∷ oks) p positive h =
    let e = works (answer p.phase ok) in
    drain-Balanced capacity config oks (apply (fifo_ops capacity) config e p) positive
      (apply-Balanced capacity config e p positive h)

-- the account of a shutdown
abbrev pub IsDrained : {A : Type 0} → Processor A (Ring A) → Processor A (Ring A) → Type 0
IsDrained p d =
    (d.phase ≡ finished)
    × (pending ring_ops d ≡ 0)
    × (d.metrics.dropped ≡ p.metrics.dropped)
    × (d.metrics.enqueued ≡ d.metrics.written + d.metrics.failed + d.metrics.dropped + d.unrecorded)

-- `stopAccepting`, its `notify` included
abbrev pub after_stop : {A : Type 0} → Config → Processor A (Ring A) → Processor A (Ring A)
after_stop config p = notify ring_ops config (stop_accepting ring_ops config p)

is_not_zero : (n : ℕ) → (n + 1 == 0) ≡ false
is_not_zero n = ground arith

stop-notify :
    {A : Type 0} (config : Config) (p : Processor A (Ring A))
    → after_stop config p
      ≡ record p { accepting = false; wake = true; unnotified = p.unnotified + 1 - 1 }
unfolding stop_accepting notify
stop-notify config p = rw (is_not_zero p.unnotified) refl

stop-Balanced :
    {A : Type 0} (capacity : ℕ) (config : Config) (p : Processor A (Ring A)) (xs : List A)
    → Balanced capacity config p.phase (with_queue xs p)
    → Balanced capacity config p.phase (with_queue xs (after_stop config p))
stop-Balanced capacity config p xs h = rw (stop-notify config p) (record {
  balance = h.balance;
  held = h.held;
  resting = h.resting;
  fits = h.fits;
  bounded = h.bounded;
  sound = h.sound;
})

stop-Draining :
    {A : Type 0} (capacity : ℕ) (config : Config) (batch : 0 < config.batch_size)
    (p : Processor A (Ring A)) (xs : List A)
    → Balanced capacity config p.phase (with_queue xs p)
    → p.cancelled ≡ false
    → is_ended p.phase ≡ false
    → Draining capacity config batch p.phase (with_queue xs (after_stop config p))
stop-Draining capacity config batch p xs bal live open_ = rw (stop-notify config p) (record {
  closed = refl;
  uncancelled = live;
  awake = λ e. refl;
  emptied = λ e. absurd ((not_dropping p.phase open_).1 e);
  unharmed = bal.sound;
  kept = (not_dropping p.phase open_).0;
})

stop_same :
    {A : Type 0} (config : Config) (p : Processor A (Ring A))
    → let s = after_stop config p in
      (s.phase ≡ p.phase) × (s.queue ≡ p.queue) × (s.metrics ≡ p.metrics)
stop_same config p = rw (stop-notify config p) (refl, refl, refl)

drained :
    {A : Type 0} (capacity : ℕ) (config : Config) (oks : List Bool) (s : Processor A (Ring A))
    (xs : List A) (positive : 0 < capacity) (batch : 0 < config.batch_size)
    → Holds capacity s.queue xs
    → Balanced capacity config s.phase (with_queue xs s)
    → Draining capacity config batch s.phase (with_queue xs s)
    → steps_left config.write_attempts (ring_ops.count s.queue) s.phase ≤ length oks
    → IsDrained s (drain ring_ops config oks s)
drained capacity config oks s xs positive batch held bal d enough =
    let ends =
      drain-ends capacity config batch oks (with_queue xs s) d (rw (sym held.sized) enough) in
    let (q, r, alike) =
      drain-Alike ring_ops (fifo_ops capacity) (Holds capacity) (ring-Simulates capacity positive)
        config oks s xs held in
    let o = drain ring_ops config oks s in
    let (done, none_left, same, same') =
      subst (EndsFrom capacity config batch (with_queue xs s)) alike ends in
    let b =
      subst (λ f. Balanced capacity config f (with_queue q o)) done
        (subst (λ x. Balanced capacity config x.phase x) alike
          (drain-Balanced capacity config oks (with_queue xs s) positive bal)) in
    (
      done,
      omega (arith, b.held, b.resting refl, r.sized, none_left),
      same,
      omega (arith, b.balance, b.held, b.resting refl, none_left),
    )

-- After `stopAccepting`, a worker that has not ended and whose context is not done ends within a
-- bounded number of steps (an attempt and a pause for each try of each batch), whatever the writer
-- answers; then no point is pending, none was dropped by the shutdown, and every point that was
-- ever accepted was written, given up after the last attempt, or dropped before.
pub shutdown_lem :
    {A : Type 0} (config : Config) (capacity : ℕ) (es : List (Event A)) (oks : List Bool)
    → 0 < capacity
    → 0 < config.batch_size
    → let p = reached config capacity es in
      p.cancelled ≡ false
      → is_ended p.phase ≡ false
      → steps_left config.write_attempts (ring_ops.count p.queue) p.phase ≤ length oks
      → let s = after_stop config p in IsDrained s (drain ring_ops config oks s)
shutdown_lem config capacity es oks positive batch live open_ enough =
    let p = reached config capacity es in
    let (xs, held, same) = run-refines config capacity es positive in
    let bal =
      subst (λ q. Balanced capacity config q.phase q) same
        (run-Balanced capacity config es (new_processor []) positive
          (new_processor-Balanced capacity config)) in
    let (f, q, m) = stop_same config p in
    let s = after_stop config p in
    drained capacity config oks s xs positive batch (rw q held)
      (subst (λ g. Balanced capacity config g (with_queue xs s)) (sym f)
        (stop-Balanced capacity config p xs bal))
      (subst (λ g. Draining capacity config batch g (with_queue xs s)) (sym f)
        (stop-Draining capacity config batch p xs bal live open_))
      (rw (f, q) enough)
