-- ===== src/StatusWriter/Refines.antt =====
-- The processor over the ring does what the processor over the first-in first-out queue does.
use mosona_manager.StatusWriter.Ring.{QueueOps, new_ring, ring_ops, fifo_ops}
use mosona_manager.StatusWriter.Slots.{Holds}
use mosona_manager.StatusWriter.Holds.{Simulates, ring-Simulates, new_ring-Holds}
use mosona_manager.StatusWriter.Worker.{
  Config, Processor, pushed, drop_remaining, if_cancelled, after_failure, Phase, Choice, Event,
  enqueue, record_one_drop, stop_accepting, took, took_more, woken, work, apply, run, new_processor,
  taking, waiting, filling, gathering, completing, finished, faulty, writing, pausing, dropping,
  on_wake, on_timer, on_cancel, write_ok, write_error, enqueues, records_drop, stops, cancels,
  works, reached, notify, notifies, EnqueueAnswer,
}
use mosona_manager.Prelude.{
  Bool, List, [], false, if◌then◌else◌, length, ltb, not, refl, same, true, ℕ, ◌-◌, ◌<◌, ◌==◌, ◌∷◌,
  ◌≡◌,
}

-- the same processor with another queue
abbrev pub with_queue : {A Q P : Type 0} → P → Processor A Q → Processor A P
with_queue q p = record {
  queue = q;
  in_flight = p.in_flight;
  accepting = p.accepting;
  cancelled = p.cancelled;
  wake = p.wake;
  batch = p.batch;
  phase = p.phase;
  unrecorded = p.unrecorded;
  unnotified = p.unnotified;
  metrics = p.metrics;
}

-- the second processor is the first with a related queue
abbrev pub Alike : {A Q P : Type 0} → (Q → P → Type 0) → Processor A Q → Processor A P → Type 0
Alike {P = P} R p p' = (q : P) × R p.queue q × (p' ≡ with_queue q p)

-- either branch of the same test
if-Alike :
    {A Q P : Type 0} (R : Q → P → Type 0) (t : Bool) {x y : Processor A Q} {x' y' : Processor A P}
    → Alike R x x'
    → Alike R y y'
    → Alike R (if t then x else y) (if t then x' else y')
if-Alike R true h k = h
if-Alike R false h k = k

if_answer-Alike :
    {A Q P : Type 0} (R : Q → P → Type 0) (t : Bool) (c d : EnqueueAnswer) {x y : Processor A Q}
    {x' y' : Processor A P}
    → Alike R x x'
    → Alike R y y'
    → Alike R
        (if◌then◌else◌ {A = EnqueueAnswer × Processor A Q} t (c, x) (d, y)).1
        (if◌then◌else◌ {A = EnqueueAnswer × Processor A P} t (c, x') (d, y')).1
if_answer-Alike R true c d h k = h
if_answer-Alike R false c d h k = k

module _ {A Q P : Type 0} (a : QueueOps A Q) (b : QueueOps A P) (R : Q → P → Type 0)
    (sim : Simulates a b R) (config : Config) where
  pushed-Alike :
      (o : Q × Bool) (o' : P × Bool) (p : Processor A Q) (q : P)
      → R o.0 o'.0
      → o.1 ≡ o'.1
      → Alike R (pushed a config o p) (pushed b config o' (with_queue q p))
  pushed-Alike (o, lost) (o', lost') p q r e = (o', r, rw e refl)

  drop_remaining-Alike :
      (p : Processor A Q) (q : P)
      → R p.queue q
      → Alike R (drop_remaining a config p) (drop_remaining b config (with_queue q p))
  unfolding drop_remaining
  drop_remaining-Alike p q r = (b.clear q, sim.clears p.queue q r, rw (sim.counts p.queue q r) refl)

  if_cancelled-Alike :
      (p : Processor A Q) (q : P)
      → R p.queue q
      → Alike R (if_cancelled a config p) (if_cancelled b config (with_queue q p))
  if_cancelled-Alike p q r = if-Alike R p.cancelled (drop_remaining-Alike p q r) (q, r, refl)

  after_failure-Alike :
      (n : ℕ) (p : Processor A Q) (q : P)
      → R p.queue q
      → Alike R (after_failure a config n p) (after_failure b config n (with_queue q p))
  unfolding after_failure
  after_failure-Alike n p q r =
      if-Alike R p.cancelled (drop_remaining-Alike p q r)
        (if-Alike R (ltb n config.write_attempts) (q, r, refl) (q, r, refl))

  took-Alike :
      (k : ℕ) (p : Processor A Q) (q : P)
      → R p.queue q
      → Alike R (took a config (a.pop k p.queue) p) (took b config (b.pop k q) (with_queue q p))
  took-Alike k p q r =
      let (xs, s, s', e, e', r') = sim.pops k p.queue q r in rw (e, e') (s', r', refl)

  took_more-Alike :
      (k : ℕ) (p : Processor A Q) (q : P)
      → R p.queue q
      → Alike R
          (took_more a config (a.pop k p.queue) p)
          (took_more b config (b.pop k q) (with_queue q p))
  took_more-Alike k p q r =
      let (xs, s, s', e, e', r') = sim.pops k p.queue q r in rw (e, e') (s', r', refl)

  woken-Alike :
      (f : Phase) (p : Processor A Q) (q : P)
      → R p.queue q
      → Alike R (woken a config f p) (woken b config f (with_queue q p))
  woken-Alike f p q r = if-Alike R p.wake (q, r, refl) (q, r, refl)

  work-Alike :
      (f : Phase) (c : Choice) (p : Processor A Q) (q : P)
      → R p.queue q
      → Alike R (work a config f c p) (work b config f c (with_queue q p))
  unfolding work
  work-Alike taking c p q r = took-Alike config.batch_size p q r
  work-Alike waiting on_wake p q r = woken-Alike taking p q r
  work-Alike waiting on_cancel p q r = if_cancelled-Alike p q r
  work-Alike waiting on_timer p q r = (q, r, refl)
  work-Alike waiting write_ok p q r = (q, r, refl)
  work-Alike waiting write_error p q r = (q, r, refl)
  work-Alike filling c p q r = took_more-Alike (config.batch_size - length p.batch) p q r
  work-Alike gathering on_wake p q r = woken-Alike filling p q r
  work-Alike gathering on_timer p q r = (q, r, refl)
  work-Alike gathering on_cancel p q r = if_cancelled-Alike p q r
  work-Alike gathering write_ok p q r = (q, r, refl)
  work-Alike gathering write_error p q r = (q, r, refl)
  work-Alike (writing n) write_ok p q r = (q, r, refl)
  work-Alike (writing n) write_error p q r = after_failure-Alike n p q r
  work-Alike (writing n) on_wake p q r = (q, r, refl)
  work-Alike (writing n) on_timer p q r = (q, r, refl)
  work-Alike (writing n) on_cancel p q r = (q, r, refl)
  work-Alike (pausing n) on_timer p q r = (q, r, refl)
  work-Alike (pausing n) on_cancel p q r = if_cancelled-Alike p q r
  work-Alike (pausing n) on_wake p q r = (q, r, refl)
  work-Alike (pausing n) write_ok p q r = (q, r, refl)
  work-Alike (pausing n) write_error p q r = (q, r, refl)
  work-Alike completing c p q r = (q, r, refl)
  work-Alike (dropping n) c p q r = (q, r, refl)
  work-Alike finished c p q r = (q, r, refl)
  work-Alike faulty c p q r = (q, r, refl)

  enqueue-Alike :
      (done : Bool) (x : A) (p : Processor A Q) (q : P)
      → R p.queue q
      → Alike R (enqueue a config done x p).1 (enqueue b config done x (with_queue q p)).1
  unfolding enqueue
  enqueue-Alike true x p q r = (q, r, refl)
  enqueue-Alike false x p q r =
      let (r', same_flag) = sim.pushes x p.queue q r in
      if_answer-Alike R (not p.accepting) _ _ (q, r, refl)
        (pushed-Alike (a.push x p.queue) (b.push x q) p q r' same_flag)

  pub apply-Alike :
      (e : Event A) (p : Processor A Q) (q : P)
      → R p.queue q
      → Alike R (apply a config e p) (apply b config e (with_queue q p))
  unfolding apply enqueue record_one_drop notify stop_accepting
  apply-Alike (enqueues done x) p q r = enqueue-Alike done x p q r
  apply-Alike notifies p q r = if-Alike R (p.unnotified == 0) (q, r, refl) (q, r, refl)
  apply-Alike records_drop p q r = if-Alike R (p.unrecorded == 0) (q, r, refl) (q, r, refl)
  apply-Alike stops p q r = (q, r, refl)
  apply-Alike cancels p q r = (q, r, refl)
  apply-Alike (works c) p q r = work-Alike p.phase c p q r

  run-Alike :
      (es : List (Event A)) (p : Processor A Q) (q : P)
      → R p.queue q
      → Alike R (run a config es p) (run b config es (with_queue q p))
  unfolding run
  run-Alike [] p q r = (q, r, refl)
  run-Alike (e ∷ es) p q r =
      let (q', r', same) = apply-Alike e p q r in rw same (run-Alike es (apply a config e p) q' r')

-- Whatever its users, the writer and the timers do, the processor over the ring is at every moment
-- the processor over a bounded first-in first-out queue, with the ring holding the queue's points
-- in order and every other part, counters included, the same.
pub run-refines :
    {A : Type 0} (config : Config) (capacity : ℕ) (es : List (Event A))
    → 0 < capacity
    → Alike
        (Holds capacity)
        (reached config capacity es)
        (run (fifo_ops capacity) config es (new_processor []))
unfolding new_processor
run-refines config capacity es positive =
    run-Alike ring_ops (fifo_ops capacity) (Holds capacity) (ring-Simulates capacity positive)
      config es (new_processor (new_ring capacity)) [] (new_ring-Holds capacity positive)
