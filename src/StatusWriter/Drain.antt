-- ===== src/StatusWriter/Drain.antt =====
-- A shutdown: no more points are accepted, and the worker empties the queue and ends.
use mathlib.Core.Path.{subst}
use native.Mathlib.Nat.{mul-le-mul_right}
use mosona_manager.StatusWriter.Ring.{QueueOps, fifo_ops}
use mosona_manager.StatusWriter.Worker.{
  Phase, Config, Processor, Choice, work, apply, taking, waiting, filling, gathering, completing,
  finished, faulty, writing, pausing, dropping, on_wake, on_timer, write_ok, write_error, works,
  Metrics, after_failure, drop_remaining,
}
use mosona_manager.StatusWriter.Counts.{is_faulty}
use mosona_manager.Prelude.{
  Bool, Bool-cases, List, [], ap, arith, drop, false, if◌then◌else◌, inl, inr, length, length-drop,
  length-take, ltb, ltb→lt, refl, same, sym, take, true, ℕ, ◌*◌, ◌+◌, ◌-◌, ◌<◌, ◌==◌, ◌∙◌, ◌∷◌, ◌≡◌,
  ◌≤◌, ◌⊎◌,
}

-- what a worker gets that is left alone: its timers fire, its wake-ups come, and the writer
-- succeeds or fails
abbrev pub answer : Phase → Bool → Choice
answer waiting ok = on_wake
answer gathering ok = on_timer
answer (pausing n) ok = on_timer
answer _ true = write_ok
answer _ false = write_error

-- the worker's steps, one for each answer of the writer
unfoldable pub drain :
    {A Q : Type 0} → QueueOps A Q → Config → List Bool → Processor A Q → Processor A Q
drain ops config [] p = p
drain ops config (ok ∷ oks) p =
    drain ops config oks (apply ops config (works (answer p.phase ok)) p)

-- the steps that are left, at most
abbrev pub phase_steps : ℕ → Phase → ℕ
phase_steps attempts finished = 0
phase_steps attempts taking = 1
phase_steps attempts (dropping n) = 1
phase_steps attempts waiting = 2
phase_steps attempts completing = 2
phase_steps attempts (writing n) = 2 * (attempts - n) + 3
phase_steps attempts (pausing n) = 2 * (attempts - n) + 4
phase_steps attempts filling = 2 * attempts + 4
phase_steps attempts gathering = 2 * attempts + 4
phase_steps attempts faulty = 0

abbrev pub steps_left : ℕ → ℕ → Phase → ℕ
steps_left attempts points f = phase_steps attempts f + points * (2 * attempts + 4)

abbrev pub is_dropping : Phase → Bool
is_dropping (dropping n) = true
is_dropping _ = false

finished_or :
    (attempts : ℕ) (f : Phase) → is_faulty f ≡ false → (f ≡ finished) ⊎ (0 < phase_steps attempts f)
finished_or attempts finished s = inl refl
finished_or attempts taking s = inr (omega arith)
finished_or attempts waiting s = inr (omega arith)
finished_or attempts filling s = inr (omega arith)
finished_or attempts gathering s = inr (omega arith)
finished_or attempts completing s = inr (omega arith)
finished_or attempts (writing n) s = inr (omega arith)
finished_or attempts (pausing n) s = inr (omega arith)
finished_or attempts (dropping n) s = inr (omega arith)
finished_or attempts faulty s = absurd (cc s)

-- taking some of the points takes their steps away
points_taken : (n m w : ℕ) → m < n → m * w + w ≤ n * w
points_taken n m w h = grind arith

module _ {A : Type 0} (capacity : ℕ) (config : Config) (positive : 0 < config.batch_size) where
  -- a processor that no longer accepts points, and whose context is not done
  pub record Draining (f : Phase) (p : Processor A (List A)) : Type 0 where
    pub closed : p.accepting ≡ false
    pub uncancelled : p.cancelled ≡ false
    pub awake : f ≡ waiting → p.wake ≡ true
    pub emptied : f ≡ finished → length p.queue ≡ 0
    pub unharmed : is_faulty f ≡ false
    pub kept : is_dropping f ≡ false

  -- a step keeps this, drops nothing, and brings the end nearer
  record Nearer (f : Phase) (p p' : Processor A (List A)) : Type 0 where
    draining : Draining p'.phase p'
    dropped : p'.metrics.dropped ≡ p.metrics.dropped
    unrecorded : p'.unrecorded ≡ p.unrecorded
    less :
        steps_left config.write_attempts (length p'.queue) p'.phase
        ≤ steps_left config.write_attempts (length p.queue) f - 1

  step : (f : Phase) (ok : Bool) (p : Processor A (List A)) → Processor A (List A)
  step f ok p = work (fifo_ops capacity) config f (answer f ok) p

  taking-Nearer :
      (ok : Bool) (p : Processor A (List A))
      → Draining taking p
      → Nearer taking p (step taking ok p)
  unfolding step work
  taking-Nearer ok p d =
      let taken = length-take config.batch_size p.queue in
      let left = length-drop config.batch_size p.queue in
      let w : ℕ = 2 * config.write_attempts + 4 in
      record {
        draining = record {
          closed = d.closed;
          uncancelled = d.uncancelled;
          awake = λ e. ground (arith, d.closed);
          emptied = λ e. ground (arith, d.closed, taken, left);
          unharmed = ground arith;
          kept = ground arith;
        };
        dropped = refl;
        unrecorded = refl;
        less = elim (Bool-cases (length (take config.batch_size p.queue) == 0)) [
          | inl none_ ↦ simp (none_, d.closed) (ground (arith, taken, left))
          | inr some_ ↦
              let fewer : length (drop config.batch_size p.queue) < length p.queue =
                ground (arith, taken, left) in
              ground (
                arith,
                d.closed,
                points_taken (length p.queue) (length (drop config.batch_size p.queue)) w fewer,
              )
        ];
      }

  filling-Nearer :
      (ok : Bool) (p : Processor A (List A))
      → Draining filling p
      → Nearer filling p (step filling ok p)
  unfolding step work
  filling-Nearer ok p d =
      let k = config.batch_size - length p.batch in
      let left = length-drop k p.queue in
      let w : ℕ = 2 * config.write_attempts + 4 in
      let fewer : length (drop k p.queue) * w ≤ length p.queue * w =
        mul-le-mul_right w (omega (arith, left)) in
      record {
        draining = record {
          closed = d.closed;
          uncancelled = d.uncancelled;
          awake = λ e. ground (arith, d.closed);
          emptied = λ e. ground (arith, d.closed);
          unharmed = ground (arith, d.closed);
          kept = ground (arith, d.closed);
        };
        dropped = refl;
        unrecorded = refl;
        less = ground (arith, d.closed, fewer);
      }

  -- a step that only changes the phase and counters
  moves :
      (f g : Phase) (p : Processor A (List A)) (w : Bool) (m : Metrics) (b : List A) (i : ℕ)
      → (g ≡ waiting → ⊥)
      → (g ≡ finished → ⊥)
      → is_faulty g ≡ false
      → is_dropping g ≡ false
      → m.dropped ≡ p.metrics.dropped
      → phase_steps config.write_attempts g < phase_steps config.write_attempts f
      → Draining f p
      → Nearer f p (record p { phase = g; wake = w; metrics = m; batch = b; in_flight = i })
  moves f g p w m b i nw nf sound nd same l d = record {
    draining = record {
      closed = d.closed;
      uncancelled = d.uncancelled;
      awake = λ e. absurd (nw e);
      emptied = λ e. absurd (nf e);
      unharmed = sound;
      kept = nd;
    };
    dropped = same;
    unrecorded = refl;
    less = omega (arith, l);
  }

  failed-Nearer :
      (n : ℕ) (p : Processor A (List A))
      → Draining (writing n) p
      → Nearer (writing n) p (after_failure (fifo_ops capacity) config n p)
  unfolding after_failure
  failed-Nearer n p d = by_tests p.cancelled (ltb n config.write_attempts) d.uncancelled refl
    where
      by_tests :
          (t u : Bool)
          → t ≡ false
          → ltb n config.write_attempts ≡ u
          → Nearer (writing n) p (
              if t
              then drop_remaining (fifo_ops capacity) config p
              else if u
              then record p {
                phase = pausing (n + 1);
                metrics = record p.metrics { retried = p.metrics.retried + 1 };
              }
              else record p {
                phase = completing;
                metrics = record p.metrics {
                  failed = p.metrics.failed + length p.batch;
                  failure_events = p.metrics.failure_events + 1;
                };
              })
      by_tests true u e k = absurd (cc e)
      by_tests false true e k =
          moves (writing n) (pausing (n + 1)) p p.wake
            (record p.metrics { retried = p.metrics.retried + 1 }) p.batch p.in_flight (λ e. cc e)
            (λ e. cc e) refl refl refl (omega (arith, ltb→lt n config.write_attempts k)) d
      by_tests false false e k =
          moves (writing n) completing p p.wake
            (record p.metrics {
              failed = p.metrics.failed + length p.batch;
              failure_events = p.metrics.failure_events + 1;
            })
            p.batch p.in_flight (λ e. cc e) (λ e. cc e) refl refl refl (omega arith) d

  step-Nearer :
      (f : Phase) (ok : Bool) (p : Processor A (List A))
      → 0 < phase_steps config.write_attempts f
      → Draining f p
      → Nearer f p (step f ok p)
  unfolding step work
  step-Nearer taking ok p l d = taking-Nearer ok p d
  step-Nearer filling ok p l d = filling-Nearer ok p d
  step-Nearer waiting ok p l d = simp (d.awake refl) (
      moves waiting taking p false p.metrics p.batch p.in_flight (λ e. cc e) (λ e. cc e) refl refl
        refl (omega arith) d)
  step-Nearer gathering ok p l d =
      moves gathering (writing 1) p p.wake p.metrics p.batch p.in_flight (λ e. cc e) (λ e. cc e)
        refl refl refl (omega arith) d
  step-Nearer (writing n) true p l d =
      moves (writing n) completing p p.wake
        (record p.metrics { written = p.metrics.written + length p.batch }) p.batch p.in_flight
        (λ e. cc e) (λ e. cc e) refl refl refl (omega arith) d
  step-Nearer (writing n) false p l d = failed-Nearer n p d
  step-Nearer (pausing n) ok p l d =
      moves (pausing n) (writing n) p p.wake p.metrics p.batch p.in_flight (λ e. cc e) (λ e. cc e)
        refl refl refl (omega arith) d
  step-Nearer completing ok p l d =
      moves completing taking p p.wake p.metrics [] (p.in_flight - length p.batch) (λ e. cc e)
        (λ e. cc e) refl refl refl (omega arith) d
  step-Nearer (dropping n) ok p l d = absurd (cc d.kept)
  step-Nearer finished ok p l d = absurd (omega arith)
  step-Nearer faulty ok p l d = absurd (omega arith)

  -- the worker has ended with an empty queue, and dropped nothing on the way
  abbrev pub EndsFrom : Processor A (List A) → Processor A (List A) → Type 0
  EndsFrom p o =
      (o.phase ≡ finished)
      × (length o.queue ≡ 0)
      × (o.metrics.dropped ≡ p.metrics.dropped)
      × (o.unrecorded ≡ p.unrecorded)

  pub drain-ends :
      (oks : List Bool) (p : Processor A (List A))
      → Draining p.phase p
      → steps_left config.write_attempts (length p.queue) p.phase ≤ length oks
      → EndsFrom p (drain (fifo_ops capacity) config oks p)
  unfolding drain apply work step
  drain-ends [] p d l = elim (finished_or config.write_attempts p.phase d.unharmed) [
    | inl e ↦ (e, d.emptied e, refl, refl)
    | inr more ↦ absurd (omega arith)
  ]
  drain-ends (ok ∷ oks) p d l = elim (finished_or config.write_attempts p.phase d.unharmed) [
    | inl e ↦
        let none_left : steps_left config.write_attempts (length p.queue) p.phase ≤ length oks =
          rw (e, d.emptied e) (omega arith) in
        let stays : work (fifo_ops capacity) config p.phase (answer p.phase ok) p ≡ p =
          ap (λ f. work (fifo_ops capacity) config f (answer p.phase ok) p) e in
        subst (λ o. EndsFrom p (drain (fifo_ops capacity) config oks o)) (sym stays)
          (drain-ends oks p d none_left)
    | inr more ↦
        let n = step-Nearer p.phase ok p more d in
        let (e, z, same, same') =
          drain-ends oks (step p.phase ok p) n.draining (omega (arith, n.less)) in
        (e, z, same ∙ n.dropped, same' ∙ n.unrecorded)
  ]
