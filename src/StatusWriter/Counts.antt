-- ===== src/StatusWriter/Counts.antt =====
-- The counters of the processor: every point that was accepted is accounted for.
use mathlib.Core.Path.{subst}
use mosona_manager.StatusWriter.Ring.{fifo_ops}
use mosona_manager.StatusWriter.Worker.{
  Phase, Config, Processor, drop_remaining, took, if_cancelled, taking, waiting, completing,
  finished, faulty, dropping, Metrics, record_drop, took_more, woken, after_failure, filling,
  writing, pausing,
}
use mosona_manager.Prelude.{
  Bool, List, arith, drop, false, if◌then◌else◌, length, length-append, length-drop, length-take,
  ltb, refl, sym, take, true, ℕ, ◌+◌, ◌-◌, ◌≡◌, ◌≤◌,
}

-- the points of a batch that is counted as written or failed, and is not completed yet
abbrev pub counted_twice : Phase → ℕ → ℕ
counted_twice completing n = n
counted_twice _ n = 0

-- the points that are about to be recorded as dropped
abbrev pub being_dropped : Phase → ℕ
being_dropped (dropping n) = n
being_dropped _ = 0

-- the worker holds no batch
abbrev pub is_resting : Phase → Bool
is_resting taking = true
is_resting waiting = true
is_resting finished = true
is_resting (dropping n) = true
is_resting _ = false

abbrev pub is_faulty : Phase → Bool
is_faulty faulty = true
is_faulty _ = false

-- the points that were counted as written, failed or dropped, or will be as dropped
abbrev pub settled : {A Q : Type 0} → Phase → Processor A Q → ℕ
settled f p =
    p.metrics.written + p.metrics.failed + p.metrics.dropped + p.unrecorded + being_dropped f

pub record_drop-dropped : (n : ℕ) (m : Metrics) → (record_drop n m).dropped ≡ m.dropped + n
unfolding record_drop
record_drop-dropped n m = ground arith

pub record_drop-others :
    (n : ℕ) (m : Metrics)
    → ((record_drop n m).enqueued ≡ m.enqueued)
      × ((record_drop n m).written ≡ m.written)
      × ((record_drop n m).failed ≡ m.failed)
unfolding record_drop
record_drop-others n m = ground arith

module _ {A : Type 0} (capacity : ℕ) (config : Config) where
  -- what holds of the processor in a phase
  pub record Balanced (f : Phase) (p : Processor A (List A)) : Type 0 where
    pub balance :
        p.metrics.enqueued + counted_twice f (length p.batch)
        ≡ settled f p + length p.queue + p.in_flight
    pub held : p.in_flight ≡ length p.batch
    pub resting : is_resting f ≡ true → length p.batch ≡ 0
    pub fits : length p.batch ≤ config.batch_size
    pub bounded : length p.queue ≤ capacity
    pub sound : is_faulty f ≡ false

  pub drop_remaining-Balanced :
      (f : Phase) (p : Processor A (List A))
      → counted_twice f (length p.batch) ≡ 0
      → being_dropped f ≡ 0
      → Balanced f p
      → Balanced
          (drop_remaining (fifo_ops capacity) config p).phase
          (drop_remaining (fifo_ops capacity) config p)
  unfolding drop_remaining
  drop_remaining-Balanced f p c d h = record {
    balance = omega (arith, h.balance);
    held = refl;
    resting = λ e. refl;
    fits = omega arith;
    bounded = omega arith;
    sound = refl;
  }

  pub if_cancelled-Balanced :
      (f : Phase) (p : Processor A (List A))
      → p.phase ≡ f
      → counted_twice f (length p.batch) ≡ 0
      → being_dropped f ≡ 0
      → Balanced f p
      → Balanced
          (if_cancelled (fifo_ops capacity) config p).phase
          (if_cancelled (fifo_ops capacity) config p)
  if_cancelled-Balanced f p e c d h = by_test p.cancelled
    where
      by_test :
          (t : Bool)
          → Balanced
              (if t then drop_remaining (fifo_ops capacity) config p else p).phase
              (if t then drop_remaining (fifo_ops capacity) config p else p)
      by_test true = drop_remaining-Balanced f p c d h
      by_test false = subst (λ g. Balanced g p) (sym e) h

  pub took-Balanced :
      (p : Processor A (List A))
      → Balanced taking p
      → let o =
          took (fifo_ops capacity) config ((fifo_ops capacity).pop config.batch_size p.queue) p in
        Balanced o.phase o
  took-Balanced p h = record {
    balance = ground (arith, h.balance, h.resting refl, h.held, sizes);
    held = ground (arith, h.resting refl, h.held);
    resting = λ e. ground arith;
    fits = omega (arith, length-take config.batch_size p.queue);
    bounded = omega (arith, h.bounded, length-drop config.batch_size p.queue);
    sound = ground arith;
  }
    where
      sizes :
          length (take config.batch_size p.queue) + length (drop config.batch_size p.queue)
          ≡ length p.queue
      sizes =
          omega
            (arith, length-take config.batch_size p.queue, length-drop config.batch_size p.queue)

  pub took_more-Balanced :
      (p : Processor A (List A))
      → Balanced filling p
      → let o =
          took_more
            (fifo_ops capacity)
            config
            ((fifo_ops capacity).pop (config.batch_size - length p.batch) p.queue)
            p in
        Balanced o.phase o
  took_more-Balanced p h =
      let k = config.batch_size - length p.batch in
      let taken = length-take k p.queue in
      let left = length-drop k p.queue in
      let both = length-append p.batch (take k p.queue) in
      record {
        balance = ground (arith, h.balance, taken, left);
        held = omega (arith, h.held, both);
        resting = λ e. ground arith;
        fits = omega (arith, h.fits, taken, both);
        bounded = omega (arith, h.bounded, left);
        sound = ground arith;
      }

  pub woken-Balanced :
      (f g : Phase) (p : Processor A (List A))
      → p.phase ≡ f
      → Balanced f p
      → Balanced g p
      → Balanced (woken (fifo_ops capacity) config g p).phase (woken (fifo_ops capacity) config g p)
  woken-Balanced f g p e h k = by_test p.wake
    where
      by_test :
          (t : Bool)
          → Balanced
              (if t then record p { wake = false; phase = g } else p).phase
              (if t then record p { wake = false; phase = g } else p)
      by_test true = record {
        balance = k.balance;
        held = k.held;
        resting = k.resting;
        fits = k.fits;
        bounded = k.bounded;
        sound = k.sound;
      }
      by_test false = subst (λ g'. Balanced g' p) (sym e) h

  -- a change of phase that moves no point
  pub moved :
      (f g : Phase) (p : Processor A (List A))
      → counted_twice f (length p.batch) ≡ counted_twice g (length p.batch)
      → being_dropped f ≡ being_dropped g
      → (is_resting g ≡ true → is_resting f ≡ true)
      → is_faulty g ≡ false
      → Balanced f p
      → Balanced g p
  moved f g p c d r s h = record {
    balance = omega (arith, h.balance);
    held = h.held;
    resting = λ e. h.resting (r e);
    fits = h.fits;
    bounded = h.bounded;
    sound = s;
  }

  pub after_failure-Balanced :
      (n : ℕ) (p : Processor A (List A))
      → Balanced (writing n) p
      → Balanced
          (after_failure (fifo_ops capacity) config n p).phase
          (after_failure (fifo_ops capacity) config n p)
  unfolding after_failure drop_remaining
  after_failure-Balanced n p h = by_tests p.cancelled (ltb n config.write_attempts)
    where
      by_tests :
          (t u : Bool)
          → let o =
              if t
              then drop_remaining (fifo_ops capacity) config p
              else if u
              then record p {
                phase = pausing (n + 1);
                metrics = record p.metrics { retried = p.metrics.retried + 1 };
              }
              else record p {
                phase = completing;
                metrics = record p.metrics {
                  failed = p.metrics.failed + length p.batch;
                  failure_events = p.metrics.failure_events + 1;
                };
              } in
            Balanced o.phase o
      by_tests true u = drop_remaining-Balanced (writing n) p refl refl h
      by_tests false true = record {
        balance = h.balance;
        held = h.held;
        resting = λ e. absurd (cc e);
        fits = h.fits;
        bounded = h.bounded;
        sound = refl;
      }
      by_tests false false = record {
        balance = omega (arith, h.balance);
        held = h.held;
        resting = λ e. absurd (cc e);
        fits = h.fits;
        bounded = h.bounded;
        sound = refl;
      }
