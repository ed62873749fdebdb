-- ===== src/StatusWriter/Worker.antt =====
-- `serverStatusProcessor`: the calls of its users and the steps of its worker `run`, over any
-- queue of points. A step is what happens between two points at which the worker waits or
-- releases the mutex; what a `select` or the writer answers is given from outside.
use mosona_manager.StatusWriter.Ring.{QueueOps, Ring, new_ring, ring_ops}
use mosona_manager.Prelude.{
  Bool, List, Option, [], false, if◌then◌else◌, length, ltb, none, not, some, true, ℕ, ◌&&◌, ◌++◌,
  ◌+◌, ◌-◌, ◌==◌, ◌||◌, ◌∷◌,
}

-- `serverStatusMetrics`; Go's uint64 counters do not come near their bound
pub record Metrics : Type 0 where
  pub enqueued : ℕ
  pub written : ℕ
  pub retried : ℕ
  pub failed : ℕ
  pub dropped : ℕ
  pub drop_events : ℕ
  pub failure_events : ℕ

-- where the worker is: about to take a batch, waiting for a first point, about to fill up a batch,
-- waiting for more, about to write (the attempt's number), pausing before an attempt, about to
-- complete a batch, about to record that so many points were dropped, or done
pub data Phase : Type 0 where
  taking waiting filling gathering completing finished faulty : Phase
  writing pausing dropping : ℕ → Phase

pub record Config : Type 0 where
  pub batch_size : ℕ
  pub write_attempts : ℕ

pub record Processor (A Q : Type 0) : Type 0 where
  pub queue : Q
  pub in_flight : ℕ
  pub accepting : Bool
  -- the processor's context is done
  pub cancelled : Bool
  -- `wake` holds a token
  pub wake : Bool
  pub batch : List A
  pub phase : Phase
  -- calls of `enqueue` that have dropped a point and not recorded it yet
  pub unrecorded : ℕ
  -- calls of `enqueue` and `stopAccepting` that have not called `notify` yet
  pub unnotified : ℕ
  pub metrics : Metrics

-- what a `select` or the writer answers
pub data Choice : Type 0 where
  on_wake on_timer on_cancel write_ok write_error : Choice

pub data Event (A : Type 0) : Type 0 where
  -- whether the caller's context is done
  enqueues : Bool → A → Event A
  records_drop notifies stops cancels : Event A
  works : Choice → Event A

unfoldable pub record_drop : ℕ → Metrics → Metrics
record_drop points m =
    if points == 0
    then m
    else record m { dropped = m.dropped + points; drop_events = m.drop_events + 1 }

-- what `enqueue` returns
pub data EnqueueAnswer : Type 0 where
  context_done writer_stopped point_accepted : EnqueueAnswer

module _ {A Q : Type 0} (ops : QueueOps A Q) (config : Config) where
  abbrev pub pushed : Q × Bool → Processor A Q → Processor A Q
  pushed (q, lost) p = record p {
    queue = q;
    unrecorded = if lost then p.unrecorded + 1 else p.unrecorded;
    unnotified = if lost then p.unnotified else p.unnotified + 1;
    metrics = record p.metrics { enqueued = p.metrics.enqueued + 1 };
  }

  -- `enqueue` up to `recordDrop` and `notify`, which are events of their own
  unfoldable pub enqueue : Bool → A → Processor A Q → EnqueueAnswer × Processor A Q
  enqueue done x p =
      if done
      then (context_done, p)
      else if not p.accepting
      then (writer_stopped, p)
      else (point_accepted, pushed (ops.push x p.queue) p)

  unfoldable pub record_one_drop : Processor A Q → Processor A Q
  unfolding record_drop
  record_one_drop p = if p.unrecorded == 0 then p else record p {
    unrecorded = p.unrecorded - 1;
    unnotified = p.unnotified + 1;
    metrics = record_drop 1 p.metrics;
  }

  -- a call that has come to its `notify`
  unfoldable pub notify : Processor A Q → Processor A Q
  notify p =
      if p.unnotified == 0 then p else record p { unnotified = p.unnotified - 1; wake = true }

  -- `stopAccepting` up to its `notify`
  unfoldable pub stop_accepting : Processor A Q → Processor A Q
  stop_accepting p = record p { accepting = false; unnotified = p.unnotified + 1 }

  -- the first half of `dropRemaining`, and `recordDrop` after it
  unfoldable pub drop_remaining : Processor A Q → Processor A Q
  drop_remaining p = record p {
    queue = ops.clear p.queue;
    in_flight = 0;
    batch = [];
    phase = dropping (p.in_flight + ops.count p.queue);
  }

  -- `run` with the batch that it took
  abbrev pub took : Option (List A × Q) → Processor A Q → Processor A Q
  took none p = record p { phase = faulty }
  took (some (points, q)) p = record p {
    queue = q;
    in_flight = p.in_flight + length points;
    batch = points;
    phase =
        if length points == 0
        then (if p.accepting then waiting else finished)
        else if ltb (length points) config.batch_size && p.accepting
        then filling
        else writing 1;
  }

  -- a turn of `fillBatch`
  abbrev pub took_more : Option (List A × Q) → Processor A Q → Processor A Q
  took_more none p = record p { phase = faulty }
  took_more (some (more, q)) p = record p {
    queue = q;
    in_flight = p.in_flight + length more;
    batch = p.batch ++ more;
    phase =
        if length (p.batch ++ more) == config.batch_size || not p.accepting
        then writing 1
        else gathering;
  }

  abbrev pub woken : Phase → Processor A Q → Processor A Q
  woken next p = if p.wake then record p { wake = false; phase = next } else p

  abbrev pub if_cancelled : Processor A Q → Processor A Q
  if_cancelled p = if p.cancelled then drop_remaining p else p

  -- an attempt of `writeBatch` that failed
  unfoldable pub after_failure : ℕ → Processor A Q → Processor A Q
  unfolding drop_remaining
  after_failure attempt p =
      if p.cancelled
      then drop_remaining p
      else if ltb attempt config.write_attempts
      then record p {
        phase = pausing (attempt + 1);
        metrics = record p.metrics { retried = p.metrics.retried + 1 };
      }
      else record p {
        phase = completing;
        metrics = record p.metrics {
          failed = p.metrics.failed + length p.batch;
          failure_events = p.metrics.failure_events + 1;
        };
      }

  abbrev pub after_success : Processor A Q → Processor A Q
  after_success p = record p {
    phase = completing;
    metrics = record p.metrics { written = p.metrics.written + length p.batch };
  }

  -- `completeBatch`
  abbrev pub complete_batch : Processor A Q → Processor A Q
  complete_batch p = record p {
    in_flight = p.in_flight - length p.batch;
    batch = [];
    phase = taking;
  }

  -- A step of the worker from its phase. An answer that the phase does not ask for, or that is not
  -- ready, changes nothing.
  unfoldable pub work : Phase → Choice → Processor A Q → Processor A Q
  unfolding after_failure record_drop
  work taking c p = took (ops.pop config.batch_size p.queue) p
  work waiting on_wake p = woken taking p
  work waiting on_cancel p = if_cancelled p
  work waiting _ p = p
  work filling c p = took_more (ops.pop (config.batch_size - length p.batch) p.queue) p
  work gathering on_wake p = woken filling p
  work gathering on_timer p = record p { phase = writing 1 }
  work gathering on_cancel p = if_cancelled p
  work gathering _ p = p
  work (writing attempt) write_ok p = after_success p
  work (writing attempt) write_error p = after_failure attempt p
  work (writing attempt) _ p = p
  work (pausing attempt) on_timer p = record p { phase = writing attempt }
  work (pausing attempt) on_cancel p = if_cancelled p
  work (pausing attempt) _ p = p
  work completing c p = complete_batch p
  work (dropping points) c p = record p { phase = finished; metrics = record_drop points p.metrics }
  work finished c p = p
  work faulty c p = p

  unfoldable pub apply : Event A → Processor A Q → Processor A Q
  unfolding enqueue record_one_drop notify stop_accepting work
  apply (enqueues done x) p = (enqueue done x p).1
  apply notifies p = notify p
  apply records_drop p = record_one_drop p
  apply stops p = stop_accepting p
  apply cancels p = record p { cancelled = true }
  apply (works c) p = work p.phase c p

  unfoldable pub run : List (Event A) → Processor A Q → Processor A Q
  run [] p = p
  run (e ∷ es) p = run es (apply e p)

-- `newServerStatusProcessor`, over a queue with no points
unfoldable pub new_processor : {A Q : Type 0} → Q → Processor A Q
new_processor q = record {
  queue = q;
  in_flight = 0;
  accepting = true;
  cancelled = false;
  wake = false;
  batch = [];
  phase = taking;
  unrecorded = 0;
  unnotified = 0;
  metrics = record {
    enqueued = 0;
    written = 0;
    retried = 0;
    failed = 0;
    dropped = 0;
    drop_events = 0;
    failure_events = 0;
  };
}

-- `ServerStatusQueueStats.Pending`
abbrev pub pending : {A Q : Type 0} → QueueOps A Q → Processor A Q → ℕ
pending ops p = ops.count p.queue + p.in_flight

-- the processor over a new ring, after the events
abbrev pub reached : {A : Type 0} → Config → ℕ → List (Event A) → Processor A (Ring A)
reached config capacity es = run ring_ops config es (new_processor (new_ring capacity))
