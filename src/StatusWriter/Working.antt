-- ===== src/StatusWriter/Working.antt =====
-- The steps of the worker keep the account of the points.
use mathlib.Core.Path.{subst}
use mosona_manager.StatusWriter.Ring.{fifo_ops}
use mosona_manager.StatusWriter.Worker.{
  Phase, Config, Processor, Choice, record_drop, after_success, complete_batch, work, taking,
  waiting, filling, gathering, completing, finished, faulty, writing, pausing, dropping, on_wake,
  on_timer, on_cancel, write_ok, write_error,
}
use mosona_manager.StatusWriter.Counts.{
  record_drop-dropped, record_drop-others, Balanced, if_cancelled-Balanced, took-Balanced,
  took_more-Balanced, woken-Balanced, moved, after_failure-Balanced,
}
use mosona_manager.Prelude.{List, arith, refl, sym, ℕ, ◌≡◌}

module _ {A : Type 0} (capacity : ℕ) (config : Config) where
  finished-Balanced :
      (n : ℕ) (p : Processor A (List A))
      → Balanced capacity config (dropping n) p
      → Balanced capacity config finished
          (record p { phase = finished; metrics = record_drop n p.metrics })
  finished-Balanced n p h =
      let dropped = record_drop-dropped n p.metrics in
      let others = record_drop-others n p.metrics in
      record {
        balance = omega (arith, h.balance, dropped, others);
        held = h.held;
        resting = λ e. h.resting refl;
        fits = h.fits;
        bounded = h.bounded;
        sound = refl;
      }

  completed-Balanced :
      (p : Processor A (List A))
      → Balanced capacity config completing p
      → Balanced capacity config taking (complete_batch (fifo_ops capacity) config p)
  completed-Balanced p h = record {
    balance = omega (arith, h.balance, h.held);
    held = omega (arith, h.held);
    resting = λ e. refl;
    fits = omega arith;
    bounded = h.bounded;
    sound = refl;
  }

  written-Balanced :
      (n : ℕ) (p : Processor A (List A))
      → Balanced capacity config (writing n) p
      → Balanced capacity config completing (after_success (fifo_ops capacity) config p)
  written-Balanced n p h = record {
    balance = omega (arith, h.balance);
    held = h.held;
    resting = λ e. absurd (cc e);
    fits = h.fits;
    bounded = h.bounded;
    sound = refl;
  }

  -- the same processor in its own phase, and one that only changes its phase
  own_phase :
      (f : Phase) (p : Processor A (List A))
      → p.phase ≡ f
      → Balanced capacity config f p
      → Balanced capacity config p.phase p
  own_phase f p e h = subst (λ g. Balanced capacity config g p) (sym e) h

  rephased :
      (g : Phase) (p : Processor A (List A))
      → Balanced capacity config g p
      → Balanced capacity config g (record p { phase = g })
  rephased g p h = record {
    balance = h.balance;
    held = h.held;
    resting = h.resting;
    fits = h.fits;
    bounded = h.bounded;
    sound = h.sound;
  }

  pub work-Balanced :
      (f : Phase) (c : Choice) (p : Processor A (List A))
      → p.phase ≡ f
      → Balanced capacity config f p
      → Balanced capacity config
          (work (fifo_ops capacity) config f c p).phase
          (work (fifo_ops capacity) config f c p)
  unfolding work
  work-Balanced taking c p e h = took-Balanced capacity config p h
  work-Balanced waiting on_wake p e h =
      woken-Balanced capacity config waiting taking p e h
        (moved capacity config waiting taking p refl refl (λ r. refl) refl h)
  work-Balanced waiting on_cancel p e h =
      if_cancelled-Balanced capacity config waiting p e refl refl h
  work-Balanced waiting on_timer p e h = own_phase waiting p e h
  work-Balanced waiting write_ok p e h = own_phase waiting p e h
  work-Balanced waiting write_error p e h = own_phase waiting p e h
  work-Balanced filling c p e h = took_more-Balanced capacity config p h
  work-Balanced gathering on_wake p e h =
      woken-Balanced capacity config gathering filling p e h
        (moved capacity config gathering filling p refl refl (λ r. absurd (cc r)) refl h)
  work-Balanced gathering on_timer p e h =
      rephased (writing 1) p
        (moved capacity config gathering (writing 1) p refl refl (λ r. absurd (cc r)) refl h)
  work-Balanced gathering on_cancel p e h =
      if_cancelled-Balanced capacity config gathering p e refl refl h
  work-Balanced gathering write_ok p e h = own_phase gathering p e h
  work-Balanced gathering write_error p e h = own_phase gathering p e h
  work-Balanced (writing n) write_ok p e h = written-Balanced n p h
  work-Balanced (writing n) write_error p e h = after_failure-Balanced capacity config n p h
  work-Balanced (writing n) on_wake p e h = own_phase (writing n) p e h
  work-Balanced (writing n) on_timer p e h = own_phase (writing n) p e h
  work-Balanced (writing n) on_cancel p e h = own_phase (writing n) p e h
  work-Balanced (pausing n) on_timer p e h =
      rephased (writing n) p
        (moved capacity config (pausing n) (writing n) p refl refl (λ r. absurd (cc r)) refl h)
  work-Balanced (pausing n) on_cancel p e h =
      if_cancelled-Balanced capacity config (pausing n) p e refl refl h
  work-Balanced (pausing n) on_wake p e h = own_phase (pausing n) p e h
  work-Balanced (pausing n) write_ok p e h = own_phase (pausing n) p e h
  work-Balanced (pausing n) write_error p e h = own_phase (pausing n) p e h
  work-Balanced completing c p e h = completed-Balanced p h
  work-Balanced (dropping n) c p e h = finished-Balanced n p h
  work-Balanced finished c p e h = own_phase finished p e h
  work-Balanced faulty c p e h = own_phase faulty p e h
