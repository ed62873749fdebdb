-- ===== src/Conn/Stopped.antt =====
-- A server that was stopped stays stopped.
use native.Mathlib.Decide.{ℕ_discrete}
use mosona_manager.Conn.State.{
  State, ServerRow, KeyRow, StartResult, Answers, finish_goroutine, stop_entry,
  stop_outbound_server, stop_inbound_server, stop_server, connect, start_server, by_mode,
  unmonitored, reconcile_row, reconcile, cancel_reconcile_retry, start_reconcile_retry,
  retry_on_error, reconcile_server, stop, settle_retry, retry_if, retry_turn, drop_entry,
  finish_outbound_server, row, no_rows, failed, key, no_key, key_failed, ready, start_no_rows,
  start_failed,
}
use mosona_manager.Conn.Steps.{
  Op, apply, run, start, reconciles, stops, retry_fires, goroutine_ends, connects_inbound,
  registers_stopper,
}
use mosona_manager.Conn.Single.{
  NoServer, finish-NoServer, stop_server-Stopped, same_connections, run_start-Inv,
}
use mosona_manager.Prelude.{
  Bool, Bool-cases, List, Option, Option-cases, [], arith, delete, false, find, find-delete,
  find-delete_self, find-store_ne, inl, inr, none, refl, some, true, ℕ, ◌==◌, ◌∙◌, ◌∷◌, ◌≡◌, ◌≢◌,
}

-- the server has no connection, no goroutine and no pending retry
pub record IsIdle (s : ℕ) (st : State) : Type 0 where
  pub gone : NoServer s st.running
  pub unpooled : find ℕ_discrete s st.pool ≡ none
  pub unscheduled : find ℕ_discrete s st.retries ≡ none

-- only the goroutines, the pool and the retries matter
same_parts :
    (s : ℕ) (st st' : State)
    → st'.running ≡ st.running
    → st'.pool ≡ st.pool
    → st'.retries ≡ st.retries
    → IsIdle s st
    → IsIdle s st'
same_parts s st st' r p q h = record {
  gone = rw r h.gone;
  unpooled = rw p h.unpooled;
  unscheduled = rw q h.unscheduled;
}

find-delete-none :
    (s t : ℕ) (m : List (ℕ × ℕ))
    → find ℕ_discrete s m ≡ none
    → find ℕ_discrete s (delete ℕ_discrete t m) ≡ none
find-delete-none s t m h = ground (arith, find-delete ℕ_discrete t s m)

module _ (s t : ℕ) where
  stop_outbound_server-IsIdle : (st : State) → IsIdle s st → IsIdle s (stop_outbound_server t st)
  unfolding stop_outbound_server
  stop_outbound_server-IsIdle st h = elim (Option-cases (find ℕ_discrete t st.pool)) [
    | inl e ↦ rw (e, stop_entry) h
    | inr (n, e) ↦
        rw (e, stop_entry)
          (record {
            gone = finish-NoServer t n s st.running h.gone;
            unpooled = find-delete-none s t st.pool h.unpooled;
            unscheduled = h.unscheduled;
          })
  ]

  stop_inbound_server-IsIdle : (st : State) → IsIdle s st → IsIdle s (stop_inbound_server t st)
  unfolding stop_inbound_server
  stop_inbound_server-IsIdle st h = elim (Bool-cases st.stopper) [
    | inl e ↦ rw e (same_parts s st _ refl refl refl h)
    | inr e ↦ simp e h
  ]

  stop_server-IsIdle : (st : State) → IsIdle s st → IsIdle s (stop_server t st)
  unfolding stop_server
  stop_server-IsIdle st h =
      stop_inbound_server-IsIdle (stop_outbound_server t st) (stop_outbound_server-IsIdle st h)

  cancel_reconcile_retry-IsIdle :
      (st : State) → IsIdle s st → IsIdle s (cancel_reconcile_retry t st)
  unfolding cancel_reconcile_retry
  cancel_reconcile_retry-IsIdle st h = record {
    gone = h.gone;
    unpooled = h.unpooled;
    unscheduled = find-delete-none s t st.retries h.unscheduled;
  }

  finish_outbound_server-IsIdle :
      (e : ℕ) (st : State) → IsIdle s st → IsIdle s (finish_outbound_server t e st)
  unfolding finish_outbound_server
  finish_outbound_server-IsIdle e st h = elim (Option-cases (find ℕ_discrete t st.pool)) [
    | inl q ↦ rw q (finished st.pool h.unpooled)
    | inr (c, q) ↦ elim (Bool-cases (c == e)) [
      | inl k ↦
          rw (q, drop_entry, k)
            (finished (delete ℕ_discrete t st.pool) (find-delete-none s t st.pool h.unpooled))
      | inr k ↦ rw (q, drop_entry, k) (finished st.pool h.unpooled)
    ]
  ]
    where
      finished :
          (pool : List (ℕ × ℕ))
          → find ℕ_discrete s pool ≡ none
          → IsIdle s (record st { pool = pool; running = finish_goroutine t e st.running })
      finished pool p = record {
        gone = finish-NoServer t e s st.running h.gone;
        unpooled = p;
        unscheduled = h.unscheduled;
      }

module _ (s t : ℕ) (ne : t ≢ s) where
  connect-IsIdle : (st : State) → IsIdle s st → IsIdle s (connect t st)
  unfolding connect
  connect-IsIdle st h =
      let z = stop_outbound_server-IsIdle s t st h in
      let st' = stop_outbound_server t st in
      record {
        gone = (ne, z.gone);
        unpooled = find-store_ne ℕ_discrete t s st'.next st'.pool ne ∙ z.unpooled;
        unscheduled = z.unscheduled;
      }

  start_server-IsIdle :
      (r : StartResult) (st : State) → IsIdle s st → IsIdle s (start_server t r st).0
  unfolding start_server
  start_server-IsIdle ready st h = connect-IsIdle st h
  start_server-IsIdle start_no_rows st h = h
  start_server-IsIdle start_failed st h = h

  by_mode-IsIdle :
      (mode : ℕ) (r : StartResult) (st : State) → IsIdle s st → IsIdle s (by_mode t mode r st).0
  unfolding by_mode
  by_mode-IsIdle mode r st h = ground (
    arith,
    start_server-IsIdle r (stop_outbound_server t (stop_inbound_server t st)) (
        stop_outbound_server-IsIdle s t (stop_inbound_server t st)
          (stop_inbound_server-IsIdle s t st h)),
    stop_outbound_server-IsIdle s t st h,
    stop_server-IsIdle s t st h,
  )

  unmonitored-IsIdle :
      (mode : ℕ) (k : KeyRow) (r : StartResult) (st : State)
      → IsIdle s st
      → IsIdle s (unmonitored t mode k r st).0
  unfolding unmonitored
  unmonitored-IsIdle mode no_key r st h = ground (arith, stop_server-IsIdle s t st h)
  unmonitored-IsIdle mode key_failed r st h = ground (arith, stop_server-IsIdle s t st h)
  unmonitored-IsIdle mode (key present) r st h =
      ground (arith, stop_server-IsIdle s t st h, by_mode-IsIdle mode r st h)

  reconcile-IsIdle : (a : Answers) (st : State) → IsIdle s st → IsIdle s (reconcile t a st).0
  unfolding reconcile reconcile_row
  reconcile-IsIdle a st h = by_row a.server
    where
      by_row : (row_ : ServerRow) → IsIdle s (reconcile_row t row_ a.agent a.start st).0
      by_row no_rows = stop_server-IsIdle s t st h
      by_row failed = stop_server-IsIdle s t st h
      by_row (row mode allow) =
          ground
            (arith, unmonitored-IsIdle mode a.agent a.start st h, by_mode-IsIdle mode a.start st h)

  retry_on_error-IsIdle : (o : State × Bool) → IsIdle s o.0 → IsIdle s (retry_on_error t o).0
  unfolding start_reconcile_retry
  retry_on_error-IsIdle (st, true) h = record {
    gone = h.gone;
    unpooled = h.unpooled;
    unscheduled = find-store_ne ℕ_discrete t s st.next st.retries ne ∙ h.unscheduled;
  }
  retry_on_error-IsIdle (st, false) h = h

settle_retry-IsIdle : (s t : ℕ) (o : State × Bool) → IsIdle s o.0 → IsIdle s (settle_retry t o)
settle_retry-IsIdle s t (st, true) h = h
settle_retry-IsIdle s t (st, false) h = cancel_reconcile_retry-IsIdle s t st h

-- a retry of the server itself is not current, and does nothing
retry_turn-IsIdle :
    (s t r : ℕ) (a : Answers) (st : State) → IsIdle s st → IsIdle s (retry_turn t r a st)
unfolding retry_turn
retry_turn-IsIdle s t r a st h = elim (ℕ_discrete t s) [
  | yes e ↦ rw (e, h.unscheduled) h
  | no ne ↦ by_current ne (find ℕ_discrete t st.retries)
]
  where
    by_current : t ≢ s → (c : Option ℕ) → IsIdle s (retry_if t r a st c)
    by_current ne none = h
    by_current ne (some c) =
        ground
          (arith, h, settle_retry-IsIdle s t (reconcile t a st) (reconcile-IsIdle s t ne a st h))

-- stopping leaves the retries alone
stop_server-retries :
    (s : ℕ) (st : State)
    → find ℕ_discrete s (stop_server s st).retries ≡ find ℕ_discrete s st.retries
unfolding stop_server stop_outbound_server stop_inbound_server
stop_server-retries s st = elim (Option-cases (find ℕ_discrete s st.pool)) [
  | inl e ↦ rw (e, stop_entry) (ground arith)
  | inr (n, e) ↦ rw (e, stop_entry) (ground arith)
]

-- no operation of the list asks for the server's connection
abbrev pub NotReconciled : ℕ → List Op → Type 0
NotReconciled s [] = Unit
NotReconciled s (reconciles t a ∷ ops) = (t ≢ s) × NotReconciled s ops
NotReconciled s (op ∷ ops) = NotReconciled s ops

run-IsIdle :
    (s : ℕ) (ops : List Op) (st : State) → NotReconciled s ops → IsIdle s st → IsIdle s (run ops st)
unfolding run apply reconcile_server stop
run-IsIdle s [] st n h = h
run-IsIdle s (reconciles t a ∷ ops) st n h = run-IsIdle s ops (apply (reconciles t a) st) n.1 (
    retry_on_error-IsIdle s t n.0 (reconcile t a (cancel_reconcile_retry t st)) (
      reconcile-IsIdle s t n.0 a (cancel_reconcile_retry t st)
        (cancel_reconcile_retry-IsIdle s t st h)))
run-IsIdle s (stops t ∷ ops) st n h =
    run-IsIdle s ops (apply (stops t) st) n (
      stop_server-IsIdle s t (cancel_reconcile_retry t st) (cancel_reconcile_retry-IsIdle s t st h))
run-IsIdle s (retry_fires t r a ∷ ops) st n h =
    run-IsIdle s ops (apply (retry_fires t r a) st) n (retry_turn-IsIdle s t r a st h)
run-IsIdle s (goroutine_ends t e ∷ ops) st n h =
    run-IsIdle s ops (apply (goroutine_ends t e) st) n (finish_outbound_server-IsIdle s t e st h)
run-IsIdle s (connects_inbound t ∷ ops) st n h =
    run-IsIdle s ops (apply (connects_inbound t) st) n (same_parts s st _ refl refl refl h)
run-IsIdle s (registers_stopper ∷ ops) st n h =
    run-IsIdle s ops (apply registers_stopper st) n (same_parts s st _ refl refl refl h)

-- After `StopServer` the server has no outbound connection, no goroutine and no pending retry,
-- and it stays so, whatever other operations follow and whichever timers of retries still fire,
-- as long as `ReconcileServer` is not called for it.
pub run-stop-IsIdle :
    (s : ℕ) (before after : List Op)
    → NotReconciled s after
    → IsIdle s (run after (stop s (run before start)))
unfolding stop cancel_reconcile_retry
run-stop-IsIdle s before after n =
    let st = run before start in
    let inv = same_connections st (cancel_reconcile_retry s st) refl refl (run_start-Inv before) in
    let z = stop_server-Stopped s (cancel_reconcile_retry s st) inv in
    run-IsIdle s after (stop s st) n (record {
      gone = z.gone;
      unpooled = z.unpooled;
      unscheduled =
          stop_server-retries s (cancel_reconcile_retry s st)
          ∙ find-delete_self ℕ_discrete s st.retries;
    })
