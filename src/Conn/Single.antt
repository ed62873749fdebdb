-- ===== src/Conn/Single.antt =====
-- At most one outbound connection for a server.
use mosona_manager.Conn.Steps.{
  Op, apply, run, start, reconciles, stops, retry_fires, goroutine_ends, connects_inbound,
  registers_stopper,
}
use native.Mathlib.Decide.{ℕ_discrete}
use mosona_manager.Conn.State.{
  State, finish_goroutine, StartResult, Answers, stop_entry, stop_outbound_server,
  stop_inbound_server, stop_server, connect, start_server, by_mode, reconcile, ready, start_no_rows,
  start_failed, ServerRow, KeyRow, unmonitored, reconcile_row, cancel_reconcile_retry,
  start_reconcile_retry, retry_on_error, reconcile_server, stop, settle_retry, retry_if, retry_turn,
  drop_entry, finish_outbound_server, row, no_rows, failed, key, no_key, key_failed,
}
use mosona_manager.Prelude.{
  Bool, Bool-cases, List, Option, Option-cases, [], ap, arith, delete, false, find, find-delete_ne,
  find-delete_self, find-store_ne, find-store_self, inl, inr, none, refl, some, store, sym, true, ℕ,
  ◌==◌, ◌∙◌, ◌∷◌, ◌≡◌, ◌≢◌,
}

-- each goroutine is the one that the pool has for its server
abbrev pub AllPooled : List (ℕ × ℕ) → List (ℕ × ℕ) → Type 0
AllPooled pool [] = Unit
AllPooled pool ((s, e) ∷ rest) = (find ℕ_discrete s pool ≡ some e) × AllPooled pool rest

-- no goroutine is for the server
abbrev pub NoServer : ℕ → List (ℕ × ℕ) → Type 0
NoServer s [] = Unit
NoServer s ((t, e) ∷ rest) = (t ≢ s) × NoServer s rest

abbrev pub IsSingle : List (ℕ × ℕ) → Type 0
IsSingle [] = Unit
IsSingle ((s, e) ∷ rest) = NoServer s rest × IsSingle rest

pub record Inv (st : State) : Type 0 where
  pub pooled : AllPooled st.pool st.running
  pub single : IsSingle st.running

AllPooled-delete :
    (s : ℕ) (pool r : List (ℕ × ℕ))
    → AllPooled pool r
    → NoServer s r
    → AllPooled (delete ℕ_discrete s pool) r
AllPooled-delete s pool [] p n = tt
AllPooled-delete s pool ((t, e) ∷ r) p n =
    (find-delete_ne ℕ_discrete s t pool (λ q. n.0 (sym q)) ∙ p.0, AllPooled-delete s pool r p.1 n.1)

AllPooled-store :
    (s e : ℕ) (pool r : List (ℕ × ℕ))
    → AllPooled pool r
    → NoServer s r
    → AllPooled (store ℕ_discrete s e pool) r
AllPooled-store s e pool [] p n = tt
AllPooled-store s e pool ((t, f) ∷ r) p n = (
  find-store_ne ℕ_discrete s t e pool (λ q. n.0 (sym q)) ∙ p.0,
  AllPooled-store s e pool r p.1 n.1,
)

NoServer-of_none :
    (s : ℕ) (pool r : List (ℕ × ℕ))
    → AllPooled pool r
    → find ℕ_discrete s pool ≡ none
    → NoServer s r
NoServer-of_none s pool [] p h = tt
NoServer-of_none s pool ((t, e) ∷ r) p h = ((λ q. cc (q, p.0, h)), NoServer-of_none s pool r p.1 h)

module _ (s e : ℕ) where
  finish-NoServer_self :
      (pool r : List (ℕ × ℕ))
      → AllPooled pool r
      → find ℕ_discrete s pool ≡ some e
      → NoServer s (finish_goroutine s e r)
  unfolding finish_goroutine
  finish-NoServer_self pool [] p h = tt
  finish-NoServer_self pool ((t, f) ∷ r) p h =
      ground (arith, finish-NoServer_self pool r p.1 h, other)
    where
      other : t ≡ s → f ≡ e
      other q = cc (q, p.0, h)

  pub finish-NoServer :
      (t : ℕ) (r : List (ℕ × ℕ)) → NoServer t r → NoServer t (finish_goroutine s e r)
  unfolding finish_goroutine
  finish-NoServer t [] n = tt
  finish-NoServer t ((u, f) ∷ r) n = ground (arith, finish-NoServer t r n.1)

  finish-IsSingle : (r : List (ℕ × ℕ)) → IsSingle r → IsSingle (finish_goroutine s e r)
  unfolding finish_goroutine
  finish-IsSingle [] h = tt
  finish-IsSingle ((t, f) ∷ r) h = ground (arith, finish-IsSingle r h.1, finish-NoServer t r h.0)

  finish-AllPooled :
      (pool r : List (ℕ × ℕ)) → AllPooled pool r → AllPooled pool (finish_goroutine s e r)
  unfolding finish_goroutine
  finish-AllPooled pool [] p = tt
  finish-AllPooled pool ((t, f) ∷ r) p = ground (arith, finish-AllPooled pool r p.1)

-- no connection of the server is left
pub record Stopped (s : ℕ) (st : State) : Type 0 where
  pub inv : Inv st
  pub gone : NoServer s st.running
  pub unpooled : find ℕ_discrete s st.pool ≡ none

stop_outbound_server-Stopped : (s : ℕ) (st : State) → Inv st → Stopped s (stop_outbound_server s st)
unfolding stop_outbound_server
stop_outbound_server-Stopped s st inv = elim (Option-cases (find ℕ_discrete s st.pool)) [
  | inl e ↦
      rw (e, stop_entry)
        (record {
          inv = inv;
          gone = NoServer-of_none s st.pool st.running inv.pooled e;
          unpooled = e;
        })
  | inr (n, e) ↦
      let gone = finish-NoServer_self s n st.pool st.running inv.pooled e in
      rw (e, stop_entry)
        (record {
          inv = record {
            pooled =
                AllPooled-delete s st.pool (finish_goroutine s n st.running)
                  (finish-AllPooled s n st.pool st.running inv.pooled) gone;
            single = finish-IsSingle s n st.running inv.single;
          };
          gone = gone;
          unpooled = find-delete_self ℕ_discrete s st.pool;
        })
]

stop_inbound_server-Stopped :
    (s t : ℕ) (st : State) → Stopped t st → Stopped t (stop_inbound_server s st)
unfolding stop_inbound_server
stop_inbound_server-Stopped s t st h = elim (Bool-cases st.stopper) [
  | inl e ↦ rw e (record {
    inv = record { pooled = h.inv.pooled; single = h.inv.single };
    gone = h.gone;
    unpooled = h.unpooled;
  })
  | inr e ↦ simp e h
]

stop_inbound_server-Inv : (s : ℕ) (st : State) → Inv st → Inv (stop_inbound_server s st)
unfolding stop_inbound_server
stop_inbound_server-Inv s st h = elim (Bool-cases st.stopper) [
  | inl e ↦ rw e (record { pooled = h.pooled; single = h.single })
  | inr e ↦ simp e h
]

pub stop_server-Stopped : (s : ℕ) (st : State) → Inv st → Stopped s (stop_server s st)
unfolding stop_server
stop_server-Stopped s st h =
    stop_inbound_server-Stopped s s (stop_outbound_server s st)
      (stop_outbound_server-Stopped s st h)

connect-Inv : (s : ℕ) (st : State) → Inv st → Inv (connect s st)
unfolding connect
connect-Inv s st h =
    let st' = stop_outbound_server s st in
    let z = stop_outbound_server-Stopped s st h in
    record {
      pooled = (
        find-store_self ℕ_discrete s st'.next st'.pool,
        AllPooled-store s st'.next st'.pool st'.running z.inv.pooled z.gone,
      );
      single = (z.gone, z.inv.single);
    }

start_server-Inv : (s : ℕ) (r : StartResult) (st : State) → Inv st → Inv (start_server s r st).0
unfolding start_server
start_server-Inv s ready st h = connect-Inv s st h
start_server-Inv s start_no_rows st h = h
start_server-Inv s start_failed st h = h

by_mode-Inv : (s mode : ℕ) (r : StartResult) (st : State) → Inv st → Inv (by_mode s mode r st).0
unfolding by_mode
by_mode-Inv s mode r st h = ground (
  arith,
  start_server-Inv s r (stop_outbound_server s (stop_inbound_server s st))
      (stop_outbound_server-Stopped s (stop_inbound_server s st)
        (stop_inbound_server-Inv s st h)).inv,
  (stop_outbound_server-Stopped s st h).inv,
  (stop_server-Stopped s st h).inv,
)

unmonitored-Inv :
    (s mode : ℕ) (k : KeyRow) (r : StartResult) (st : State)
    → Inv st
    → Inv (unmonitored s mode k r st).0
unfolding unmonitored
unmonitored-Inv s mode no_key r st h = ground (arith, (stop_server-Stopped s st h).inv)
unmonitored-Inv s mode key_failed r st h = ground (arith, (stop_server-Stopped s st h).inv)
unmonitored-Inv s mode (key present) r st h =
    ground (arith, (stop_server-Stopped s st h).inv, by_mode-Inv s mode r st h)

reconcile_row-Inv :
    (s : ℕ) (row_ : ServerRow) (k : KeyRow) (r : StartResult) (st : State)
    → Inv st
    → Inv (reconcile_row s row_ k r st).0
unfolding reconcile_row
reconcile_row-Inv s no_rows k r st h = (stop_server-Stopped s st h).inv
reconcile_row-Inv s failed k r st h = (stop_server-Stopped s st h).inv
reconcile_row-Inv s (row mode allow) k r st h =
    ground (arith, unmonitored-Inv s mode k r st h, by_mode-Inv s mode r st h)

reconcile-Inv : (s : ℕ) (a : Answers) (st : State) → Inv st → Inv (reconcile s a st).0
unfolding reconcile
reconcile-Inv s a st h = reconcile_row-Inv s a.server a.agent a.start st h

-- only the pool and the goroutines matter
pub same_connections :
    (st st' : State) → st'.pool ≡ st.pool → st'.running ≡ st.running → Inv st → Inv st'
same_connections st st' p r h = record { pooled = rw (p, r) h.pooled; single = rw r h.single }

retry_on_error-Inv : (s : ℕ) (o : State × Bool) → Inv o.0 → Inv (retry_on_error s o).0
unfolding start_reconcile_retry
retry_on_error-Inv s (st, true) h = same_connections st _ refl refl h
retry_on_error-Inv s (st, false) h = h

settle_retry-Inv : (s : ℕ) (o : State × Bool) → Inv o.0 → Inv (settle_retry s o)
unfolding cancel_reconcile_retry
settle_retry-Inv s (st, true) h = h
settle_retry-Inv s (st, false) h = same_connections st _ refl refl h

retry_if-Inv :
    (s r : ℕ) (a : Answers) (st : State) (current : Option ℕ)
    → Inv st
    → Inv (retry_if s r a st current)
retry_if-Inv s r a st none h = h
retry_if-Inv s r a st (some c) h =
    ground (arith, settle_retry-Inv s (reconcile s a st) (reconcile-Inv s a st h))

finish_outbound_server-Inv : (s e : ℕ) (st : State) → Inv st → Inv (finish_outbound_server s e st)
unfolding finish_outbound_server
finish_outbound_server-Inv s e st h = elim (Option-cases (find ℕ_discrete s st.pool)) [
  | inl none_ ↦ rw none_ (kept st.pool (finish-AllPooled s e st.pool st.running h.pooled))
  | inr (c, found) ↦ elim (Bool-cases (c == e)) [
    | inl q ↦
        let is_entry : c ≡ e = ground arith in
        let gone =
          finish-NoServer_self s e st.pool st.running h.pooled (found ∙ ap some is_entry) in
        rw (found, drop_entry, q)
          (kept (delete ℕ_discrete s st.pool) (
            AllPooled-delete s st.pool (finish_goroutine s e st.running)
              (finish-AllPooled s e st.pool st.running h.pooled) gone))
    | inr q ↦
        rw (found, drop_entry, q) (kept st.pool (finish-AllPooled s e st.pool st.running h.pooled))
  ]
]
  where
    kept :
        (pool : List (ℕ × ℕ))
        → AllPooled pool (finish_goroutine s e st.running)
        → Inv (record st { pool = pool; running = finish_goroutine s e st.running })
    kept pool p = record { pooled = p; single = finish-IsSingle s e st.running h.single }

cancelled-Inv : (s : ℕ) (st : State) → Inv st → Inv (cancel_reconcile_retry s st)
unfolding cancel_reconcile_retry
cancelled-Inv s st h = same_connections st _ refl refl h

pub apply-Inv : (op : Op) (st : State) → Inv st → Inv (apply op st)
unfolding apply reconcile_server stop retry_turn
apply-Inv (reconciles s a) st h =
    retry_on_error-Inv s (reconcile s a (cancel_reconcile_retry s st))
      (reconcile-Inv s a (cancel_reconcile_retry s st) (cancelled-Inv s st h))
apply-Inv (stops s) st h =
    (stop_server-Stopped s (cancel_reconcile_retry s st) (cancelled-Inv s st h)).inv
apply-Inv (retry_fires s r a) st h = retry_if-Inv s r a st (find ℕ_discrete s st.retries) h
apply-Inv (goroutine_ends s e) st h = finish_outbound_server-Inv s e st h
apply-Inv (connects_inbound s) st h = same_connections st _ refl refl h
apply-Inv registers_stopper st h = same_connections st _ refl refl h

run-Inv : (ops : List Op) (st : State) → Inv st → Inv (run ops st)
unfolding run
run-Inv [] st h = h
run-Inv (op ∷ ops) st h = run-Inv ops (apply op st) (apply-Inv op st h)

-- From the start of the Hub, after any operations in any order and with any answers of the
-- database, each server has at most one running connection, and it is the one in the pool, so
-- that stopping the server stops it.
pub run_start-Inv : (ops : List Op) → Inv (run ops start)
run_start-Inv ops = run-Inv ops start (record { pooled = tt; single = tt })
