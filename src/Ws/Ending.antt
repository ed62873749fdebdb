-- ===== src/Ws/Ending.antt =====
-- A reconnect with a limit of attempts ends.
use mathlib.Core.Path.{subst}
use mosona_manager.Ws.Client.{
  WsError, Client, same_pointer, DialAnswer, unless_terminal, unless_running, with_context,
  begin_reconnect, finish_reconnect, reconnect_runs,
}
use mosona_manager.Ws.Retry.{Task, move, retry_checks, retry_ends, network_answers}
use mosona_manager.Ws.Single.{call_of, consed, calls, IsSingle, begin_reconnect-IsSingle}
use mosona_manager.Ws.World.{Event, keep, reconnecting_task, run, started}
use mosona_manager.Ws.Tasks.{move-IsSingle, started-IsSingle}
use mosona_manager.Ws.Attempts.{
  answer, finish, moves_left, dials_left, move-IsNearer, moves_left_pos,
}
use mosona_manager.Prelude.{
  Bool-cases, List, Option, [], arith, inl, inr, length, none, refl, some, sym, ℕ, ◌*◌, ◌+◌, ◌∙◌,
  ◌∷◌, ◌≡◌, ◌≤◌,
}

-- how it ended
abbrev pub HasEnded : ℕ → Client × Option Task × ℕ → Type 0
HasEnded limit (d, left, dials) = (left ≡ none) × (d.reconnect_call ≡ none) × (dials ≤ limit)

no_call_left : (o : Option ℕ) → consed o [] ≡ [] → o ≡ none
no_call_left none e = refl
no_call_left (some k) e = absurd (cc e)

ends_now :
    (answers : List DialAnswer) (a : DialAnswer) (call : ℕ) (err : Option WsError) (c : Client)
    → IsSingle c (retry_ends call err ∷ [])
    → HasEnded 0 (finish (a ∷ answers) (retry_ends call err) c)
unfolding finish move calls
ends_now answers a call err c h =
    let k = move-IsSingle (retry_ends call err) (network_answers a) c [] h in
    (
      refl,
      no_call_left (finish_reconnect call err c).1.reconnect_call (sym k.one_call),
      omega arith,
    )

begin_reconnect-retries : (k : ℕ) (c : Client) → (begin_reconnect k c).1.max_retries ≡ c.max_retries
unfolding begin_reconnect
begin_reconnect-retries k c = elim (Bool-cases c.closed) [
  | inl t ↦ simp t refl
  | inr t ↦ simp t (in_context c.ctx)
]
  where
    past_terminal :
        (ctx : ℕ) (o : Option WsError) → (unless_terminal k ctx o c).1.max_retries ≡ c.max_retries
    past_terminal ctx none = refl
    past_terminal ctx (some e) = refl

    past_call : (ctx : ℕ) (o : Option ℕ) → (unless_running k ctx o c).1.max_retries ≡ c.max_retries
    past_call ctx (some call) = refl
    past_call ctx none = elim (Bool-cases (same_pointer c.conn k)) [
      | inl t ↦ simp t (past_terminal ctx c.terminal_err)
      | inr t ↦ simp t refl
    ]

    in_context : (o : Option ℕ) → (with_context k o c).1.max_retries ≡ c.max_retries
    in_context none = refl
    in_context (some ctx) = past_call ctx c.reconnect_call

finish-HasEnded :
    (m : ℕ) (answers : List DialAnswer) (t : Task) (c : Client)
    → IsSingle c (t ∷ [])
    → c.max_retries ≡ some m
    → (j : ℕ) × (call_of t ≡ some j)
    → moves_left m t ≤ length answers
    → HasEnded (dials_left m t) (finish answers t c)
unfolding finish
finish-HasEnded m [] t c h e k l = absurd (omega (arith, l, moves_left_pos m t))
finish-HasEnded m (a ∷ answers) t c h e k l = elim (move-IsNearer m t a c e k) [
  | inl (call, err, f) ↦
      subst (λ u. HasEnded (dials_left m u) (finish (a ∷ answers) u c)) (sym f)
        (ends_now answers a call err c (subst (λ u. IsSingle c (u ∷ [])) f h))
  | inr (u, f, near) ↦
      let d = (move t (answer t a) c).0 in
      let (gone, settled, few) =
        finish-HasEnded m answers u d (next_alone u f) near.limited (k.0, near.about ∙ k.1)
          (omega (arith, near.nearer, l)) in
      rw f (gone, settled, omega (arith, few, near.fewer))
]
  where
    next_alone :
        (u : Task)
        → (move t (answer t a) c).1 ≡ some u
        → IsSingle (move t (answer t a) c).0 (u ∷ [])
    next_alone u f =
        subst (λ o. IsSingle (move t (answer t a) c).0 (keep o [])) f
          (move-IsSingle t (answer t a) c [] h)

-- A reconnect that a client starts, with no other call under way and a limit of attempts, ends:
-- after at most two steps and four for each attempt, whatever the network answers, no reconnect is
-- under way or known to the client, so that no call waits for one, and it has dialled at most as
-- often as the limit says.
pub reconnect_lem :
    (es : List Event) (k limit ctx call : ℕ) (answers : List DialAnswer)
    → let w = run es started in
      w.tasks ≡ []
      → w.client.max_retries ≡ some limit
      → (begin_reconnect k w.client).0 ≡ reconnect_runs ctx call
      → 2 + 4 * limit ≤ length answers
      → HasEnded limit (finish answers (retry_checks ctx call 0) (begin_reconnect k w.client).1)
reconnect_lem es k limit ctx call answers quiet limited runs enough =
    let c = (run es started).client in
    let h = subst (IsSingle c) quiet (started-IsSingle es) in
    let (gone, settled, few) =
      finish-HasEnded limit answers (retry_checks ctx call 0) (begin_reconnect k c).1
        (subst (λ start. IsSingle (begin_reconnect k c).1 (reconnecting_task start [])) runs
          (begin_reconnect-IsSingle k c [] h))
        (begin_reconnect-retries k c ∙ limited) (call, refl) (omega (arith, enough)) in
    (gone, settled, omega (arith, few))
