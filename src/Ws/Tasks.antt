-- ===== src/Ws/Tasks.antt =====
-- One reconnect at a time, whatever is under way: the steps of the tasks, and whole histories.
use mosona_manager.Ws.Client.{
  WsError, Client, has_id, without, new_client, cancel_context, close_connection, state_error,
  begin_connect, finish_connect, dial, finish_reconnect, close, retries_exhausted,
}
use mosona_manager.Ws.Retry.{
  Task, Answer, is_exhausted, resume, after_dial, move, connect_dials, connect_ends, retry_checks,
  retry_pauses, retry_resumes, retry_dials, retry_ends, timer_fires, context_ends, network_answers,
}
use mosona_manager.Ws.World.{
  World, Event, keep, step_task, apply, run, started, connects, closes, ends_context, fails_read,
  fails_write, fails_plain_write, moves, sets_backoff, sets_codes, sets_pong_wait,
}
use mosona_manager.Ws.Single.{
  call_of, consed, calls, IsSingle, same_pointer_self, Keeps, close_connection-Keeps, dial-Keeps,
  finish_connect-Keeps, close-Keeps, begin_connect-Keeps, begin_reconnect-IsSingle, kept,
  read_failed-IsSingle,
}
use mosona_manager.Prelude.{
  Bool, List, Option, Option-cases, Sum-cases, [], ap, false, if◌then◌else◌, inl, inr, none, refl,
  same, some, suc, sym, true, zero, ℕ, ◌∙◌, ◌∷◌, ◌≡◌,
}

finish_reconnect-IsSingle :
    (k : ℕ) (err : Option WsError) (c : Client) (ts : List Task)
    → k ∷ calls ts ≡ consed c.reconnect_call []
    → without c.conn c.open_connections ≡ []
    → IsSingle (finish_reconnect k err c).1 ts
unfolding finish_reconnect
finish_reconnect-IsSingle k err c ts e h =
    let (only, rest) = own_call c.reconnect_call e in
    simp (only, same_pointer_self k) (record { one_call = rest; one_connection = h })
  where
    own_call : (o : Option ℕ) → k ∷ calls ts ≡ consed o [] → (o ≡ some k) × (calls ts ≡ [])
    own_call none q = absurd (cc q)
    own_call (some j) q = (cc q, cc q)

-- a task that is not about a reconnect, and one that is
move-Keeps :
    (t : Task) (a : Answer) (c : Client)
    → call_of t ≡ none
    → Keeps c (move t a c).0 × ((ts : List Task) → calls (keep (move t a c).1 ts) ≡ calls ts)
unfolding move calls
move-Keeps (connect_dials ctx) (network_answers a) c e = (dial-Keeps ctx a c, λ ts. refl)
move-Keeps (connect_dials ctx) timer_fires c e = ((refl, λ h. h), λ ts. refl)
move-Keeps (connect_dials ctx) context_ends c e = ((refl, λ h. h), λ ts. refl)
move-Keeps (connect_ends ctx err) a c e = (finish_connect-Keeps ctx err c, λ ts. refl)
move-Keeps (retry_checks ctx call n) a c e = absurd (cc e)
move-Keeps (retry_pauses ctx call n) a c e = absurd (cc e)
move-Keeps (retry_resumes ctx call n) a c e = absurd (cc e)
move-Keeps (retry_dials ctx call n) a c e = absurd (cc e)
move-Keeps (retry_ends call err) a c e = absurd (cc e)

same_call :
    (t u : Task) (c d : Client) (ts : List Task)
    → call_of t ≡ call_of u
    → Keeps c d
    → IsSingle c (t ∷ ts)
    → IsSingle d (u ∷ ts)
unfolding calls
same_call t u c d ts e k h = record {
  one_call = ap (λ o. consed o (calls ts)) (sym e) ∙ h.one_call ∙ ap (λ o. consed o []) (sym k.0);
  one_connection = k.1 h.one_connection;
}

resume-call : (ctx call n : ℕ) (o : Option WsError) → call_of (resume ctx call n o) ≡ some call
resume-call ctx call n none = refl
resume-call ctx call n (some e) = refl

after_dial-call :
    (ctx call n : ℕ) (o : Option WsError) → call_of (after_dial ctx call n o) ≡ some call
after_dial-call ctx call n none = refl
after_dial-call ctx call n (some e) = refl

if-call :
    (b : Bool) (t u : Task) (k : ℕ)
    → call_of t ≡ some k
    → call_of u ≡ some k
    → call_of (if b then t else u) ≡ some k
if-call true t u k e f = e
if-call false t u k e f = f

pub move-IsSingle :
    (t : Task) (a : Answer) (c : Client) (ts : List Task)
    → IsSingle c (t ∷ ts)
    → let (d, left) = move t a c in IsSingle d (keep left ts)
unfolding move calls
move-IsSingle (connect_dials ctx) (network_answers a) c ts h =
    same_call (connect_dials ctx) (connect_ends ctx (dial ctx a c).0) c (dial ctx a c).1 ts refl
      (dial-Keeps ctx a c) h
move-IsSingle (connect_dials ctx) timer_fires c ts h = h
move-IsSingle (connect_dials ctx) context_ends c ts h = h
move-IsSingle (connect_ends ctx err) a c ts h =
    kept c (finish_connect ctx err c).1 ts (finish_connect-Keeps ctx err c)
      (record { one_call = h.one_call; one_connection = h.one_connection })
move-IsSingle (retry_checks ctx call n) a c ts h =
    same_call (retry_checks ctx call n)
      (if is_exhausted c.max_retries n
        then retry_ends call (some retries_exhausted)
        else retry_pauses ctx call n)
      c c ts (sym (if-call (is_exhausted c.max_retries n) _ _ call refl refl)) (refl, λ k. k) h
move-IsSingle (retry_pauses ctx call n) timer_fires c ts h =
    same_call (retry_pauses ctx call n) (retry_resumes ctx call n) c c ts refl (refl, λ k. k) h
move-IsSingle (retry_pauses ctx call n) context_ends c ts h =
    same_call (retry_pauses ctx call n)
      (if has_id ctx c.done_contexts
        then retry_ends call (state_error ctx c)
        else retry_pauses ctx call n)
      c c ts (sym (if-call (has_id ctx c.done_contexts) _ _ call refl refl)) (refl, λ k. k) h
move-IsSingle (retry_pauses ctx call n) (network_answers a) c ts h = h
move-IsSingle (retry_resumes ctx call n) a c ts h =
    same_call (retry_resumes ctx call n) (resume ctx call n (state_error ctx c)) c c ts
      (sym (resume-call ctx call n (state_error ctx c))) (refl, λ k. k) h
move-IsSingle (retry_dials ctx call n) (network_answers a) c ts h =
    same_call (retry_dials ctx call n) (after_dial ctx call n (dial ctx a c).0) c (dial ctx a c).1
      ts (sym (after_dial-call ctx call n (dial ctx a c).0)) (dial-Keeps ctx a c) h
move-IsSingle (retry_dials ctx call n) timer_fires c ts h = h
move-IsSingle (retry_dials ctx call n) context_ends c ts h = h
move-IsSingle (retry_ends call err) a c ts h =
    finish_reconnect-IsSingle call err c ts h.one_call h.one_connection

-- where no task is about a reconnect, no step makes one so
step_task-quiet :
    (i : ℕ) (a : Answer) (ts : List Task) (c : Client)
    → calls ts ≡ []
    → let (d, us) = step_task i a ts c in Keeps c d × (calls us ≡ [])
unfolding step_task calls
step_task-quiet i a [] c e = ((refl, λ h. h), e)
step_task-quiet zero a (t ∷ ts) c e = elim (Option-cases (call_of t)) [
  | inl f ↦
      let (k, same) = move-Keeps t a c f in (k, same ts ∙ ap (λ o. consed o (calls ts)) (sym f) ∙ e)
  | inr (j, f) ↦ absurd (cc (sym (ap (λ o. consed o (calls ts)) f) ∙ e))
]
step_task-quiet (suc i) a (t ∷ ts) c e = elim (Option-cases (call_of t)) [
  | inl f ↦
      let (k, same) = step_task-quiet i a ts c (ap (λ o. consed o (calls ts)) (sym f) ∙ e) in
      (k, ap (λ o. consed o (calls (step_task i a ts c).1)) f ∙ same)
  | inr (j, f) ↦ absurd (cc (sym (ap (λ o. consed o (calls ts)) f) ∙ e))
]

step_task-IsSingle :
    (i : ℕ) (a : Answer) (ts : List Task) (c : Client)
    → IsSingle c ts
    → let (d, us) = step_task i a ts c in IsSingle d us
unfolding step_task calls
step_task-IsSingle i a [] c h = h
step_task-IsSingle zero a (t ∷ ts) c h = move-IsSingle t a c ts h
step_task-IsSingle (suc i) a (t ∷ ts) c h = elim (Option-cases (call_of t)) [
  | inl f ↦
      let k = step_task-IsSingle i a ts c (record {
        one_call = ap (λ o. consed o (calls ts)) (sym f) ∙ h.one_call;
        one_connection = h.one_connection;
      }) in
      record {
        one_call = ap (λ o. consed o (calls (step_task i a ts c).1)) f ∙ k.one_call;
        one_connection = k.one_connection;
      }
  | inr (j, f) ↦
      let none_left =
        others c.reconnect_call (sym (ap (λ o. consed o (calls ts)) f) ∙ h.one_call) in
      let (k, same) = step_task-quiet i a ts c none_left in
      record {
        one_call =
            ap (consed (call_of t)) (same ∙ sym none_left)
            ∙ h.one_call
            ∙ ap (λ o. consed o []) (sym k.0);
        one_connection = k.1 h.one_connection;
      }
]
  where
    others : {j : ℕ} (o : Option ℕ) → j ∷ calls ts ≡ consed o [] → calls ts ≡ []
    others none q = absurd (cc q)
    others (some k) q = cc q

apply-IsSingle :
    (e : Event) (w : World)
    → IsSingle w.client w.tasks
    → IsSingle (apply e w).client (apply e w).tasks
unfolding apply calls
apply-IsSingle connects w h = elim (Sum-cases (begin_connect w.client).0) [
  | inl (e, f) ↦
      simp f (kept w.client (begin_connect w.client).1 w.tasks (begin_connect-Keeps w.client) h)
  | inr (k, f) ↦ simp f (record {
    one_call =
        (kept w.client (begin_connect w.client).1 w.tasks (begin_connect-Keeps w.client)
          h).one_call;
    one_connection =
        (kept w.client (begin_connect w.client).1 w.tasks (begin_connect-Keeps w.client)
          h).one_connection;
  })
]
apply-IsSingle closes w h = kept w.client (close w.client) w.tasks (close-Keeps w.client) h
apply-IsSingle (ends_context ctx) w h =
    kept w.client (cancel_context ctx w.client) w.tasks (refl, λ k. k) h
apply-IsSingle (fails_read k e) w h = read_failed-IsSingle k e w.client w.tasks h
apply-IsSingle (fails_write k) w h = begin_reconnect-IsSingle k w.client w.tasks h
apply-IsSingle (fails_plain_write k) w h =
    kept w.client (close_connection k w.client) w.tasks (close_connection-Keeps k w.client) h
apply-IsSingle (moves i a) w h = step_task-IsSingle i a w.tasks w.client h
apply-IsSingle (sets_backoff n initial maximum) w h = record {
  one_call = h.one_call;
  one_connection = h.one_connection;
}
apply-IsSingle (sets_codes codes) w h = record {
  one_call = h.one_call;
  one_connection = h.one_connection;
}
apply-IsSingle (sets_pong_wait wait) w h = record {
  one_call = h.one_call;
  one_connection = h.one_connection;
}

pub run-IsSingle :
    (es : List Event) (w : World)
    → IsSingle w.client w.tasks
    → IsSingle (run es w).client (run es w).tasks
unfolding run
run-IsSingle [] w h = h
run-IsSingle (e ∷ es) w h = run-IsSingle es (apply e w) (apply-IsSingle e w h)

-- Whatever its users and the network do, a client has at most one reconnect under way, the one it
-- knows as its reconnect call, and at most one connection that nobody closed, its current one.
pub started-IsSingle : (es : List Event) → let w = run es started in IsSingle w.client w.tasks
unfolding new_client calls
started-IsSingle es = run-IsSingle es started (record { one_call = refl; one_connection = refl })
