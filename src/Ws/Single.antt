-- ===== src/Ws/Single.antt =====
-- What every client keeps to: one reconnect at a time, and one connection.
use mosona_manager.Ws.Client.{
  Client, has_id, remove_id, without, same_pointer, close_connection, install, WsError,
  is_terminal_close_error, begin_connect, finish_connect, DialAnswer, dial, unless_terminal,
  unless_running, with_context, begin_reconnect, close, refuse, read_failed, refused, dialled,
}
use mosona_manager.Ws.Retry.{
  Task, connect_dials, connect_ends, retry_checks, retry_pauses, retry_resumes, retry_dials,
  retry_ends,
}
use mosona_manager.Ws.World.{reconnecting_task}
use mosona_manager.Prelude.{
  Bool-cases, List, Option, [], ap, arith, inl, inr, is_some, ltb, none, not, refl, some, sym, true,
  ℕ, ◌==◌, ◌||◌, ◌∙◌, ◌∷◌, ◌≡◌,
}

-- the reconnect call that a task is about
abbrev pub call_of : Task → Option ℕ
call_of (connect_dials ctx) = none
call_of (connect_ends ctx err) = none
call_of (retry_checks ctx call n) = some call
call_of (retry_pauses ctx call n) = some call
call_of (retry_resumes ctx call n) = some call
call_of (retry_dials ctx call n) = some call
call_of (retry_ends call err) = some call

abbrev pub consed : Option ℕ → List ℕ → List ℕ
consed none ks = ks
consed (some k) ks = k ∷ ks

-- the reconnect calls of the tasks
unfoldable pub calls : List Task → List ℕ
calls [] = []
calls (t ∷ ts) = consed (call_of t) (calls ts)

pub record IsSingle (c : Client) (ts : List Task) : Type 0 where
  pub one_call : calls ts ≡ consed c.reconnect_call []
  pub one_connection : without c.conn c.open_connections ≡ []

pub same_pointer-true : (o : Option ℕ) (k : ℕ) → same_pointer o k ≡ true → o ≡ some k
same_pointer-true none k e = absurd (cc e)
same_pointer-true (some j) k e = ap some (ground arith)

pub same_pointer_self : (k : ℕ) → (k == k) ≡ true
same_pointer_self k = ground arith

-- which operations leave the call and the connections as they are
abbrev pub Keeps : Client → Client → Type 0
Keeps c d =
    (d.reconnect_call ≡ c.reconnect_call)
    × (without c.conn c.open_connections ≡ [] → without d.conn d.open_connections ≡ [])

remove-remove :
    (i j : ℕ) (ks : List ℕ) → remove_id i (remove_id j ks) ≡ remove_id j (remove_id i ks)
unfolding remove_id
remove-remove i j [] = refl
remove-remove i j (k ∷ ks) = ground (arith, remove-remove i j ks)

without-remove :
    (o : Option ℕ) (j : ℕ) (ks : List ℕ) → without o ks ≡ [] → without o (remove_id j ks) ≡ []
unfolding remove_id
without-remove none j ks e = rw e refl
without-remove (some i) j ks e = rw (remove-remove i j ks, e) refl

pub close_connection-Keeps : (k : ℕ) (c : Client) → Keeps c (close_connection k c)
close_connection-Keeps k c = (refl, λ e. without-remove c.conn k c.open_connections e)

install-Keeps : (ctx : ℕ) (c : Client) → Keeps c (install ctx c).1
unfolding install remove_id
install-Keeps ctx c =
    elim (Bool-cases (c.closed || (not (same_pointer c.ctx ctx) || has_id ctx c.done_contexts))) [
      | inl e ↦ simp e (refl, λ h. h)
      | inr e ↦ simp e (refl, λ h. rw (same_pointer_self c.next, h) refl)
    ]

pub dial-Keeps : (ctx : ℕ) (a : DialAnswer) (c : Client) → Keeps c (dial ctx a c).1
unfolding dial
dial-Keeps ctx (refused e) c = (refl, λ h. h)
dial-Keeps ctx (dialled none) c = install-Keeps ctx c
dial-Keeps ctx (dialled (some e)) c = elim (Bool-cases (ltb 0 c.pong_wait)) [
  | inl t ↦ simp t (refl, λ h. h)
  | inr t ↦ simp t (install-Keeps ctx c)
]

pub finish_connect-Keeps :
    (ctx : ℕ) (err : Option WsError) (c : Client) → Keeps c (finish_connect ctx err c).1
unfolding finish_connect
finish_connect-Keeps ctx none c = elim (Bool-cases (same_pointer c.ctx ctx)) [
  | inl t ↦ simp t (refl, λ h. h)
  | inr t ↦ simp t (refl, λ h. h)
]
finish_connect-Keeps ctx (some e) c = elim (Bool-cases (same_pointer c.ctx ctx)) [
  | inl t ↦ simp t (refl, λ h. h)
  | inr t ↦ simp t (refl, λ h. h)
]

pub close-Keeps : (c : Client) → Keeps c (close c)
unfolding close
close-Keeps c = elim (Bool-cases c.closed) [
  | inl t ↦ simp t (refl, λ h. h)
  | inr t ↦ simp t (refl, λ h. h)
]

pub begin_connect-Keeps : (c : Client) → Keeps c (begin_connect c).1
unfolding begin_connect
begin_connect-Keeps c = elim (Bool-cases c.closed) [
  | inl t ↦ simp t (refl, λ h. h)
  | inr t ↦ elim (Bool-cases (c.connecting || is_some c.ctx)) [
    | inl u ↦ simp (t, u) (refl, λ h. h)
    | inr u ↦ simp (t, u) (refl, λ h. h)
  ]
]

refuse-Keeps : (k : ℕ) (e : WsError) (c : Client) → Keeps c (refuse k e c)
unfolding refuse
refuse-Keeps k e c = elim (Bool-cases (same_pointer c.conn k)) [
  | inl t ↦ simp t (
    refl,
    λ h. rw (sym (ap (λ o. without o c.open_connections) (same_pointer-true c.conn k t))) h,
  )
  | inr t ↦ simp t (close_connection-Keeps k c)
]

-- a reconnect that starts
pub begin_reconnect-IsSingle :
    (k : ℕ) (c : Client) (ts : List Task)
    → IsSingle c ts
    → let (start, d) = begin_reconnect k c in IsSingle d (reconnecting_task start ts)
unfolding begin_reconnect calls
begin_reconnect-IsSingle k c ts h = elim (Bool-cases c.closed) [
  | inl t ↦ simp t h
  | inr t ↦ simp t (in_context c.ctx)
]
  where
    unless_terminal-IsSingle :
        (ctx : ℕ) (o : Option WsError)
        → c.reconnect_call ≡ none
        → c.conn ≡ some k
        → let (start, d) = unless_terminal k ctx o c in IsSingle d (reconnecting_task start ts)
    unless_terminal-IsSingle ctx (some e) f g = h
    unless_terminal-IsSingle ctx none f g = record {
      one_call = ap (λ ks. c.next ∷ ks) (h.one_call ∙ ap (λ o. consed o []) f);
      one_connection = sym (ap (λ o. without o c.open_connections) g) ∙ h.one_connection;
    }

    unless_running-IsSingle :
        (ctx : ℕ) (o : Option ℕ)
        → c.reconnect_call ≡ o
        → let (start, d) = unless_running k ctx o c in IsSingle d (reconnecting_task start ts)
    unless_running-IsSingle ctx (some call) f = h
    unless_running-IsSingle ctx none f = elim (Bool-cases (same_pointer c.conn k)) [
      | inl t ↦
          simp t (unless_terminal-IsSingle ctx c.terminal_err f (same_pointer-true c.conn k t))
      | inr t ↦ simp t h
    ]

    in_context :
        (o : Option ℕ)
        → let (start, d) = with_context k o c in IsSingle d (reconnecting_task start ts)
    in_context none = h
    in_context (some ctx) = unless_running-IsSingle ctx c.reconnect_call refl

pub kept : (c d : Client) (ts : List Task) → Keeps c d → IsSingle c ts → IsSingle d ts
kept c d ts k h = record {
  one_call = h.one_call ∙ ap (λ o. consed o []) (sym k.0);
  one_connection = k.1 h.one_connection;
}

pub read_failed-IsSingle :
    (k : ℕ) (e : WsError) (c : Client) (ts : List Task)
    → IsSingle c ts
    → let (start, d) = read_failed k e c in IsSingle d (reconnecting_task start ts)
unfolding read_failed
read_failed-IsSingle k e c ts h = elim (Bool-cases (is_terminal_close_error e c)) [
  | inl t ↦ simp t (kept c (refuse k e c) ts (refuse-Keeps k e c) h)
  | inr t ↦ simp t (begin_reconnect-IsSingle k c ts h)
]
