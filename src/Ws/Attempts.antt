-- ===== src/Ws/Attempts.antt =====
-- The steps of a reconnect, and what each of them leaves to do.
use mosona_manager.Ws.Client.{
  Client, has_id, same_pointer, DialAnswer, install, dial, refused, dialled, WsError, state_error,
  retries_exhausted,
}
use mosona_manager.Ws.Retry.{
  Task, Answer, move, connect_dials, connect_ends, retry_checks, retry_pauses, retry_resumes,
  retry_dials, retry_ends, timer_fires, network_answers, resume, after_dial,
}
use mosona_manager.Ws.Single.{call_of}
use mosona_manager.Prelude.{
  Bool-cases, List, Option, [], arith, false, inl, inr, leb, leb→le, ltb, none, not, refl, some,
  true, ℕ, ◌*◌, ◌+◌, ◌-◌, ◌<◌, ◌||◌, ◌∙◌, ◌∷◌, ◌≡◌, ◌≤◌, ◌⊎◌,
}

-- what a task gets that is not interrupted: its timer, and an answer of the network
abbrev pub answer : Task → DialAnswer → Answer
answer (retry_pauses ctx call n) a = timer_fires
answer t a = network_answers a

-- whether the next step of a task dials
abbrev pub is_dialling : Task → ℕ
is_dialling (retry_dials ctx call n) = 1
is_dialling t = 0

abbrev pub continued :
    Client → ℕ → Option Task → (Task → Client × Option Task × ℕ) → Client × Option Task × ℕ
continued d n none more = (d, none, n)
continued d n (some u) more = let (e, left, m) = more u in (e, left, n + m)

-- a task moves on until it ends: the client, what is left of the task, and how often it dialled
unfoldable pub finish : List DialAnswer → Task → Client → Client × Option Task × ℕ
unfolding move
finish [] t c = (c, some t, 0)
finish (a ∷ answers) t c =
    let (d, left) = move t (answer t a) c in
    continued d (is_dialling t) left (λ u. finish answers u d)

-- the steps that a task has left, at most
abbrev pub moves_left : ℕ → Task → ℕ
moves_left m (connect_dials ctx) = 2
moves_left m (connect_ends ctx err) = 1
moves_left m (retry_checks ctx call n) = 2 + 4 * (m - n)
moves_left m (retry_pauses ctx call n) = 5 + 4 * (m - (n + 1))
moves_left m (retry_resumes ctx call n) = 4 + 4 * (m - (n + 1))
moves_left m (retry_dials ctx call n) = 3 + 4 * (m - (n + 1))
moves_left m (retry_ends call err) = 1

-- how often it still dials, at most
abbrev pub dials_left : ℕ → Task → ℕ
dials_left m (retry_checks ctx call n) = m - n
dials_left m (retry_pauses ctx call n) = 1 + (m - (n + 1))
dials_left m (retry_resumes ctx call n) = 1 + (m - (n + 1))
dials_left m (retry_dials ctx call n) = 1 + (m - (n + 1))
dials_left m t = 0

install-retries : (ctx : ℕ) (c : Client) → (install ctx c).1.max_retries ≡ c.max_retries
unfolding install
install-retries ctx c =
    elim (Bool-cases (c.closed || (not (same_pointer c.ctx ctx) || has_id ctx c.done_contexts))) [
      | inl t ↦ simp t refl
      | inr t ↦ simp t refl
    ]

dial-retries :
    (ctx : ℕ) (a : DialAnswer) (c : Client) → (dial ctx a c).1.max_retries ≡ c.max_retries
unfolding dial
dial-retries ctx (refused e) c = refl
dial-retries ctx (dialled none) c = install-retries ctx c
dial-retries ctx (dialled (some e)) c = elim (Bool-cases (ltb 0 c.pong_wait)) [
  | inl t ↦ simp t refl
  | inr t ↦ simp t (install-retries ctx c)
]

-- what a step of a reconnect leaves: nothing, or a task of the same client that has less left
pub record IsNearer (m : ℕ) (t : Task) (d : Client) (u : Task) : Type 0 where
  pub about : call_of u ≡ call_of t
  pub limited : d.max_retries ≡ some m
  pub nearer : moves_left m u < moves_left m t
  pub fewer : dials_left m u + is_dialling t ≤ dials_left m t

exhausted_or : (m n : ℕ) → ((leb m n ≡ true) × (m ≤ n)) ⊎ ((leb m n ≡ false) × (n < m))
exhausted_or m n = elim (Bool-cases (leb m n)) [
  | inl t ↦ inl (t, leb→le m n t)
  | inr t ↦ inr (t, ground arith)
]

pub move-IsNearer :
    (m : ℕ) (t : Task) (a : DialAnswer) (c : Client)
    → c.max_retries ≡ some m
    → (j : ℕ) × (call_of t ≡ some j)
    → ((call : ℕ) × (err : Option WsError) × (t ≡ retry_ends call err))
      ⊎ ((u : Task) × ((move t (answer t a) c).1 ≡ some u)
          × IsNearer m t (move t (answer t a) c).0 u)
unfolding move
move-IsNearer m (connect_dials ctx) a c e (j, k) = absurd (cc k)
move-IsNearer m (connect_ends ctx err) a c e (j, k) = absurd (cc k)
move-IsNearer m (retry_checks ctx call n) a c e k = inr (elim (exhausted_or m n) [
  | inl (t, le) ↦ (
    retry_ends call (some retries_exhausted),
    rw (e, t) refl,
    record { about = refl; limited = e; nearer = omega arith; fewer = omega arith },
  )
  | inr (t, lt) ↦ (
    retry_pauses ctx call n,
    rw (e, t) refl,
    record { about = refl; limited = e; nearer = omega (arith, lt); fewer = omega (arith, lt) },
  )
])
move-IsNearer m (retry_pauses ctx call n) a c e k = inr (
  retry_resumes ctx call n,
  refl,
  record { about = refl; limited = e; nearer = omega arith; fewer = omega arith },
)
move-IsNearer m (retry_resumes ctx call n) a c e k = inr (resumed (state_error ctx c))
  where
    resumed :
        (o : Option WsError)
        → (u : Task) × (some (resume ctx call n o) ≡ some u)
          × IsNearer m (retry_resumes ctx call n) c u
    resumed none = (
      retry_dials ctx call n,
      refl,
      record { about = refl; limited = e; nearer = omega arith; fewer = omega arith },
    )
    resumed (some x) = (
      retry_ends call (some x),
      refl,
      record { about = refl; limited = e; nearer = omega arith; fewer = omega arith },
    )
move-IsNearer m (retry_dials ctx call n) a c e k = inr (after_answer (dial ctx a c).0)
  where
    after_answer :
        (o : Option WsError)
        → (u : Task) × (some (after_dial ctx call n o) ≡ some u)
          × IsNearer m (retry_dials ctx call n) (dial ctx a c).1 u
    after_answer none = (
      retry_ends call none,
      refl,
      record {
        about = refl;
        limited = dial-retries ctx a c ∙ e;
        nearer = omega arith;
        fewer = omega arith;
      },
    )
    after_answer (some x) = (
      retry_checks ctx call (n + 1),
      refl,
      record {
        about = refl;
        limited = dial-retries ctx a c ∙ e;
        nearer = omega arith;
        fewer = omega arith;
      },
    )
move-IsNearer m (retry_ends call err) a c e k = inl (call, err, refl)

pub moves_left_pos : (m : ℕ) (t : Task) → 0 < moves_left m t
moves_left_pos m (connect_dials ctx) = omega arith
moves_left_pos m (connect_ends ctx err) = omega arith
moves_left_pos m (retry_checks ctx call n) = omega arith
moves_left_pos m (retry_pauses ctx call n) = omega arith
moves_left_pos m (retry_resumes ctx call n) = omega arith
moves_left_pos m (retry_dials ctx call n) = omega arith
moves_left_pos m (retry_ends call err) = omega arith
