-- ===== src/Ws/Retry.antt =====
-- `reconnectDelay`, and the loop `runReconnect` with the calls that are under way, as tasks that
-- move one critical section at a time. Durations are nanoseconds, far below the bound of int64.
use mosona_manager.Ws.Client.{
  WsError, Client, has_id, state_error, finish_connect, DialAnswer, dial, finish_reconnect,
  retries_exhausted,
}
use mosona_manager.Prelude.{
  Bool, Option, false, if◌then◌else◌, leb, ltb, none, some, suc, zero, ℕ, ◌*◌, ◌+◌, ◌-◌, ◌/◌, ◌==◌,
}

-- the doubling loop
unfoldable pub grow : ℕ → ℕ → ℕ → ℕ
grow zero maximum delay = delay
grow (suc n) maximum delay =
    let doubled = delay * 2 in
    let rest = grow n maximum (if ltb maximum doubled then maximum else doubled) in
    if ltb delay maximum then rest else delay

-- plus or minus a fifth; `random n` is `rand.Int64N n`
unfoldable pub jitter : (ℕ → ℕ) → ℕ → ℕ
jitter random delay =
    let window = delay / 5 in
    if window == 0 then delay else delay - window + random (window * 2 + 1)

unfoldable pub reconnect_delay : (ℕ → ℕ) → ℕ → Client → ℕ
unfolding grow jitter
reconnect_delay random retries c = jitter random (grow retries c.max_retry_delay c.retry_interval)

-- a call under way and where it is: `Connect` dialling or about to end, and `reconnect`, with its
-- context, its call and the attempts so far, at the head of the loop, in the pause, behind it,
-- about to dial or about to end
pub data Task : Type 0 where
  connect_dials : ℕ → Task
  connect_ends : ℕ → Option WsError → Task
  retry_checks retry_pauses retry_resumes retry_dials : ℕ → ℕ → ℕ → Task
  retry_ends : ℕ → Option WsError → Task

-- what a task meets: its timer, the end of its context, or the network's answer
pub data Answer : Type 0 where
  timer_fires context_ends : Answer
  network_answers : DialAnswer → Answer

abbrev pub is_exhausted : Option ℕ → ℕ → Bool
is_exhausted none retries = false
is_exhausted (some limit) retries = leb limit retries

-- `runReconnect` after `stateError`, which is nil where it goes on
abbrev pub resume : ℕ → ℕ → ℕ → Option WsError → Task
resume ctx call retries none = retry_dials ctx call retries
resume ctx call retries (some e) = retry_ends call (some e)

-- `runReconnect` after `dial`
abbrev pub after_dial : ℕ → ℕ → ℕ → Option WsError → Task
after_dial ctx call retries none = retry_ends call none
after_dial ctx call retries (some e) = retry_checks ctx call (retries + 1)

-- a step of a task; an answer that it does not ask for changes nothing
unfoldable pub move : Task → Answer → Client → Client × Option Task
unfolding dial finish_connect finish_reconnect state_error has_id
move (connect_dials ctx) (network_answers a) c =
    let (err, installed) = dial ctx a c in (installed, some (connect_ends ctx err))
move (connect_dials ctx) _ c = (c, some (connect_dials ctx))
move (connect_ends ctx err) a c = ((finish_connect ctx err c).1, none)
move (retry_checks ctx call n) a c = (
  c,
  some (
      if is_exhausted c.max_retries n
      then retry_ends call (some retries_exhausted)
      else retry_pauses ctx call n),
)
move (retry_pauses ctx call n) timer_fires c = (c, some (retry_resumes ctx call n))
move (retry_pauses ctx call n) context_ends c = (
  c,
  some (
      if has_id ctx c.done_contexts
      then retry_ends call (state_error ctx c)
      else retry_pauses ctx call n),
)
move (retry_pauses ctx call n) (network_answers a) c = (c, some (retry_pauses ctx call n))
move (retry_resumes ctx call n) a c = (c, some (resume ctx call n (state_error ctx c)))
move (retry_dials ctx call n) (network_answers a) c =
    let (err, installed) = dial ctx a c in (installed, some (after_dial ctx call n err))
move (retry_dials ctx call n) _ c = (c, some (retry_dials ctx call n))
move (retry_ends call err) a c = ((finish_reconnect call err c).1, none)
