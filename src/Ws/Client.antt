-- ===== src/Ws/Client.antt =====
-- `Client` and its operations up to their critical sections: each function is what happens from
-- taking the mutex to giving it up, with the calls after it that only close a connection or cancel
-- a context. Connections, contexts and reconnect calls are pointers: numbers from `next`.
use mosona_manager.Prelude.{
  Bool, List, Option, [], false, if◌then◌else◌, inl, inr, is_some, ltb, none, not, some, true, ℕ,
  ◌+◌, ◌==◌, ◌||◌, ◌∷◌, ◌⊎◌,
}

-- the errors that the client makes, and those that it passes on
pub data WsError : Type 0 where
  client_closed already_connected close_sent not_connected : WsError
  context_done retries_exhausted : WsError
  network_error close_frame : ℕ → WsError

pub record Client : Type 0 where
  pub closed : Bool
  pub connecting : Bool
  pub ctx : Option ℕ
  pub conn : Option ℕ
  pub reconnect_call : Option ℕ
  pub terminal_err : Option WsError
  pub terminal_close_codes : List ℕ
  -- `none` where the number is negative, for no limit
  pub max_retries : Option ℕ
  pub retry_interval : ℕ
  pub max_retry_delay : ℕ
  pub pong_wait : ℕ
  -- outside the client: the contexts that are done, the connections that nobody has closed, and
  -- the next pointer
  pub done_contexts : List ℕ
  pub open_connections : List ℕ
  pub next : ℕ

unfoldable pub has_id : ℕ → List ℕ → Bool
has_id i [] = false
has_id i (j ∷ js) = if i == j then true else has_id i js

unfoldable pub remove_id : ℕ → List ℕ → List ℕ
remove_id i [] = []
remove_id i (j ∷ js) = let rest = remove_id i js in if i == j then rest else j ∷ rest

-- without the connection that a nil-able pointer points to
abbrev pub without : Option ℕ → List ℕ → List ℕ
without none ks = ks
without (some k) ks = remove_id k ks

-- a nil-able pointer against one that is not nil
abbrev pub same_pointer : Option ℕ → ℕ → Bool
same_pointer none k = false
same_pointer (some j) k = j == k

unfoldable pub new_client : Client
new_client = record {
  closed = false;
  connecting = false;
  ctx = none;
  conn = none;
  reconnect_call = none;
  terminal_err = none;
  terminal_close_codes = [];
  max_retries = none;
  retry_interval = 5000000000;
  max_retry_delay = 5000000000;
  pong_wait = 0;
  done_contexts = [];
  open_connections = [];
  next = 0;
}

abbrev pub set_reconnect_config : Option ℕ → ℕ → Client → Client
set_reconnect_config retries interval c = record c {
  max_retries = retries;
  retry_interval = interval;
  max_retry_delay = interval;
}

abbrev pub set_reconnect_backoff : Option ℕ → ℕ → ℕ → Client → Client
set_reconnect_backoff retries initial maximum c = record c {
  max_retries = retries;
  retry_interval = initial;
  max_retry_delay = maximum;
}

abbrev pub set_terminal_close_codes : List ℕ → Client → Client
set_terminal_close_codes codes c = record c { terminal_close_codes = codes }

unfoldable pub is_terminal_close_error : WsError → Client → Bool
unfolding has_id
is_terminal_close_error (close_frame code) c = has_id code c.terminal_close_codes
is_terminal_close_error _ c = false

abbrev pub cancel_context : ℕ → Client → Client
cancel_context ctx c = record c { done_contexts = ctx ∷ c.done_contexts }

abbrev pub close_connection : ℕ → Client → Client
close_connection k c = record c { open_connections = remove_id k c.open_connections }

unfoldable pub state_error : ℕ → Client → Option WsError
unfolding has_id
state_error ctx c =
    if c.closed
    then some client_closed
    else if has_id ctx c.done_contexts
    then some context_done
    else none

-- `Connect` up to `dial`: an error, or the context under which it dials
unfoldable pub begin_connect : Client → (WsError ⊎ ℕ) × Client
begin_connect c =
    if c.closed
    then (inl client_closed, c)
    else if c.connecting || is_some c.ctx
    then (inl already_connected, c)
    else (inr c.next, record c { ctx = some c.next; connecting = true; next = c.next + 1 })

abbrev pub settle_connect : Option WsError → Client → Client
settle_connect none c = record c { connecting = false }
settle_connect (some e) c = record c {
  connecting = false;
  ctx = if not c.closed then none else c.ctx;
}

abbrev pub cancel_if_failed : ℕ → Option WsError → Client → Client
cancel_if_failed ctx none c = c
cancel_if_failed ctx (some e) c = cancel_context ctx c

-- `Connect` after `dial`
unfoldable pub finish_connect : ℕ → Option WsError → Client → Option WsError × Client
finish_connect ctx err c = (
  if c.closed then some client_closed else err,
  cancel_if_failed ctx err (if same_pointer c.ctx ctx then settle_connect err c else c),
)

-- what the network answers to `dialContext`: an error, or a new connection with what setting its
-- pong deadline reports
pub data DialAnswer : Type 0 where
  refused : ℕ → DialAnswer
  dialled : Option ℕ → DialAnswer

abbrev pub or_error : Option WsError → WsError → Option WsError
or_error none e = some e
or_error (some s) e = some s

-- the end of `dial`, with a connection that is ready
unfoldable pub install : ℕ → Client → Option WsError × Client
unfolding has_id remove_id
install ctx c =
    if c.closed || (not (same_pointer c.ctx ctx) || has_id ctx c.done_contexts)
    then (
      if c.closed
          then some client_closed
          else if has_id ctx c.done_contexts
          then some context_done
          else none,
      c,
    )
    else (
      none,
      record c {
        conn = some c.next;
        open_connections = c.next ∷ without c.conn c.open_connections;
        next = c.next + 1;
      },
    )

abbrev pub set_deadline_or :
    Option ℕ → ℕ → Option WsError × Client → Client → Option WsError × Client
set_deadline_or none wait installed c = installed
set_deadline_or (some e) wait installed c =
    if ltb 0 wait then (some (network_error e), c) else installed

-- `dial`; a connection that is closed again within it is not counted among those that are open
unfoldable pub dial : ℕ → DialAnswer → Client → Option WsError × Client
unfolding state_error install
dial ctx (refused e) c = (or_error (state_error ctx c) (network_error e), c)
dial ctx (dialled deadline) c = set_deadline_or deadline c.pong_wait (install ctx c) c

-- the start of `reconnect`: it returns, waits for a reconnect that runs, or runs one
pub data ReconnectStart : Type 0 where
  reconnect_returns : Option WsError → ReconnectStart
  reconnect_waits reconnect_runs : ℕ → ℕ → ReconnectStart

abbrev pub unless_terminal : ℕ → ℕ → Option WsError → Client → ReconnectStart × Client
unless_terminal failed ctx (some e) c = (reconnect_returns (some e), c)
unless_terminal failed ctx none c = (
  reconnect_runs ctx c.next,
  close_connection failed
      (record c { reconnect_call = some c.next; conn = none; next = c.next + 1 }),
)

abbrev pub unless_running : ℕ → ℕ → Option ℕ → Client → ReconnectStart × Client
unless_running failed ctx (some call) c = (reconnect_waits ctx call, c)
unless_running failed ctx none c =
    if not (same_pointer c.conn failed)
    then (reconnect_returns none, c)
    else unless_terminal failed ctx c.terminal_err c

abbrev pub with_context : ℕ → Option ℕ → Client → ReconnectStart × Client
with_context failed none c = (reconnect_returns (some close_sent), c)
with_context failed (some ctx) c = unless_running failed ctx c.reconnect_call c

unfoldable pub begin_reconnect : ℕ → Client → ReconnectStart × Client
begin_reconnect failed c =
    if c.closed then (reconnect_returns (some client_closed), c) else with_context failed c.ctx c

-- the end of `reconnect`
unfoldable pub finish_reconnect : ℕ → Option WsError → Client → Option WsError × Client
finish_reconnect call err c =
    let final = if c.closed then some client_closed else err in
    (
      final,
      if same_pointer c.reconnect_call call
          then record c { reconnect_call = none; terminal_err = final }
          else c,
    )

unfoldable pub close : Client → Client
unfolding remove_id
close c = if c.closed then c else record c {
  closed = true;
  connecting = false;
  conn = none;
  done_contexts = cancelled c.ctx c.done_contexts;
  open_connections = without c.conn c.open_connections;
}
  where
    cancelled : Option ℕ → List ℕ → List ℕ
    cancelled none ks = ks
    cancelled (some ctx) ks = ctx ∷ ks

-- a turn of `connection`
pub data ConnectionAnswer : Type 0 where
  connected : ℕ → ConnectionAnswer
  unconnected : WsError → ConnectionAnswer
  connection_waits : ℕ → ℕ → ConnectionAnswer

abbrev pub connection_of : Option ℕ → Option WsError → Option ℕ → Option ℕ → ConnectionAnswer
connection_of (some k) err call ctx = connected k
connection_of none (some e) call ctx = unconnected e
connection_of none none (some call) (some ctx) = connection_waits ctx call
connection_of none none _ _ = unconnected close_sent

unfoldable pub connection : Client → ConnectionAnswer
connection c =
    if c.closed
    then unconnected client_closed
    else connection_of c.conn c.terminal_err c.reconnect_call c.ctx

-- `SendMessageIfConnected` up to the write: an error, or the connection to write to
unfoldable pub connection_to_send : Client → WsError ⊎ ℕ
connection_to_send c =
    if c.closed
    then inl client_closed
    else if is_some c.reconnect_call
    then inl not_connected
    else current c.conn
  where
    current : Option ℕ → WsError ⊎ ℕ
    current none = inl not_connected
    current (some k) = inr k

-- `SendMessageIfConnected` with the lock for writes, before the write to the connection it has
unfoldable pub recheck_connection : ℕ → Client → Option WsError
recheck_connection k c =
    if c.closed || (not (same_pointer c.conn k) || is_some c.reconnect_call)
    then some not_connected
    else none

-- the end that a final close frame makes to a connection
unfoldable pub refuse : ℕ → WsError → Client → Client
refuse k e c =
    close_connection k
      (if same_pointer c.conn k then record c { conn = none; terminal_err = some e } else c)

-- `ReadMessage` after a read that failed
unfoldable pub read_failed : ℕ → WsError → Client → ReconnectStart × Client
unfolding refuse is_terminal_close_error begin_reconnect
read_failed k e c =
    if is_terminal_close_error e c
    then (reconnect_returns (some e), refuse k e c)
    else begin_reconnect k c
