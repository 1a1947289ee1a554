-- ===== src/Transport.antt =====
-- custom_components/apc_modbus/modbus_transport.py: the single owner of the Modbus client. Time is a
-- count of milliseconds; 0 stands for "never" as in the source. `calls` numbers the calls of the
-- client, whose answers are the parameter `client`, and `trace` lists what was done, the newest
-- first. Opening, reading, writing and closing a connection, a sleep and the persisting of the mode
-- are the effects. The trying of several signatures for one read request is not modelled: a request
-- is one call of the client.
mod Actions
pub mod Keeps
pub mod Promotion
pub mod Writes
pub mod Pacing
pub mod Requests
pub mod Endings
pub mod Answers
pub mod Runs
mod Tests
pub use Actions.*
use apc_modbus_snmp_ha.Prelude.{
  ℕ, ◌+◌, ◌-◌, Bool, true, false, not, ◌&&◌, ◌||◌, Option, none, some, List, [], ◌∷◌, ltb, leb,
  ◌==◌, if◌then◌else◌,
}
use apc_modbus_snmp_ha.Modbus.{
  ExceptionKind, connection_exception, modbus_exception, os_error, timeout_error, value_error,
  runtime_error, Raised, Outcome, returned, raised, Response, write_response_valid, Client,
}

-- The class of socket failures: what `ensure_connection` and `close` catch.
abbrev pub is_connection_failure : ExceptionKind → Bool
is_connection_failure connection_exception = true
is_connection_failure modbus_exception = true
is_connection_failure os_error = true
is_connection_failure timeout_error = true
is_connection_failure _ = false

abbrev pub plain_error : ExceptionKind → Raised
plain_error kind = record {
  kind = kind;
  has_broken_pipe = false;
  has_connection = false;
  has_reset = false;
}

-- `ConnectionException("Unable to open Modbus connection")`
abbrev pub unable_to_open : Raised
unable_to_open = record (plain_error connection_exception) { has_connection = true }

-- `promote`: only out of a session that has had a successful request. The mode is persisted always,
-- since the coordinator passes the callback for it.
pub promote : ExceptionKind → Transport → Transport
promote reason t =
    if is_session t.mode && t.session_request_succeeded
    then note (mode_persisted one_request_per_connection)
        (record t { mode = one_request_per_connection; promotion_reason = some reason })
    else t

unfoldable pub reconnect_pacing_remaining : Transport → ℕ
reconnect_pacing_remaining t =
    if t.min_reconnect_delay == 0 || t.last_close_monotonic == 0
    then 0
    else t.min_reconnect_delay - (t.now - t.last_close_monotonic)

pub await_reconnect_pacing : Action (Unit {0})
unfolding reconnect_pacing_remaining
await_reconnect_pacing t =
    if ltb 0 (reconnect_pacing_remaining t)
    then sleep (reconnect_pacing_remaining t) t
    else (returned tt, t)

abbrev pub mark_closed : Transport → Transport
mark_closed t = record t { last_close_monotonic = t.now }

unfoldable pub mark_io_activity : Transport → Transport
mark_io_activity t = record t {
  last_io_monotonic = t.now;
  session_request_succeeded = is_session t.mode || t.session_request_succeeded;
}

-- `record_failure`: a Modbus exception that is no connection exception promotes nothing.
pub record_failure : Raised → Transport → Transport
unfolding promote
record_failure e t = elim e.kind [
  | connection_exception ↦ promote connection_exception t
  | os_error ↦ promote os_error t
  | timeout_error ↦ promote timeout_error t
  | _ ↦ t
]

-- `effective_keep_connection_open` of the coordinator, which the transport calls back.
unfoldable pub effective_keep_connection_open : Transport → Bool
effective_keep_connection_open t =
    t.keep_connection_open && is_session t.mode && t.same_endpoint_entries == 1

-- The counters and the client that the steps of a reconnect change.
abbrev pub count_reconnect : Transport → Transport
count_reconnect t = record t { reconnect_count = t.reconnect_count + 1 }

abbrev pub count_recreate : Transport → Transport
count_recreate t = record t { recreate_count = t.recreate_count + 1 }

abbrev pub count_failure : Transport → Transport
count_failure t = record t { connect_failures = t.connect_failures + 1 }

abbrev pub clear_failures : Transport → Transport
clear_failures t = record t { connect_failures = 0 }

-- A new client has no automatic retries.
abbrev pub renew_client : Transport → Transport
renew_client t = record t { retries = some 0 }

-- The end of a connect that answered True.
pub connected : Action Bool
connected = do
  modify clear_failures
  modify mark_io_activity
  delay ← gets (λ t. t.post_connect_delay)
  branch (ltb 0 delay) (sleep delay) (pure tt)
  pure true

-- No words, or a client that may send a request again by itself.
abbrev pub is_unsafe : List ℕ → Option ℕ → Bool
is_unsafe [] retries = true
is_unsafe (_ ∷ _) none = false
is_unsafe (_ ∷ _) (some n) = ltb 0 n

module _ (client : Client) where
  -- One call of the client's `connect`; a connection is opened where it answers True.
  pub client_connect : Action Bool
  client_connect = do
    ok ← call client client.connect
    modify (λ t. if ok then note opened t else t)
    pure ok

  pub client_read : ℕ → ℕ → Action Response
  client_read address count = do
    modify (note (read_sent address count))
    call client (λ n. client.read n address count)

  pub client_write : ℕ → List ℕ → Action Response
  client_write address words = do
    modify (note (write_sent address words))
    call client (λ n. client.write n address words)

  -- One call of the client's `close`; the connection counts as closed whether it returns or raises.
  pub client_close : Action (Unit {0})
  client_close t =
      let (r, t') =
        call client (λ n. elim (client.close n) [ none ↦ returned tt | some e ↦ raised e ]) t in
      (r, note closed t')

  -- `client.close()` and then `_mark_closed()`, which a close that raises leaves out
  pub close_and_mark : Action (Unit {0})
  close_and_mark = client_close >> modify mark_closed

  -- `_read_one_request`
  pub read_one_request : ℕ → ℕ → Action Response
  read_one_request address count = do
    await_reconnect_pacing
    ok ← client_connect
    branch ok (finally (client_read address count) close_and_mark) (raise unable_to_open)

  pub read : ℕ → ℕ → Action Response
  read address count = do
    mode ← gets (λ t. t.mode)
    result ← branch (is_session mode) (client_read address count) (read_one_request address count)
    modify mark_io_activity
    pure result

  -- `close`: a socket failure is swallowed, and the time of the close is noted in any case.
  pub close : Action (Unit {0})
  close t =
      let (r, t') = client_close t in
      elim r [
        | returned _ ↦ (returned tt, mark_closed t')
        | raised e ↦
            (if is_connection_failure e.kind then returned tt else raised e, mark_closed t')
      ]

  -- `_recreate_client`
  pub recreate_client : Action (Unit {0})
  recreate_client = close >> modify renew_client

  -- `reconnect`, by whether the client is created anew
  pub reconnect : Bool → Action Bool
  reconnect recreate = do
    modify count_reconnect
    branch recreate (modify count_recreate >> recreate_client) close
    await_reconnect_pacing
    ok ← client_connect
    branch ok connected (pure false)

  -- A connect that answered False: the third in a row creates the client anew.
  pub failed_connect : Action Bool
  failed_connect = do
    modify count_failure
    failures ← gets (λ t. t.connect_failures)
    branch (leb 3 failures) (modify clear_failures >> reconnect true) (pure false)

  -- `ensure_connection` behind the idle check: a socket failure gives False.
  pub open_session : Action Bool
  open_session t =
      let (r, t') =
        (do await_reconnect_pacing; ok ← client_connect; branch ok connected failed_connect) t in
      elim r [
        | returned ok ↦ (returned ok, t')
        | raised e ↦ (if is_connection_failure e.kind then returned false else raised e, t')
      ]

  pub ensure_connection : Action Bool
  ensure_connection t =
      if not (is_session t.mode)
      then (returned true, t)
      else if effective_keep_connection_open t
          && ltb 0 t.last_io_monotonic
          && leb t.idle_reconnect (t.now - t.last_io_monotonic)
      then (do ok ← reconnect false; branch ok (pure true) (reconnect true)) t
      else open_session t

  -- `_write_one_request`
  pub write_one_request : ℕ → List ℕ → Action Response
  write_one_request address words = do
    await_reconnect_pacing
    ok ← client_connect
    branch ok (finally (client_write address words) close_and_mark) (raise unable_to_open)

  -- `write`, by the address and the words of a command
  pub write : ℕ → List ℕ → Action (Unit {0})
  write address words = do
    retries ← gets (λ t. t.retries)
    branch (is_unsafe words retries) (raise (plain_error value_error)) (pure tt)
    ok ← ensure_connection
    branch ok (pure tt) (raise unable_to_open)
    mode ← gets (λ t. t.mode)
    response ←
        branch (is_session mode) (client_write address words) (write_one_request address words)
    branch (write_response_valid response address words) (modify mark_io_activity)
        (raise (plain_error runtime_error))
