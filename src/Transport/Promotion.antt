-- ===== src/Transport/Promotion.antt =====
-- The connection mode: what changes it, and that it changes once.
use apc_modbus_snmp_ha.Prelude.{
  ℕ, suc, ◌+◌, ◌≡◌, ◌⊎◌, true, some, List, [], ◌∷◌, arith, if◌then◌else◌,
}
use apc_modbus_snmp_ha.Modbus.{
  ExceptionKind, connection_exception, os_error, timeout_error, Raised, Client,
}
use apc_modbus_snmp_ha.Transport.{
  Transport, session, one_request_per_connection, is_session, Effect, mode_persisted, note, promote,
  record_failure, mark_io_activity, await_reconnect_pacing,
}
use apc_modbus_snmp_ha.Transport.Keeps.{Stable}

-- A failure of the socket, and no answer of the device.
abbrev pub IsSocketFailure : ExceptionKind → Type 0
IsSocketFailure kind = (kind ≡ connection_exception) ⊎ ((kind ≡ os_error) ⊎ (kind ≡ timeout_error))

abbrev pub IsProvenSession : Transport → Type 0
IsProvenSession t = (t.mode ≡ session) × (t.session_request_succeeded ≡ true)

-- A failure promotes the transport to one request per connection exactly when it is a socket failure
-- of a session that has had a successful request; the new mode is then persisted with the failure's
-- kind for the reason. In any other case nothing at all changes.
pub record_failure_lem :
    (e : Raised) (t : Transport)
    → (IsProvenSession t
        → IsSocketFailure e.kind
        → record_failure e t
          ≡ note
              (mode_persisted one_request_per_connection)
              (record t { mode = one_request_per_connection; promotion_reason = some e.kind }))
      × (¬ (IsProvenSession t × IsSocketFailure e.kind) → record_failure e t ≡ t)
unfolding record_failure promote
record_failure_lem e t = (ground arith, ground arith)

-- How often a mode was persisted.
abbrev pub persisted : List (ℕ × Effect) → ℕ
persisted [] = 0
persisted ((_, mode_persisted _) ∷ rest) = suc (persisted rest)
persisted ((_, _) ∷ rest) = persisted rest

-- The promotions done, and the one that a session has left.
abbrev pub promotions : Transport → ℕ
promotions t = persisted t.trace + (if is_session t.mode then 1 else 0)

pub Stable-promotions : (client : Client) (n : ℕ) → Stable client (λ t. promotions t ≡ n)
unfolding mark_io_activity await_reconnect_pacing
Stable-promotions client n = record {
  called = λ t ms h. h;
  slept = λ t ms h. h;
  opened = λ t ms h. ground arith;
  closed_marked = λ t ms h. h;
  close_failed = λ t e ms c h. h;
  activity = λ t h. h;
  counted = λ t f r c h. h;
  renewed = λ t h. h;
}

pub record_failure-promotions :
    (n : ℕ) (e : Raised) (t : Transport) → promotions t ≡ n → promotions (record_failure e t) ≡ n
unfolding record_failure promote
record_failure-promotions n e t h = ground arith

pub Stable-one_request :
    (client : Client) → Stable client (λ t. t.mode ≡ one_request_per_connection)
unfolding mark_io_activity await_reconnect_pacing
Stable-one_request client = record {
  called = λ t ms h. h;
  slept = λ t ms h. h;
  opened = λ t ms h. ground arith;
  closed_marked = λ t ms h. h;
  close_failed = λ t e ms c h. h;
  activity = λ t h. h;
  counted = λ t f r c h. h;
  renewed = λ t h. h;
}

pub record_failure-one_request :
    (e : Raised) (t : Transport)
    → t.mode ≡ one_request_per_connection
    → (record_failure e t).mode ≡ one_request_per_connection
unfolding record_failure promote
record_failure-one_request e t h = ground arith
