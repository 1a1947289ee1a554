-- ===== src/Transport/Pacing.antt =====
-- The gap that the transport leaves between closing a connection and opening the next.
use apc_modbus_snmp_ha.Prelude.{ℕ, ◌+◌, ◌≤◌, ◌≡◌, ◌⊎◌, none, List, [], ◌∷◌, arith}
use apc_modbus_snmp_ha.Modbus.{Raised, Client}
use apc_modbus_snmp_ha.Transport.{
  Transport, Effect, opened, closed, mark_io_activity, await_reconnect_pacing,
  reconnect_pacing_remaining, promote, record_failure,
}
use apc_modbus_snmp_ha.Transport.Keeps.{Stable}

-- When a connection was last closed; 0 where none was.
abbrev pub newest_close : List (ℕ × Effect) → ℕ
newest_close [] = 0
newest_close ((time, closed) ∷ rest) = time
newest_close ((_, _) ∷ rest) = newest_close rest

-- Every connection is opened at least `gap` after the last close before it.
abbrev pub IsPaced : ℕ → List (ℕ × Effect) → Type 0
IsPaced gap [] = Unit
IsPaced gap ((time, opened) ∷ rest) =
    ((newest_close rest ≡ 0) ⊎ (newest_close rest + gap ≤ time)) × IsPaced gap rest
IsPaced gap ((_, _) ∷ rest) = IsPaced gap rest

pub record KeepsGap (gap : ℕ) (t : Transport) : Type 0 where
  pub delay : t.min_reconnect_delay ≡ gap
  pub past : t.last_close_monotonic ≤ t.now
  pub noted : newest_close t.trace ≡ t.last_close_monotonic
  pub paced : IsPaced gap t.trace

-- Every single step keeps the gap, where no close raises.
pub Stable-KeepsGap :
    (client : Client) (gap : ℕ) → ((n : ℕ) → client.close n ≡ none) → Stable client (KeepsGap gap)
unfolding mark_io_activity await_reconnect_pacing reconnect_pacing_remaining
Stable-KeepsGap client gap closes = record {
  called = λ t ms h. ground arith;
  slept = λ t ms h. ground arith;
  opened = λ t ms h. ground arith;
  closed_marked = λ t ms h. ground arith;
  close_failed = λ t e ms fails h. let c = closes t.calls in absurd (ground arith);
  activity = λ t h. ground arith;
  counted = λ t f r c h. ground arith;
  renewed = λ t h. ground arith;
}

pub record_failure-KeepsGap :
    (gap : ℕ) (e : Raised) (t : Transport) → KeepsGap gap t → KeepsGap gap (record_failure e t)
unfolding record_failure promote
record_failure-KeepsGap gap e t h = ground arith
