-- ===== src/Entities/Switch.antt =====
-- The switch of custom_components/apc_modbus/switch.py, and `async_set_keep_connection_open` of
-- coordinator.py that it calls. The stored setting is the entry's, none where it is missing.
use apc_modbus_snmp_ha.Prelude.{Bool, false, not, Option, none, some, if◌then◌else◌}
use apc_modbus_snmp_ha.Modbus.{Client, Outcome}
use apc_modbus_snmp_ha.Transport.{Action, Transport, ◌>>◌, modify, pure, branch, close}

abbrev is_same_flag : Bool → Bool → Bool
is_same_flag a b = if a then b else not b

abbrev forget_io : Transport → Transport
forget_io t = record t { last_io_monotonic = 0 }

-- `async_set_keep_connection_open`: the session of a setting that is taken back is closed.
unfoldable pub async_set_keep_connection_open : Client → Bool → Action (Unit {0})
async_set_keep_connection_open client enabled t =
    let t' = record t { keep_connection_open = enabled } in
    branch (is_same_flag t.keep_connection_open enabled) (pure tt)
      (λ _. branch enabled (pure tt) (close client >> modify forget_io) t') t

-- `entry.data.get(CONF_KEEP_CONNECTION_OPEN, False)`
abbrev stored_or_false : Option Bool → Bool
stored_or_false none = false
stored_or_false (some b) = b

abbrev store : Bool → Option Bool → Option Bool
store enabled stored =
    if is_same_flag (stored_or_false stored) enabled then stored else some enabled

-- `_async_set_enabled`: the outcome, the stored setting and the transport
unfoldable pub async_set_enabled :
    Client → Bool → Option Bool → Transport → Option Bool × Outcome (Unit {0}) × Transport
async_set_enabled client enabled stored t =
    let (r, t') = async_set_keep_connection_open client enabled t in (store enabled stored, r, t')
