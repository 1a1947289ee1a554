-- ===== src/Coordinator/Identity/Tests.antt =====
-- The capabilities of a rack PDU of three phases and two banks that has no outlets to switch.
use apc_modbus_snmp_ha.Prelude.{
  ℕ, ◌≡◌, refl, Bool, true, false, none, some, [], ◌∷◌, ◌==◌, if◌then◌else◌,
}
use apc_modbus_snmp_ha.Prelude.Dict.{Dict}
use apc_modbus_snmp_ha.Modbus.{Response, Outcome, returned, Client}
use apc_modbus_snmp_ha.Transport.{Transport, session}
use apc_modbus_snmp_ha.Coordinator.Detection.Serving.{IsSteady}
use apc_modbus_snmp_ha.Coordinator.Identity.{async_discover_capabilities}
use apc_modbus_snmp_ha.Coordinator.Identity.Capabilities.{
  IsFound, found, async_discover_capabilities-IsFound,
}

abbrev response_of : Bool → ℕ → Response
response_of refused value = record {
  error_method = some refused;
  registers = some (value ∷ []);
  exception_code = some 2;
  function_code = none;
  address = none;
  count = none;
  value = none;
}

-- The number of outlets is refused.
abbrev reads : ℕ → ℕ → Outcome Response
reads a c = returned (response_of (a == 0x00A1) (if a == 0x00A0 then 2 else 3))

abbrev client : Client
client = record {
  connect = λ n. returned true;
  read = λ n a c. reads a c;
  write = λ n a ws. returned (response_of true 0);
  close = λ n. none;
  elapsed = λ n. 10;
}

steady : IsSteady reads client
steady = record {
  opens = record { connects = λ n. refl; closes = λ n. refl };
  ends = λ n a c. refl;
  handled = λ a c. tt;
}

abbrev idle : Transport
idle = record {
  mode = session;
  session_request_succeeded = false;
  promotion_reason = none;
  keep_connection_open = true;
  same_endpoint_entries = 1;
  idle_reconnect = 30000;
  connect_failures = 0;
  last_io_monotonic = 0;
  reconnect_count = 0;
  recreate_count = 0;
  post_connect_delay = 50;
  min_reconnect_delay = 1000;
  last_close_monotonic = 0;
  retries = some 0;
  now = 100;
  calls = 0;
  trace = [];
}

async_discover_capabilities-IsFound_example :
    (capabilities : Dict ℕ) × ((async_discover_capabilities client idle).0 ≡ returned capabilities)
    × IsFound (λ address. found (reads address 1)) capabilities
async_discover_capabilities-IsFound_example =
    async_discover_capabilities-IsFound reads client idle steady
