-- ===== src/Entities/States/Tests.antt =====
-- A flag and the installation date of an SMT device, and a client that drops every read.
use Prim.Native.Nat.{bit_or}
use apc_modbus_snmp_ha.Prelude.{◌+◌, ◌≡◌, refl, true, false, none, some, [], ◌∷◌, arith}
use apc_modbus_snmp_ha.Prelude.Texts.{codes}
use apc_modbus_snmp_ha.Prelude.Bits.{shl}
use apc_modbus_snmp_ha.Prelude.Int.{pos, negsuc}
use apc_modbus_snmp_ha.Registers.{Descriptor, plain, uint16, uint32}
use apc_modbus_snmp_ha.Decode.{int, decode_register}
use apc_modbus_snmp_ha.Modbus.{Client, Response, returned, raised, os_error}
use apc_modbus_snmp_ha.Transport.{Action, Transport, session, plain_error}
use apc_modbus_snmp_ha.Transport.Writes.{SentOnce, sent}
use apc_modbus_snmp_ha.Coordinator.Enrichment.Merging.{Data}
use apc_modbus_snmp_ha.Entities.Descriptions.{BinaryDescription, binary}
use apc_modbus_snmp_ha.Entities.States.{value_at, is_on, day, async_set_value, installation_date}
use apc_modbus_snmp_ha.Entities.States.Flags.{word_bit, is_on-words}
use apc_modbus_snmp_ha.Entities.States.Dates.{date_register_of, async_set_value-installation_date}
use apc_modbus_snmp_ha.Registers.Factory.{get_registers_for_device}
use apc_modbus_snmp_ha.Device.{smt_ups}

abbrev status_register : Descriptor
status_register = plain "ups_status_bf" 0x0000 2 uint32 1

abbrev online : BinaryDescription
online = binary "ups_online" "ups_status_bf" 1

abbrev polled_status : Data
polled_status = ("ups_status_bf", some (int (pos (bit_or (shl 0 16) 2)))) ∷ []

polled_online :
    value_at online.register_key polled_status ≡ decode_register (0 ∷ 2 ∷ []) status_register
unfolding value_at decode_register
polled_online = refl

is_on-words_example : is_on online polled_status ≡ returned (some (word_bit 1 0 2))
is_on-words_example =
    is_on-words online status_register polled_status 0 2 [] refl refl refl (ground arith)
      polled_online

abbrev no_response : Response
no_response = record {
  error_method = some true;
  registers = none;
  exception_code = some 2;
  function_code = none;
  address = none;
  count = none;
  value = none;
}

-- It connects, and then every read drops the connection.
abbrev dropping : Client
dropping = record {
  connect = λ n. returned true;
  read = λ n a c. raised (plain_error os_error);
  write = λ n a ws. returned no_response;
  close = λ n. none;
  elapsed = λ n. 10;
}

abbrev fresh : Transport
fresh = record {
  mode = session;
  session_request_succeeded = false;
  promotion_reason = none;
  keep_connection_open = false;
  same_endpoint_entries = 1;
  idle_reconnect = 30000;
  connect_failures = 0;
  last_io_monotonic = 0;
  reconnect_count = 0;
  recreate_count = 0;
  post_connect_delay = 0;
  min_reconnect_delay = 100;
  last_close_monotonic = 0;
  retries = some 0;
  now = 5000;
  calls = 0;
  trace = [];
}

abbrev date_register : Descriptor
date_register = plain "battery_installation_date_days" 0x0253 1 uint16 1

abbrev polled_date : Data
polled_date = ("battery_installation_date_days", some (int (pos 9000))) ∷ []

polled_day :
    value_at (codes "battery_installation_date_days") polled_date
    ≡ decode_register (9000 ∷ []) date_register
unfolding value_at decode_register
polled_day = refl

family_polls : date_register_of smt_ups ≡ some date_register
unfolding get_registers_for_device
family_polls = refl

async_set_value-installation_date_example :
    (write : Action (Unit {0})) × (async_set_value dropping (pos 9000) ≡ some write)
    × SentOnce
        (date_register.address, 9000 ∷ [])
        (sent fresh.trace)
        (write fresh).0
        (sent (write fresh).1.trace)
    × (installation_date polled_date ≡ some (day (pos 9000)))
    × (async_set_value dropping (pos (0x10000 + 4)) ≡ none)
    × (async_set_value dropping (negsuc 4) ≡ none)
async_set_value-installation_date_example =
    async_set_value-installation_date dropping fresh smt_ups 9000 4 polled_date date_register []
      (ground arith) refl family_polls polled_day
