-- ===== src/Setup/Tests.antt =====
-- The first setup of an entry whose device does not answer its probes, and changes of its settings.
use apc_modbus_snmp_ha.Prelude.{
  ◌≡◌, refl, true, false, none, some, [], ◌∷◌, ◌⊎◌, str_eq, Option, Bool, if◌then◌else◌,
}
use apc_modbus_snmp_ha.Prelude.Texts.{codes}
use apc_modbus_snmp_ha.Coordinator.Enrichment.{
  Enrichment, MetadataAnswer, metadata_returned, snmp_unknown,
}
use apc_modbus_snmp_ha.Device.{ApcDeviceType, smart_ups, smt_ups, is_concrete_device_type}
use apc_modbus_snmp_ha.Modbus.{returned, raised, timeout_error, Client}
use apc_modbus_snmp_ha.Transport.{Transport, session, plain_error}
use apc_modbus_snmp_ha.Poller.Tracking.{new_keeper}
use apc_modbus_snmp_ha.Registers.Factory.{get_registers_for_device}
use apc_modbus_snmp_ha.Snmp.{Agent, var_binds, error_status}
use apc_modbus_snmp_ha.Snmp.Models.{async_get_device_metadata}
use apc_modbus_snmp_ha.Setup.{Refresh, async_setup_entry}
use apc_modbus_snmp_ha.Setup.Steps.{EntryData, State}
use apc_modbus_snmp_ha.Setup.Classified.{
  IsUnclassified, IsClassified, async_setup_entry-IsClassified,
}
use apc_modbus_snmp_ha.Setup.Settings.{Endpoint, IsPressed, redetect, redetect-stored}

abbrev entry : EntryData
entry = record {
  host = "10.0.0.5";
  port = 502;
  unit = 1;
  device_type = some smt_ups;
  detection_version = some 4;
  transport_mode = none;
}

abbrev client : Client
client = record {
  connect = λ n. returned true;
  read = λ n a c. raised (plain_error timeout_error);
  write = λ n a ws. raised (plain_error timeout_error);
  close = λ n. none;
  elapsed = λ n. 10;
}

abbrev idle : Transport
idle = record {
  mode = session;
  session_request_succeeded = false;
  promotion_reason = none;
  keep_connection_open = true;
  same_endpoint_entries = 1;
  idle_reconnect = 30000;
  connect_failures = 0;
  last_io_monotonic = 0;
  reconnect_count = 0;
  recreate_count = 0;
  post_connect_delay = 50;
  min_reconnect_delay = 1000;
  last_close_monotonic = 0;
  retries = some 0;
  now = 100;
  calls = 0;
  trace = [];
}

abbrev unknown_device : Enrichment
unknown_device = record {
  hw_model = none;
  serial_number = none;
  fw_version = none;
  fw_date = none;
  metadata_needs_refresh = true;
  metadata_last_refresh_monotonic = 0;
  snmp_availability = snmp_unknown;
  snmp_failure_category = none;
  snmp_probe_detection = [];
  snmp_self_test_data = [];
  self_test_last_refresh_monotonic = 0;
  queries = [];
}

abbrev state : State
state = record {
  entry = entry;
  device_type = smart_ups;
  inter_block_delay = 0;
  transport = idle;
  enrichment = unknown_device;
  identity = record { raw_modbus_firmware = none; raw_modbus_model = none; raw_modbus_sku = none };
  capabilities = [];
  registers = get_registers_for_device smart_ups;
  rollovers = 0;
  keeper = new_keeper 0 none;
  values = [];
  registry = [];
}

abbrev agent : Agent
agent oid =
    if str_eq oid "1.3.6.1.4.1.318.1.1.1.1.1.1.0"
    then var_binds (codes "Smart-UPS X 1500" ∷ [])
    else error_status

abbrev query : Option ApcDeviceType → MetadataAnswer
query device_type = metadata_returned (async_get_device_metadata agent device_type)

abbrev refresh : Refresh
refresh profile (transport, enrichment, keeper) = (some [], transport, enrichment, keeper)

async_setup_entry-IsClassified_example :
    IsUnclassified state (async_setup_entry client query refresh (codes "e1") 0 state)
    ⊎ IsClassified (async_setup_entry client query refresh (codes "e1") 0 state).1
async_setup_entry-IsClassified_example =
    async_setup_entry-IsClassified client query refresh (codes "e1") 0 state

abbrev moved : Endpoint
moved = record { host = "10.0.0.6"; port = 502; unit = 1 }

concrete : is_concrete_device_type (some smt_ups) ≡ true
unfolding is_concrete_device_type
concrete = refl

redetect-stored_example :
    (selected : ApcDeviceType) × (e' : EntryData) × (reloaded : Bool) × (redetect smt_ups none entry
      ≡ some (e', reloaded))
    × IsPressed selected entry e' reloaded
    × (some selected ≡ (if is_concrete_device_type none then none else some smt_ups))
redetect-stored_example = redetect-stored smt_ups none entry concrete
