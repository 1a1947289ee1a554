-- ===== src/Entities/Profiles.antt =====
-- custom_components/apc_modbus/device_profiles.py: what each family has of registers, sensors and
-- commands. The names of the lists of descriptions are those lists.
use apc_modbus_snmp_ha.Prelude.{
  ℕ, String, Bool, true, false, not, List, [], ◌∷◌, any, if◌then◌else◌,
}
use apc_modbus_snmp_ha.Prelude.Dict.{Dict}
use apc_modbus_snmp_ha.Prelude.Texts.{codes, same_text}
use apc_modbus_snmp_ha.Device.{
  ApcDeviceType, smart_ups, smt_ups, smartconnect_ups, rack_pdu, SchemaProbe, schema_probes,
}
use apc_modbus_snmp_ha.Entities.Descriptions.{SensorDescription, BinaryDescription}
use apc_modbus_snmp_ha.Entities.Descriptions.SmartUps
use apc_modbus_snmp_ha.Entities.Descriptions.Smt
use apc_modbus_snmp_ha.Entities.Descriptions.RackPdu

pub data RegisterMap : Type 0 where
  smart_ups_map smt_ups_map rack_pdu_map : RegisterMap

pub record DeviceProfile : Type 0 where
  pub device_type : ApcDeviceType
  pub register_map : RegisterMap
  pub aliases : List String
  pub dynamic_capabilities : Bool
  pub probes : List SchemaProbe
  pub command_operations : List String
  pub snmp_command_operations : List String

-- The command sets, as the sorted lists that the platforms make of them
abbrev pub smt_command_operations : List String
smt_command_operations =
    "alarm_cancel_mute" ∷ "alarm_mute" ∷ "battery_alarm_acknowledge" ∷ "battery_test_abort"
    ∷ "battery_test_start" ∷ "bypass_enter" ∷ "bypass_exit" ∷ "calibration_abort"
    ∷ "calibration_start" ∷ "outlet_cancel" ∷ "outlet_off" ∷ "outlet_on" ∷ "outlet_reboot"
    ∷ "outlet_shutdown" ∷ []

abbrev pub legacy_command_operations : List String
legacy_command_operations =
    "alarm_test" ∷ "battery_self_test" ∷ "conserve_battery" ∷ "simulate_power_failure" ∷ "ups_off"
    ∷ "ups_reboot" ∷ "ups_sleep" ∷ "ups_turn_on" ∷ []

abbrev pub smart_ups_profile : DeviceProfile
smart_ups_profile = record {
  device_type = smart_ups;
  register_map = smart_ups_map;
  aliases = "ups" ∷ [];
  dynamic_capabilities = false;
  probes = schema_probes;
  command_operations = [];
  snmp_command_operations = legacy_command_operations;
}

abbrev pub smt_ups_profile : DeviceProfile
smt_ups_profile = record {
  device_type = smt_ups;
  register_map = smt_ups_map;
  aliases = "smx_ups" ∷ "srt_ups" ∷ [];
  dynamic_capabilities = false;
  probes = schema_probes;
  command_operations = smt_command_operations;
  snmp_command_operations = [];
}

abbrev pub smartconnect_ups_profile : DeviceProfile
smartconnect_ups_profile = record {
  device_type = smartconnect_ups;
  register_map = smt_ups_map;
  aliases = [];
  dynamic_capabilities = false;
  probes = schema_probes;
  command_operations = smt_command_operations;
  snmp_command_operations = [];
}

abbrev pub rack_pdu_profile : DeviceProfile
rack_pdu_profile = record {
  device_type = rack_pdu;
  register_map = rack_pdu_map;
  aliases = [];
  dynamic_capabilities = true;
  probes = schema_probes;
  command_operations = [];
  snmp_command_operations = [];
}

unfoldable pub get_device_profile : ApcDeviceType → DeviceProfile
get_device_profile smt_ups = smt_ups_profile
get_device_profile smartconnect_ups = smartconnect_ups_profile
get_device_profile rack_pdu = rack_pdu_profile
get_device_profile _ = smart_ups_profile

abbrev is_supported : SensorDescription → Bool
is_supported d =
    not (any (λ key. same_text (codes key) d.key) Smt.smartconnect_unsupported_sensor_keys)

unfoldable pub supported : List SensorDescription → List SensorDescription
supported [] = []
supported (d ∷ ds) = let rest = supported ds in if is_supported d then d ∷ rest else rest

-- SMARTCONNECT_SENSOR_DESCRIPTIONS
abbrev pub smartconnect_sensor_descriptions : List SensorDescription
smartconnect_sensor_descriptions = supported Smt.sensor_descriptions

unfoldable pub get_sensor_descriptions : ApcDeviceType → Dict ℕ → List SensorDescription
get_sensor_descriptions smt_ups capabilities = Smt.sensor_descriptions
get_sensor_descriptions smartconnect_ups capabilities = smartconnect_sensor_descriptions
get_sensor_descriptions rack_pdu capabilities = RackPdu.get_sensor_descriptions capabilities
get_sensor_descriptions _ capabilities = SmartUps.sensor_descriptions

unfoldable pub get_binary_sensor_descriptions : ApcDeviceType → Dict ℕ → List BinaryDescription
get_binary_sensor_descriptions smt_ups capabilities = Smt.binary_sensor_descriptions
get_binary_sensor_descriptions smartconnect_ups capabilities = Smt.binary_sensor_descriptions
get_binary_sensor_descriptions rack_pdu capabilities =
    RackPdu.get_binary_sensor_descriptions capabilities
get_binary_sensor_descriptions _ capabilities = SmartUps.binary_sensor_descriptions
