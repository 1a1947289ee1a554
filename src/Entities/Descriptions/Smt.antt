-- ===== src/Entities/Descriptions/Smt.antt =====
-- The sensors of the SMT family and of SmartConnect devices
-- (custom_components/apc_modbus/registers_smt_ups.py). Each list is in two parts.
use apc_modbus_snmp_ha.Prelude.{String, List, [], ◌∷◌, ◌++◌, some}
use apc_modbus_snmp_ha.Prelude.Texts.{codes}
use apc_modbus_snmp_ha.Entities.Descriptions.{
  SensorDescription, BinaryDescription, sensor, binary, energy, enum, Labels, battery_date,
  efficiency_percentage, efficiency_status,
}

abbrev pub ups_status_change_causes : Labels
ups_status_change_causes =
    (0, "System Initialization")
    ∷ (1, "High Input Voltage")
    ∷ (2, "Low Input Voltage")
    ∷ (3, "Distorted Input")
    ∷ (4, "Rapid Change of Input Voltage")
    ∷ (5, "High Input Frequency")
    ∷ (6, "Low Input Frequency")
    ∷ (7, "Frequency and/or Phase Difference")
    ∷ (8, "Acceptable Input")
    ∷ (9, "Automatic Test")
    ∷ (10, "Test Ended")
    ∷ (11, "Local UI Command")
    ∷ (12, "Protocol Command")
    ∷ (13, "Low Battery Voltage")
    ∷ (14, "General Error")
    ∷ (15, "Power System Error")
    ∷ (16, "Battery System Error")
    ∷ (17, "Error Cleared")
    ∷ (18, "Automatic Restart")
    ∷ (19, "Distorted Inverter Output")
    ∷ (20, "Inverter Output Acceptable")
    ∷ (21, "EPO Interface")
    ∷ (22, "Input Phase Delta Out of Range")
    ∷ (23, "Input Neutral Not Connected")
    ∷ (24, "ATS Transfer")
    ∷ (25, "Configuration Change")
    ∷ (26, "Alert Asserted")
    ∷ (27, "Alert Cleared")
    ∷ (28, "Plug Rating Exceeded")
    ∷ (29, "Outlet Group State Change")
    ∷ (30, "Failure Bypass Expired")
    ∷ []

abbrev pub battery_and_load_descriptions : List SensorDescription
battery_and_load_descriptions =
    record (sensor "ups_status_change_cause") {
      device_class = enum;
      value_map = ups_status_change_causes;
    }
    ∷ sensor "runtime_remaining"
    ∷ sensor "battery_state_of_charge"
    ∷ record (sensor "battery_replacement_date") {
      register_key = codes "battery_replacement_date_days";
      value_transform = some battery_date;
    }
    ∷ sensor "battery_voltage"
    ∷ sensor "battery_voltage_negative"
    ∷ sensor "battery_temperature"
    ∷ sensor "output_load_percent"
    ∷ sensor "output_load_percent_l2"
    ∷ sensor "output_apparent_power_percent"
    ∷ sensor "output_apparent_power_percent_l2"
    ∷ sensor "output_current"
    ∷ sensor "output_current_l2"
    ∷ []

abbrev pub output_and_input_descriptions : List SensorDescription
output_and_input_descriptions =
    sensor "output_voltage"
    ∷ sensor "output_voltage_l2"
    ∷ sensor "output_frequency"
    ∷ sensor "input_frequency"
    ∷ record (sensor "output_energy_kwh") {
      register_key = codes "output_energy";
      device_class = energy;
    }
    ∷ sensor "output_energy_rollover"
    ∷ sensor "input_voltage"
    ∷ sensor "input_voltage_l2"
    ∷ sensor "input_voltage_l3"
    ∷ record (sensor "ups_efficiency") {
      register_key = codes "input_efficiency";
      value_transform = some efficiency_percentage;
    }
    ∷ record (sensor "ups_efficiency_status") {
      register_key = codes "input_efficiency";
      device_class = enum;
      value_transform = some efficiency_status;
    }
    ∷ sensor "bypass_voltage"
    ∷ sensor "bypass_frequency"
    ∷ []

abbrev pub status_flag_descriptions : List BinaryDescription
status_flag_descriptions =
    binary "ups_online" "ups_status_bf" 1
    ∷ binary "ups_on_battery" "ups_status_bf" 2
    ∷ binary "ups_on_bypass" "ups_status_bf" 3
    ∷ binary "ups_output_off" "ups_status_bf" 4
    ∷ binary "ups_fault" "ups_status_bf" 5
    ∷ binary "ups_input_bad" "ups_status_bf" 6
    ∷ binary "ups_fault_state" "ups_status_bf" 15
    ∷ binary "ups_overload" "ups_status_bf" 21
    ∷ binary "ups_shutdown_imminent" "simple_signaling_status_bf" 1
    ∷ binary "battery_lifetime_ok" "battery_lifetime_status_bf" 0
    ∷ binary "battery_lifetime_near_end" "battery_lifetime_status_bf" 1
    ∷ binary "battery_lifetime_exceeded" "battery_lifetime_status_bf" 2
    ∷ binary "battery_lifetime_near_end_acknowledged" "battery_lifetime_status_bf" 3
    ∷ binary "battery_lifetime_exceeded_acknowledged" "battery_lifetime_status_bf" 4
    ∷ binary "battery_measured_lifetime_near_end" "battery_lifetime_status_bf" 5
    ∷ binary "battery_measured_lifetime_near_end_acknowledged" "battery_lifetime_status_bf" 6
    ∷ binary "battery_disconnected" "battery_system_error_bf" 0
    ∷ binary "battery_overvoltage" "battery_system_error_bf" 1
    ∷ []

abbrev pub error_flag_descriptions : List BinaryDescription
error_flag_descriptions =
    binary "battery_needs_replacement" "battery_system_error_bf" 2
    ∷ binary "battery_overtemperature_critical" "battery_system_error_bf" 3
    ∷ binary "battery_charger_fault" "battery_system_error_bf" 4
    ∷ binary "battery_temperature_sensor_fault" "battery_system_error_bf" 5
    ∷ binary "battery_bus_soft_start_fault" "battery_system_error_bf" 6
    ∷ binary "battery_overtemperature" "battery_system_error_bf" 7
    ∷ binary "battery_general_error" "battery_system_error_bf" 8
    ∷ binary "battery_communication_error" "battery_system_error_bf" 9
    ∷ binary "battery_disconnected_frame" "battery_system_error_bf" 10
    ∷ binary "battery_firmware_mismatch" "battery_system_error_bf" 11
    ∷ binary "battery_voltage_sense_error" "battery_system_error_bf" 12
    ∷ binary "battery_incompatible_pack" "battery_system_error_bf" 13
    ∷ []

abbrev pub sensor_descriptions : List SensorDescription
sensor_descriptions = battery_and_load_descriptions ++ output_and_input_descriptions

abbrev pub binary_sensor_descriptions : List BinaryDescription
binary_sensor_descriptions = status_flag_descriptions ++ error_flag_descriptions

-- SMARTCONNECT_UNSUPPORTED_SENSOR_KEYS
abbrev pub smartconnect_unsupported_sensor_keys : List String
smartconnect_unsupported_sensor_keys =
    "output_load_percent_l2" ∷ "output_apparent_power_percent_l2" ∷ "output_current_l2"
    ∷ "output_voltage_l2" ∷ "bypass_voltage" ∷ "bypass_frequency" ∷ "input_voltage_l2"
    ∷ "input_voltage_l3" ∷ "input_frequency" ∷ []
