-- ===== src/Registers/SmartUps.antt =====
-- custom_components/apc_modbus/registers_smart_ups.py: the registers and blocks of the legacy
-- Smart-UPS family. The list is in two parts, in the order of the source.
use apc_modbus_snmp_ha.Prelude.{List, [], ◌∷◌, ◌++◌}
use apc_modbus_snmp_ha.Registers.{Descriptor, Block, one_over, uint16, int16, plain, block}

abbrev pub status_and_battery_registers : List Descriptor
status_and_battery_registers =
    plain "status_word_0" 0x0000 1 uint16 1
    ∷ plain "status_word_1" 0x0001 1 uint16 1
    ∷ plain "status_word_2" 0x0002 1 uint16 1
    ∷ plain "status_word_3" 0x0003 1 uint16 1
    ∷ plain "line_quality" 0x0004 1 uint16 1
    ∷ plain "battery_state_of_charge" 0x0005 1 uint16 1
    ∷ record (plain "runtime_remaining" 0x0006 1 uint16 1) { scale = one_over 60 }
    ∷ plain "battery_voltage" 0x0007 1 uint16 1
    ∷ plain "ups_internal_temperature" 0x0008 1 uint16 1
    ∷ plain "load_amps" 0x0009 1 uint16 1
    ∷ plain "bad_battery_packs" 0x000A 1 uint16 1
    ∷ plain "total_battery_packs" 0x000B 1 uint16 1
    ∷ plain "load_percent" 0x000C 1 uint16 1
    ∷ plain "nominal_output_voltage" 0x000D 1 uint16 1
    ∷ plain "actual_output_voltage" 0x000E 1 uint16 1
    ∷ plain "max_input_voltage" 0x000F 1 uint16 1
    ∷ plain "min_input_voltage" 0x0010 1 uint16 1
    ∷ plain "input_voltage" 0x0011 1 uint16 1
    ∷ []

abbrev pub identity_and_setting_registers : List Descriptor
identity_and_setting_registers =
    plain "input_frequency" 0x0012 1 uint16 1
    ∷ plain "measure_ups_temp_probe1" 0x0013 1 uint16 1
    ∷ plain "measure_ups_humidity_probe1" 0x0014 1 uint16 1
    ∷ plain "measure_ups_temp_probe2" 0x0015 1 uint16 1
    ∷ plain "measure_ups_humidity_probe2" 0x0016 1 uint16 1
    ∷ plain "measure_ups_contact_position" 0x0017 1 uint16 1
    ∷ plain "minimum_return_battery_capacity" 0x001A 1 uint16 1
    ∷ plain "lower_transfer_point" 0x001B 1 uint16 1
    ∷ plain "upper_transfer_point" 0x001C 1 uint16 1
    ∷ plain "nominal_output_voltage_setting" 0x001D 1 uint16 1
    ∷ plain "shutdown_delay" 0x001E 1 uint16 1
    ∷ plain "low_battery_duration" 0x001F 1 uint16 1
    ∷ plain "turn_on_delay" 0x0020 1 uint16 1
    ∷ plain "sensitivity" 0x0021 1 uint16 1
    ∷ plain "status_word_4" 0x002A 1 uint16 1
    ∷ plain "status_word_5" 0x002B 1 uint16 1
    ∷ plain "nominal_battery_voltage" 0x002C 1 uint16 1
    ∷ plain "actual_battery_voltage" 0x002D 1 uint16 1
    ∷ plain "utility_input_voltage_phase_a" 0x002E 1 uint16 1
    ∷ plain "battery_current" 0x004D 1 int16 1
    ∷ []

abbrev pub registers : List Descriptor
registers = status_and_battery_registers ++ identity_and_setting_registers

abbrev pub register_blocks : List Block
register_blocks =
    block "status_battery_io" 0x0000 24 (
      0x0000 ∷ 0x0001 ∷ 0x0002 ∷ 0x0003 ∷ 0x0004 ∷ 0x0005 ∷ 0x0006 ∷ 0x0007 ∷ 0x0008 ∷ 0x0009
      ∷ 0x000A ∷ 0x000B ∷ 0x000C ∷ 0x000D ∷ 0x000E ∷ 0x000F ∷ 0x0010 ∷ 0x0011 ∷ 0x0012 ∷ 0x0013
      ∷ 0x0014 ∷ 0x0015 ∷ 0x0016 ∷ 0x0017 ∷ [])
    ∷ block "config_id_extended" 0x001A 21 (
        0x001A ∷ 0x001B ∷ 0x001C ∷ 0x001D ∷ 0x001E ∷ 0x001F ∷ 0x0020 ∷ 0x0021 ∷ 0x0022 ∷ 0x0023
        ∷ 0x0024 ∷ 0x0025 ∷ 0x0026 ∷ 0x0027 ∷ 0x0028 ∷ 0x0029 ∷ 0x002A ∷ 0x002B ∷ 0x002C ∷ 0x002D
        ∷ 0x002E ∷ [])
    ∷ block "battery_current" 0x004D 1 (0x004D ∷ [])
    ∷ []
