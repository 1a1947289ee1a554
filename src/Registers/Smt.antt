-- ===== src/Registers/Smt.antt =====
-- custom_components/apc_modbus/registers_smt_ups.py: the registers and blocks of the SMT, SMX and
-- SRT families, which SmartConnect devices share. The list is in four parts, in the order of the
-- source.
use apc_modbus_snmp_ha.Prelude.{List, [], ◌∷◌, ◌++◌}
use apc_modbus_snmp_ha.Registers.{Descriptor, Block, uint16, int16, uint32, plain, block}

abbrev pub status_registers : List Descriptor
status_registers =
    plain "ups_status_bf" 0x0000 2 uint32 1
    ∷ plain "ups_status_change_cause" 0x0002 1 uint16 1
    ∷ plain "simple_signaling_status_bf" 0x0012 1 uint16 1
    ∷ plain "general_error_bf" 0x0013 1 uint16 1
    ∷ plain "power_system_error_bf" 0x0014 2 uint32 1
    ∷ plain "battery_system_error_bf" 0x0016 1 uint16 1
    ∷ plain "battery_lifetime_status_bf" 0x0019 1 uint16 1
    ∷ []

abbrev pub battery_registers : List Descriptor
battery_registers =
    plain "runtime_remaining" 0x0080 2 uint32 1
    ∷ plain "battery_state_of_charge" 0x0082 1 uint16 512
    ∷ plain "battery_voltage" 0x0083 1 int16 32
    ∷ plain "battery_voltage_negative" 0x0084 1 int16 32
    ∷ plain "battery_replacement_date_days" 0x0085 1 uint16 1
    ∷ plain "battery_installation_date_days" 0x0253 1 uint16 1
    ∷ plain "battery_temperature" 0x0087 1 int16 128
    ∷ plain "output_load_percent" 0x0088 1 uint16 256
    ∷ []

abbrev pub output_registers : List Descriptor
output_registers =
    plain "output_load_percent_l2" 0x0089 1 uint16 256
    ∷ plain "output_apparent_power_percent" 0x008A 1 uint16 256
    ∷ plain "output_apparent_power_percent_l2" 0x008B 1 uint16 256
    ∷ plain "output_current" 0x008C 1 uint16 32
    ∷ plain "output_current_l2" 0x008D 1 uint16 32
    ∷ plain "output_voltage" 0x008E 1 uint16 64
    ∷ plain "output_voltage_l2" 0x008F 1 uint16 64
    ∷ plain "output_frequency" 0x0090 1 uint16 128
    ∷ plain "output_energy" 0x0091 2 uint32 1
    ∷ []

abbrev pub bypass_and_input_registers : List Descriptor
bypass_and_input_registers =
    plain "bypass_input_status_bf" 0x0093 1 uint16 1
    ∷ plain "bypass_voltage" 0x0094 1 uint16 64
    ∷ plain "bypass_frequency" 0x0095 1 uint16 128
    ∷ plain "input_status_bf" 0x0096 1 uint16 1
    ∷ plain "input_voltage" 0x0097 1 uint16 64
    ∷ plain "input_voltage_l2" 0x0098 1 uint16 64
    ∷ plain "input_voltage_l3" 0x0099 1 uint16 64
    ∷ plain "input_efficiency" 0x009A 1 int16 1
    ∷ []

abbrev pub registers : List Descriptor
registers =
    status_registers ++ (battery_registers ++ (output_registers ++ bypass_and_input_registers))

abbrev pub register_blocks : List Block
register_blocks =
    block "status" 0x0000 26 (0x0000 ∷ 0x0002 ∷ 0x0012 ∷ 0x0013 ∷ 0x0014 ∷ 0x0016 ∷ 0x0019 ∷ [])
    ∷ block "battery_date_setting" 0x0253 1 (0x0253 ∷ [])
    ∷ block "measurements" 0x0080 27 (
        0x0080 ∷ 0x0082 ∷ 0x0083 ∷ 0x0084 ∷ 0x0085 ∷ 0x0087 ∷ 0x0088 ∷ 0x0089 ∷ 0x008A ∷ 0x008B
        ∷ 0x008C ∷ 0x008D ∷ 0x008E ∷ 0x008F ∷ 0x0090 ∷ 0x0091 ∷ 0x0093 ∷ 0x0094 ∷ 0x0095 ∷ 0x0096
        ∷ 0x0097 ∷ 0x0098 ∷ 0x0099 ∷ 0x009A ∷ [])
    ∷ []
