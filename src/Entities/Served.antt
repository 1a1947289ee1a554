-- ===== src/Entities/Served.antt =====
-- Whether the register that a sensor shows is one that the family's profile polls.
use apc_modbus_snmp_ha.Prelude.{◌≡◌, Bool, false, any}
use apc_modbus_snmp_ha.Prelude.Dict.{Dict}
use apc_modbus_snmp_ha.Prelude.Texts.{codes, same_text}
use apc_modbus_snmp_ha.Coordinator.Enrichment.{Text}
use apc_modbus_snmp_ha.Device.{ApcDeviceType, rack_pdu}
use apc_modbus_snmp_ha.Registers.Factory.{get_registers_for_device}
use apc_modbus_snmp_ha.Entities.Descriptions.{SensorDescription}
use apc_modbus_snmp_ha.Entities.Descriptions.RackPdu.{bank_descriptions}
use apc_modbus_snmp_ha.Entities.Descriptions.RackPdu

-- The family polls a register of this key.
pub is_polled : ApcDeviceType → Text → Bool
is_polled device_type key =
    any (λ d. same_text (codes d.key) key) (get_registers_for_device device_type).registers

-- A description whose value no poll of a rack PDU brings
abbrev pub IsUnserved : SensorDescription → Type 0
IsUnserved d = is_polled rack_pdu d.register_key ≡ false
