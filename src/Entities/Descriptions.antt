-- ===== src/Entities/Descriptions.antt =====
-- The descriptions of sensors and binary sensors, as far as the code reads them: keys, the register
-- key of the value, the bit of a flag, labels and transforms. Names, units, categories and icons are
-- not modelled. A key is its code points.
pub mod SmartUps
pub mod Smt
pub mod Snmp
pub mod RackPdu
use apc_modbus_snmp_ha.Prelude.{ℕ, String, Option, none, List, [], ◌∷◌}
use apc_modbus_snmp_ha.Prelude.Texts.{codes}
use apc_modbus_snmp_ha.Coordinator.Enrichment.{Text}

pub data DeviceClass : Type 0 where
  enum energy any_class : DeviceClass

-- `_battery_date`, `_efficiency_percentage` and `_efficiency_status`
pub data Transform : Type 0 where
  battery_date efficiency_percentage efficiency_status : Transform

abbrev pub Labels : Type 0
Labels = List (ℕ × String)

pub record SensorDescription : Type 0 where
  pub key : Text
  pub register_key : Text
  pub device_class : DeviceClass
  pub value_map : Labels
  pub value_transform : Option Transform

pub record BinaryDescription : Type 0 where
  pub key : Text
  pub register_key : Text
  pub bit_index : ℕ

abbrev pub plain_sensor : Text → SensorDescription
plain_sensor key = record {
  key = key;
  register_key = key;
  device_class = any_class;
  value_map = [];
  value_transform = none;
}

abbrev pub sensor : String → SensorDescription
sensor key = plain_sensor (codes key)

abbrev pub binary : String → String → ℕ → BinaryDescription
binary key register_key bit_index = record {
  key = codes key;
  register_key = codes register_key;
  bit_index = bit_index;
}
