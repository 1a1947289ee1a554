-- ===== src/Registers.antt =====
-- The register descriptors and the blocks of registers that one Modbus request reads
-- (custom_components/apc_modbus/registers_*.py), and the maps from addresses to descriptors.
pub mod Smt
pub mod SmartUps
pub mod RackPdu
pub mod Layout
pub mod Factory
use apc_modbus_snmp_ha.Prelude.{ℕ, String, Option, none, some, List, [], ◌∷◌, ◌==◌, if◌then◌else◌}

-- The "type" of a descriptor; `other` is any text that the decoder does not know.
pub data RegisterType : Type 0 where
  uint16 int16 uint32 int32 ascii other : RegisterType

-- A scale is a whole number, or the float 1 / n.
pub data Scale : Type 0 where
  whole one_over : ℕ → Scale

-- Absent keys have the decoder's defaults: a scale of 1, an ASCII width of 2 and no multiplier.
pub record Descriptor : Type 0 where
  pub key : String
  pub address : ℕ
  pub count : ℕ
  pub type : RegisterType
  pub scale : Scale
  pub ascii_width : ℕ
  pub energy_wh_multiplier : Option ℕ

pub record Block : Type 0 where
  pub name : String
  pub start_address : ℕ
  pub count : ℕ
  pub registers : List ℕ

-- A descriptor that gives only a key, an address, a count, a type and a scale.
abbrev pub plain : String → ℕ → ℕ → RegisterType → ℕ → Descriptor
plain key address count type scale = record {
  key = key;
  address = address;
  count = count;
  type = type;
  scale = whole scale;
  ascii_width = 2;
  energy_wh_multiplier = none;
}

abbrev pub block : String → ℕ → ℕ → List ℕ → Block
block name start_address count registers = record {
  name = name;
  start_address = start_address;
  count = count;
  registers = registers;
}

-- `{r["address"]: r for r in registers}.get(address)`: the last descriptor at an address wins.
unfoldable pub register_map : List Descriptor → ℕ → Option Descriptor
register_map [] a = none
register_map (d ∷ rest) a = elim (register_map rest a) [
  | some later ↦ some later
  | none ↦ if d.address == a then some d else none
]
