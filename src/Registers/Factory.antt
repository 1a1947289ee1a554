-- ===== src/Registers/Factory.antt =====
-- custom_components/apc_modbus/register_factory.py: the registers of a device family, and the
-- reduced core profile with the blocks that are built for it.
-- The modules of the families are in the package, so their import does not fail and the fallback
-- of `get_registers_for_device` to the Smart-UPS registers has no branch here. A count is at least
-- one in every table, so the address of a register's last word is not below its first.
pub mod Blocks
mod Tests
use apc_modbus_snmp_ha.Prelude.{
  ℕ, ◌+◌, ◌-◌, max, String, Bool, true, false, List, [], ◌∷◌, ◌++◌, Option, any, leb, str_eq,
  if◌then◌else◌,
}
use Prim.Native.String.{◌++◌ as append}
use apc_modbus_snmp_ha.Prelude.Decimal.{decimal}
use apc_modbus_snmp_ha.Prelude.Sorting.{sorted, key_le}
use apc_modbus_snmp_ha.Device.{ApcDeviceType, smart_ups, smt_ups, smartconnect_ups, rack_pdu}
use apc_modbus_snmp_ha.Registers.{Descriptor, Block, register_map}
use apc_modbus_snmp_ha.Registers.Smt
use apc_modbus_snmp_ha.Registers.SmartUps
use apc_modbus_snmp_ha.Registers.RackPdu

-- (REGISTERS, REGISTER_BLOCKS, REGISTER_MAP)
pub record Profile : Type 0 where
  pub registers : List Descriptor
  pub register_blocks : List Block
  pub register_map : ℕ → Option Descriptor

-- CORE_REGISTER_KEYS_BY_DEVICE, with no keys for a family that it does not have
unfoldable pub core_register_keys : ApcDeviceType → List String
core_register_keys smart_ups =
    "runtime_remaining" ∷ "battery_state_of_charge" ∷ "input_voltage" ∷ "actual_output_voltage"
    ∷ "load_percent" ∷ "input_frequency" ∷ "status_word_3" ∷ []
core_register_keys smt_ups =
    "runtime_remaining" ∷ "battery_state_of_charge" ∷ "input_voltage" ∷ "output_voltage"
    ∷ "output_load_percent" ∷ "output_frequency" ∷ "ups_status_bf" ∷ []
core_register_keys smartconnect_ups =
    "runtime_remaining" ∷ "battery_state_of_charge" ∷ "input_voltage" ∷ "output_voltage"
    ∷ "output_load_percent" ∷ "output_frequency" ∷ "ups_status_bf" ∷ []
core_register_keys _ = []

abbrev smart_ups_profile : Profile
smart_ups_profile = record {
  registers = SmartUps.registers;
  register_blocks = SmartUps.register_blocks;
  register_map = register_map SmartUps.registers;
}

abbrev smt_profile : Profile
smt_profile = record {
  registers = Smt.registers;
  register_blocks = Smt.register_blocks;
  register_map = register_map Smt.registers;
}

abbrev rack_pdu_profile : Profile
rack_pdu_profile = record {
  registers = RackPdu.registers;
  register_blocks = RackPdu.register_blocks;
  register_map = register_map RackPdu.registers;
}

unfoldable pub get_registers_for_device : ApcDeviceType → Profile
get_registers_for_device smart_ups = smart_ups_profile
get_registers_for_device smt_ups = smt_profile
get_registers_for_device smartconnect_ups = smt_profile
get_registers_for_device rack_pdu = rack_pdu_profile
get_registers_for_device _ = smart_ups_profile

-- The block that is being built: its first and last address, and its registers.
pub record Current : Type 0 where
  pub start : ℕ
  pub last : ℕ
  pub addresses : List ℕ

abbrev pub open_block : Descriptor → Current
open_block d = record {
  start = d.address;
  last = d.address + d.count - 1;
  addresses = d.address ∷ [];
}

abbrev pub extend : Descriptor → Current → Current
extend d current = record {
  start = current.start;
  last = max current.last (d.address + d.count - 1);
  addresses = current.addresses ++ (d.address ∷ []);
}

abbrev pub close_block : ℕ → Current → Block
close_block block_index current = record {
  name = append "core_block_" (decimal block_index);
  start_address = current.start;
  count = current.last - current.start + 1;
  registers = current.addresses;
}

unfoldable pub build_loop : ℕ → Current → List Descriptor → List Block
build_loop block_index current [] = close_block block_index current ∷ []
build_loop block_index current (d ∷ rest) = elim (leb d.address (current.last + 1)) [
  | true ↦ build_loop block_index (extend d current) rest
  | false ↦ close_block block_index current ∷ build_loop (block_index + 1) (open_block d) rest
]

unfoldable pub blocks_in_order : List Descriptor → List Block
blocks_in_order [] = []
blocks_in_order (d ∷ rest) = build_loop 1 (open_block d) rest

abbrev pub address : Descriptor → ℕ
address d = d.address

unfoldable pub build_blocks_from_registers : List Descriptor → List Block
build_blocks_from_registers registers = blocks_in_order (sorted (key_le address) registers)

unfoldable pub core_registers : List String → List Descriptor → List Descriptor
core_registers keys [] = []
core_registers keys (d ∷ rest) =
    if any (str_eq d.key) keys then d ∷ core_registers keys rest else core_registers keys rest

abbrev pub profile_of : List Descriptor → Profile
profile_of registers = record {
  registers = registers;
  register_blocks = build_blocks_from_registers registers;
  register_map = register_map registers;
}

unfoldable pub build_core_register_profile : ApcDeviceType → List Descriptor → Profile
build_core_register_profile device_type registers = elim (core_register_keys device_type) [
  | [] ↦ profile_of registers
  | key ∷ keys ↦ profile_of (core_registers (key ∷ keys) registers)
]
