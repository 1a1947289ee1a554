-- ===== src/Registers/RackPdu.antt =====
-- custom_components/apc_modbus/registers_rack_pdu.py: the registers and blocks of the NetShelter rack
-- PDUs. REGISTERS is `_build_registers()` with its defaults, one phase and no outlets or banks, so
-- the outlet and bank generators add nothing to it.
use apc_modbus_snmp_ha.Prelude.{List, [], ◌∷◌, ◌++◌, some, ℕ, String, ◌+◌, leb, if◌then◌else◌}
use Prim.Native.String.{◌++◌ as append}
use apc_modbus_snmp_ha.Registers.{Descriptor, Block, uint16, int16, uint32, plain, block}

abbrev pub capability_registers : List Descriptor
capability_registers =
    plain "num_phases" 0x009E 1 uint16 1
    ∷ plain "num_metered_phases" 0x009F 1 uint16 1
    ∷ plain "num_banks" 0x00A0 1 uint16 1
    ∷ plain "num_outlets" 0x00A1 1 uint16 1
    ∷ plain "num_metered_outlets" 0x00A2 1 uint16 1
    ∷ []

abbrev pub device_registers : List Descriptor
device_registers =
    plain "device_real_power" 0x00CF 1 int16 100
    ∷ plain "device_apparent_power" 0x00D0 1 int16 100
    ∷ plain "device_power_factor" 0x00D1 1 int16 100
    ∷ record (plain "device_energy" 0x00D2 2 uint32 1) { energy_wh_multiplier = some 100 }
    ∷ plain "device_load_state" 0x00D4 1 uint16 1
    ∷ []

abbrev pub phase_registers : String → ℕ → List Descriptor
phase_registers label base =
    plain (append (append "phase_" label) "_current") base 1 int16 10
    ∷ plain (append (append "phase_" label) "_voltage") (base + 1) 1 uint16 1
    ∷ plain (append (append "phase_" label) "_real_power") (base + 2) 1 int16 1
    ∷ plain (append (append "phase_" label) "_apparent_power") (base + 3) 1 int16 1
    ∷ plain (append (append "phase_" label) "_power_factor") (base + 4) 1 int16 100
    ∷ plain (append (append "phase_" label) "_state") (base + 5) 1 uint16 1
    ∷ []

-- The phases of the table, up to the first that the device does not have.
abbrev pub generate_phase_registers : ℕ → List Descriptor
generate_phase_registers num_phases =
    if leb 1 num_phases
    then phase_registers "L1" 0x029B
      ++ (if leb 2 num_phases
          then phase_registers "L2" 0x02B1
            ++ (if leb 3 num_phases then phase_registers "L3" 0x02C7 else [])
          else [])
    else []

abbrev pub registers : List Descriptor
registers = (capability_registers ++ device_registers) ++ generate_phase_registers 1

abbrev pub register_blocks : List Block
register_blocks =
    block "capabilities" 0x009E 5 (0x009E ∷ 0x009F ∷ 0x00A0 ∷ 0x00A1 ∷ 0x00A2 ∷ [])
    ∷ block "device_measurements" 0x00CF 7
        (0x00CF ∷ 0x00D0 ∷ 0x00D1 ∷ 0x00D2 ∷ 0x00D3 ∷ 0x00D4 ∷ [])
    ∷ block "phase_L1_measurements" 0x029B 6
        (0x029B ∷ 0x029C ∷ 0x029D ∷ 0x029E ∷ 0x029F ∷ 0x02A0 ∷ [])
    ∷ []
