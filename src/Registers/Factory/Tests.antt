-- ===== src/Registers/Factory/Tests.antt =====
-- Runs of the register factory: registers out of order, of which two touch and one overlaps.
use apc_modbus_snmp_ha.Prelude.{◌≡◌, refl, List, [], ◌∷◌, All, arith}
use apc_modbus_snmp_ha.Prelude.Sorting.{sorted, insert_sorted}
use apc_modbus_snmp_ha.Prelude.Decimal.{digits}
use apc_modbus_snmp_ha.Registers.{Descriptor, plain, block, uint16, uint32}
use apc_modbus_snmp_ha.Registers.Layout.{IsComplete}
use apc_modbus_snmp_ha.Registers.Factory.{build_blocks_from_registers, blocks_in_order, build_loop}
use apc_modbus_snmp_ha.Registers.Factory.Blocks.{AreApart, ReadsOnly, build_blocks-IsComplete}

abbrev descriptors : List Descriptor
descriptors =
    plain "c" 12 2 uint32 1
    ∷ plain "far" 40 1 uint16 1
    ∷ plain "a" 10 2 uint32 1
    ∷ plain "b" 11 1 uint16 1
    ∷ []

built :
    build_blocks_from_registers descriptors
    ≡ block "core_block_1" 10 4 (10 ∷ 11 ∷ 12 ∷ []) ∷ block "core_block_2" 40 1 (40 ∷ []) ∷ []
unfolding build_blocks_from_registers blocks_in_order build_loop sorted insert_sorted digits
built = refl

build_blocks-IsComplete_example :
    IsComplete (build_blocks_from_registers descriptors) descriptors
    × AreApart (build_blocks_from_registers descriptors)
    × All (ReadsOnly descriptors) (build_blocks_from_registers descriptors)
build_blocks-IsComplete_example =
    build_blocks-IsComplete descriptors
      (omega arith, (omega arith, (omega arith, (omega arith, tt))))
