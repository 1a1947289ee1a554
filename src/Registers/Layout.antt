-- ===== src/Registers/Layout.antt =====
-- What it is for blocks to hold registers.
use apc_modbus_snmp_ha.Prelude.{◌+◌, ◌≤◌, ◌≡◌, List, All, Any}
use apc_modbus_snmp_ha.Registers.{Descriptor, Block}

-- A block reads all the words of the register, and decodes it.
abbrev pub Holds : Descriptor → Block → Type 0
Holds d b =
    (b.start_address ≤ d.address)
    × (d.address + d.count ≤ b.start_address + b.count)
    × Any (λ a. a ≡ d.address) b.registers

-- The blocks hold every one of the registers.
abbrev pub IsComplete : List Block → List Descriptor → Type 0
IsComplete bs = All (λ d. Any (Holds d) bs)
