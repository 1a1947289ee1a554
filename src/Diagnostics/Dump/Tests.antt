-- ===== src/Diagnostics/Dump/Tests.antt =====
-- The connections of the blocks and probes of a dump, and an identity of two texts.
use apc_modbus_snmp_ha.Prelude.{ℕ, ◌≡◌, refl, false, List, [], ◌∷◌, ◌++◌, map}
use apc_modbus_snmp_ha.Prelude.Texts.{codes}
use apc_modbus_snmp_ha.Decode.{strip, strip_left, strip_right, is_space, is_printable}
use apc_modbus_snmp_ha.Device.{schema_probes}
use apc_modbus_snmp_ha.Transport.{session, one_request_per_connection}
use apc_modbus_snmp_ha.Diagnostics.{modbus_blocks}
use apc_modbus_snmp_ha.Diagnostics.Decodes.{decode_ascii_registers, printable_ascii}
use apc_modbus_snmp_ha.Diagnostics.Dump.{dump_steps, ascii_chunks}
use apc_modbus_snmp_ha.Diagnostics.Dump.Spacing.{
  IsSpaced, ranges, without_blocks, dump_steps-IsSpaced,
}

abbrev probe_ranges : List (ℕ × ℕ)
probe_ranges = map (λ p. (p.address, p.count)) schema_probes

dump_steps-IsSpaced_example :
    (ranges (dump_steps session modbus_blocks probe_ranges)
      ≡ modbus_blocks ++ without_blocks modbus_blocks probe_ranges)
    × IsSpaced false (dump_steps one_request_per_connection modbus_blocks probe_ranges)
dump_steps-IsSpaced_example = dump_steps-IsSpaced session modbus_blocks probe_ranges

two_texts :
    ascii_chunks 0 0x023C (0x41 ∷ 0x42 ∷ 0 ∷ 0 ∷ 0 ∷ 0 ∷ 0 ∷ 0 ∷ 0x43 ∷ [])
    ≡ (0x023C, codes "AB") ∷ (0x0244, codes "C") ∷ []
unfolding ascii_chunks decode_ascii_registers printable_ascii is_printable strip strip_left
    strip_right is_space
two_texts = refl
