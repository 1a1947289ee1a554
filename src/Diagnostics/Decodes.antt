-- ===== src/Diagnostics/Decodes.antt =====
-- The decodes of a block of registers in a diagnostic dump
-- (custom_components/apc_modbus/diagnostic_collector.py). A float `a / b` is the pair of a and b.
use Prim.Native.Nat.{bit_or}
use apc_modbus_snmp_ha.Prelude.{
  ℕ, ◌+◌, ◌-◌, Bool, true, false, Option, none, some, List, [], ◌∷◌, length, get_elem?, leb, ◌==◌,
  if◌then◌else◌,
}
use apc_modbus_snmp_ha.Prelude.Bits.{shl, low_bits}
use apc_modbus_snmp_ha.Prelude.Int.{ℤ, pos, ◌-ℤ◌}
use apc_modbus_snmp_ha.Decode.{Value, int, quotient, strip, is_printable}
use apc_modbus_snmp_ha.Registers.{whole}

unfoldable pub decode_uint32 : List ℕ → ℕ → Option ℕ
decode_uint32 registers index =
    if leb (length registers) (index + 1) then none else elim (get_elem? registers index) [
      | none ↦ none
      | some high ↦ elim (get_elem? registers (index + 1)) [
        | none ↦ none
        | some low ↦ some (bit_or (shl high 16) low)
      ]
    ]

unfoldable pub decode_int16 : ℕ → ℤ
decode_int16 value = if leb 0x8000 value then pos value -ℤ pos 0x10000 else pos value

unfoldable pub printable_ascii : List ℕ → List ℕ
printable_ascii [] = []
printable_ascii (register ∷ rest) =
    let kept = printable_ascii rest in
    let code_point = low_bits register 8 in
    if code_point == 0 then kept else if is_printable code_point then code_point ∷ kept else kept

unfoldable pub decode_ascii_registers : List ℕ → List ℕ
decode_ascii_registers registers = strip (printable_ascii registers)

-- The addresses of the code are at least 0x0080.
abbrev pub block_index : ℕ → ℕ
block_index address = address - 0x0080

-- The numerator of the float that `_scaled_register` returns; the divisor is an argument of it.
unfoldable pub scaled_register : List ℕ → ℕ → Bool → Option ℤ
scaled_register registers address signed = elim (get_elem? registers (block_index address)) [
  | none ↦ none
  | some value ↦ some (if signed then decode_int16 value else pos value)
]

-- `_build_quick_decode`. A key whose value is None has no value here.
pub record QuickDecode : Type 0 where
  pub runtime_remaining : Option Value
  pub soc_pct : Option Value
  pub batt_v_pos : Option Value
  pub batt_v_neg : Option Value
  pub batt_temp_c : Option Value
  pub out_load_pct : Option Value
  pub out_current : Option Value
  pub out_voltage : Option Value
  pub out_freq : Option Value
  pub in_freq : Option Value
  pub out_energy_wh : Option Value
  pub in_voltage : Option Value

abbrev pub counted : Option ℕ → Option Value
counted none = none
counted (some n) = some (int (pos n))

abbrev pub divided : ℕ → Option ℤ → Option Value
divided divisor none = none
divided divisor (some raw) = some (quotient raw (whole divisor))

unfoldable pub build_quick_decode : List ℕ → QuickDecode
build_quick_decode registers = record {
  runtime_remaining = counted (decode_uint32 registers (block_index 0x0080));
  soc_pct = divided 512 (scaled_register registers 0x0082 false);
  batt_v_pos = divided 32 (scaled_register registers 0x0083 true);
  batt_v_neg = divided 32 (scaled_register registers 0x0084 true);
  batt_temp_c = divided 128 (scaled_register registers 0x0087 true);
  out_load_pct = divided 256 (scaled_register registers 0x0088 false);
  out_current = divided 32 (scaled_register registers 0x008C false);
  out_voltage = divided 64 (scaled_register registers 0x008E false);
  out_freq = divided 128 (scaled_register registers 0x0090 false);
  in_freq = divided 128 (scaled_register registers 0x0090 false);
  out_energy_wh = counted (decode_uint32 registers (block_index 0x0091));
  in_voltage = divided 64 (scaled_register registers 0x0097 false);
}
