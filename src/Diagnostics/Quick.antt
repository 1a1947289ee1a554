-- ===== src/Diagnostics/Quick.antt =====
-- The quick decode of the diagnostics, beside the decoder of the poller.
use apc_modbus_snmp_ha.Prelude.{
  ℕ, String, ◌≤◌, sym, zero, suc, ◌-◌, ◌≡◌, refl, ap, ◌∙◌, Bool, true, false, Option, none, some,
  List, [], ◌∷◌, drop, get_elem?, arith, if◌then◌else◌,
}
use apc_modbus_snmp_ha.Prelude.Int.{ℤ, pos}
use apc_modbus_snmp_ha.Decode.{Value, decode_raw, decode_number, decode_register}
use apc_modbus_snmp_ha.Registers.{RegisterType, plain, register_map, uint16, int16, uint32}
use apc_modbus_snmp_ha.Registers.Smt
use apc_modbus_snmp_ha.Diagnostics.Decodes.{
  decode_uint32, decode_int16, scaled_register, block_index, counted, divided, build_quick_decode,
}

-- What the poller decodes at an address of the block of measurements, with the register that the
-- SMT family has there.
abbrev pub polled : List ℕ → ℕ → Option Value
polled registers address = elim (register_map Smt.registers address) [
  | none ↦ none
  | some d ↦ decode_register (drop (address - 0x0080) registers) d
]

word_at :
    (xs : List ℕ) (i : ℕ) (signed : Bool)
    → let got : Option ℤ = elim (get_elem? xs i) [
      | none ↦ none
      | some value ↦ some (if signed then decode_int16 value else pos value)
    ] in
      got ≡ decode_raw (if signed then int16 else uint16) (drop i xs)
unfolding decode_int16
word_at [] zero true = refl
word_at [] zero false = refl
word_at [] (suc i) true = refl
word_at [] (suc i) false = refl
word_at (x ∷ xs) zero true = refl
word_at (x ∷ xs) zero false = refl
word_at (x ∷ xs) (suc i) signed = word_at xs i signed

long_at :
    (xs : List ℕ) (i : ℕ)
    → let got : Option ℤ = elim (decode_uint32 xs i) [ none ↦ none | some n ↦ some (pos n) ] in
      got ≡ decode_raw uint32 (drop i xs)
unfolding decode_uint32
long_at [] zero = refl
long_at [] (suc i) = ground arith
long_at (x ∷ []) zero = refl
long_at (x ∷ y ∷ xs) zero = ground arith
long_at (x ∷ xs) (suc i) = ground (arith, long_at xs i)

number :
    (key : String) (address count : ℕ) (type : RegisterType) (n : ℕ) (raw : Option ℤ)
    → 2 ≤ n
    → divided n raw ≡ decode_number raw (plain key address count type n)
number key address count type n none h = refl
number key address count type n (some raw) h = ground arith

-- A scaled value, and one of two words
module _ (registers : List ℕ) (key : String) (address : ℕ) where
  scaled_same :
      (signed : Bool) (n : ℕ)
      → 2 ≤ n
      → divided n (scaled_register registers address signed)
        ≡ decode_number
            (decode_raw (if signed then int16 else uint16) (drop (block_index address) registers))
            (plain key address 1 (if signed then int16 else uint16) n)
  unfolding scaled_register
  scaled_same signed n h =
      ap (divided n) (word_at registers (block_index address) signed)
      ∙ number key address 1 (if signed then int16 else uint16) n _ h

  whole_number :
      (raw : Option ℕ) (z : Option ℤ)
      → elim raw [ none ↦ none | some n ↦ some (pos n) ] ≡ z
      → counted raw ≡ decode_number z (plain key address 2 uint32 1)
  whole_number none z h = rw (sym h) refl
  whole_number (some n) z h = rw (sym h) refl

  counted_same :
      counted (decode_uint32 registers (block_index address))
      ≡ decode_number
          (decode_raw uint32 (drop (block_index address) registers))
          (plain key address 2 uint32 1)
  counted_same = whole_number _ _ (long_at registers (block_index address))

-- For any registers, of whatever number, each value of the quick decode is what the poller decodes
-- for the SMT family's register at the same address, and a value is missing from one exactly when
-- it is from the other.
pub build_quick_decode-polled :
    (registers : List ℕ)
    → let q = build_quick_decode registers in
      (q.runtime_remaining ≡ polled registers 0x0080)
      × (q.soc_pct ≡ polled registers 0x0082)
      × (q.batt_v_pos ≡ polled registers 0x0083)
      × (q.batt_v_neg ≡ polled registers 0x0084)
      × (q.batt_temp_c ≡ polled registers 0x0087)
      × (q.out_load_pct ≡ polled registers 0x0088)
      × (q.out_current ≡ polled registers 0x008C)
      × (q.out_voltage ≡ polled registers 0x008E)
      × (q.out_freq ≡ polled registers 0x0090)
      × (q.in_freq ≡ polled registers 0x0090)
      × (q.out_energy_wh ≡ polled registers 0x0091)
      × (q.in_voltage ≡ polled registers 0x0097)
unfolding build_quick_decode register_map decode_register
build_quick_decode-polled registers = (
  counted_same registers "runtime_remaining" 0x0080,
  scaled_same registers "battery_state_of_charge" 0x0082 false 512 (omega arith),
  scaled_same registers "battery_voltage" 0x0083 true 32 (omega arith),
  scaled_same registers "battery_voltage_negative" 0x0084 true 32 (omega arith),
  scaled_same registers "battery_temperature" 0x0087 true 128 (omega arith),
  scaled_same registers "output_load_percent" 0x0088 false 256 (omega arith),
  scaled_same registers "output_current" 0x008C false 32 (omega arith),
  scaled_same registers "output_voltage" 0x008E false 64 (omega arith),
  scaled_same registers "output_frequency" 0x0090 false 128 (omega arith),
  scaled_same registers "output_frequency" 0x0090 false 128 (omega arith),
  counted_same registers "output_energy" 0x0091,
  scaled_same registers "input_voltage" 0x0097 false 64 (omega arith),
)
