-- ===== src/Decode.antt =====
-- `ModbusPoller.decode_register` of custom_components/apc_modbus/modbus_poller.py. Registers are
-- natural numbers. A value is an int, a text as its code points, or `quotient raw scale`, the float
-- that Python's `raw / scale` gives: its rounding is not modelled.
pub mod Numbers
pub mod Texts
mod Tests
use Prim.Native.Nat.{bit_or}
use apc_modbus_snmp_ha.Prelude.{
  ℕ, ◌^◌, Bool, true, false, not, ◌&&◌, ◌||◌, Option, none, some, List, [], ◌∷◌, ◌++◌, ltb, leb,
  ◌==◌, if◌then◌else◌,
}
use apc_modbus_snmp_ha.Prelude.Bits.{shl, shr, low_bits}
use apc_modbus_snmp_ha.Prelude.Int.{ℤ, pos, ◌-ℤ◌, scale_ℤ}
use apc_modbus_snmp_ha.Registers.{
  RegisterType, uint16, int16, uint32, int32, ascii, other, Scale, whole, one_over, Descriptor,
}

pub data Value : Type 0 where
  int : ℤ → Value
  quotient : ℤ → Scale → Value
  text : List ℕ → Value

-- The raw number, where there are registers enough for the type.
abbrev pub decode_raw : RegisterType → List ℕ → Option ℤ
decode_raw uint16 (r ∷ _) = some (pos r)
decode_raw int16 (r ∷ _) = some (if leb 0x8000 r then pos r -ℤ pos 0x10000 else pos r)
decode_raw uint32 (high ∷ low ∷ _) = some (pos (bit_or (shl high 16) low))
decode_raw int32 (high ∷ low ∷ _) =
    let raw = bit_or (shl high 16) low in
    some (if leb 0x80000000 raw then pos raw -ℤ pos 0x100000000 else pos raw)
decode_raw _ _ = none

-- The multiplier comes first; a scale of 0 or 1 leaves the raw number.
abbrev pub scaled : ℤ → Option ℕ → Scale → Value
scaled raw (some multiplier) scale = int (scale_ℤ raw multiplier)
scaled raw none (whole n) = if ltb 0 n && not (n == 1) then quotient raw (whole n) else int raw
scaled raw none (one_over n) = if n == 1 then int raw else quotient raw (one_over n)

unfoldable pub is_printable : ℕ → Bool
is_printable c = leb 0x20 c && leb c 0x7E

-- The characters of one register: one of its bytes, or both, the high byte first.
unfoldable pub characters : ℕ → ℕ → List ℕ
unfolding is_printable
characters width register =
    let high = low_bits (shr register 8) 8 in
    let low = low_bits register 8 in
    if width == 1
    then (if is_printable high && not (is_printable low)
        then high
        else if is_printable low
        then low
        else 0)
      ∷ []
    else high ∷ low ∷ []

-- What `str.strip` takes for white space, among the code points below 256.
unfoldable pub is_space : ℕ → Bool
is_space c = (leb 9 c && leb c 13) || (leb 28 c && leb c 32) || c == 0x85 || c == 0xA0

unfoldable pub joined : ℕ → List ℕ → List ℕ
joined width [] = []
joined width (r ∷ rest) = characters width r ++ joined width rest

-- `.replace("\x00", "")`
unfoldable pub without_nul : List ℕ → List ℕ
without_nul [] = []
without_nul (c ∷ rest) = let kept = without_nul rest in if c == 0 then kept else c ∷ kept

unfoldable pub strip_left : List ℕ → List ℕ
strip_left [] = []
strip_left (c ∷ rest) = let shorter = strip_left rest in if is_space c then shorter else c ∷ rest

-- The text up to its last character that is no space.
unfoldable pub strip_right : List ℕ → List ℕ
strip_right [] = []
strip_right (c ∷ rest) = elim (strip_right rest) [
  | [] ↦ if is_space c then [] else c ∷ []
  | d ∷ kept ↦ c ∷ d ∷ kept
]

unfoldable pub strip : List ℕ → List ℕ
unfolding strip_left strip_right
strip cs = strip_right (strip_left cs)

unfoldable pub decode_text : ℕ → List ℕ → List ℕ
unfolding joined without_nul strip
decode_text width registers = strip (without_nul (joined width registers))

abbrev pub decode_ascii : ℕ → List ℕ → Option Value
decode_ascii width [] = none
decode_ascii width (r ∷ rest) = some (text (decode_text width (r ∷ rest)))

abbrev pub decode_number : Option ℤ → Descriptor → Option Value
decode_number none d = none
decode_number (some raw) d = some (scaled raw d.energy_wh_multiplier d.scale)

abbrev pub decode_as : RegisterType → List ℕ → Descriptor → Option Value
decode_as ascii registers d = decode_ascii d.ascii_width registers
decode_as type registers d = decode_number (decode_raw type registers) d

unfoldable pub decode_register : List ℕ → Descriptor → Option Value
decode_register registers d = decode_as d.type registers d
