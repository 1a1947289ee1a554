-- ===== src/Decode/Numbers.antt =====
-- The numeric types of `decode_register`: big-endian words, in two's complement where signed.
use Prim.Native.Nat.{bit_or}
use apc_modbus_snmp_ha.Prelude.{
  ℕ, suc, ◌-◌, ◌/◌, ◌%◌, ◌^◌, ◌<◌, ◌≡◌, ◌↔◌, none, some, List, [], ◌∷◌, ◌++◌, All, length, arith,
}
use apc_modbus_snmp_ha.Prelude.Bits.{shl, bit_or-shl}
use apc_modbus_snmp_ha.Prelude.Int.{ℤ, pos, negsuc}
use apc_modbus_snmp_ha.Registers.{RegisterType, uint16, int16, uint32, int32}
use apc_modbus_snmp_ha.Decode.{decode_raw}

-- The range of a type.
abbrev pub Fits : RegisterType → ℤ → Type 0
Fits uint16 (pos n) = n < 2 ^ 16
Fits int16 (pos n) = n < 2 ^ 15
Fits int16 (negsuc n) = n < 2 ^ 15
Fits uint32 (pos n) = n < 2 ^ 32
Fits int32 (pos n) = n < 2 ^ 31
Fits int32 (negsuc n) = n < 2 ^ 31
Fits _ _ = ⊥

-- How many registers a type takes.
abbrev pub width : RegisterType → ℕ
width uint16 = 1
width int16 = 1
width uint32 = 2
width int32 = 2
width _ = 0

abbrev pub two_words : ℕ → List ℕ
two_words n = n / 2 ^ 16 ∷ n % 2 ^ 16 ∷ []

-- The registers by which a device sends a number.
abbrev pub words : RegisterType → ℤ → List ℕ
words uint16 (pos n) = n ∷ []
words int16 (pos n) = n ∷ []
words int16 (negsuc n) = (2 ^ 16 - suc n) ∷ []
words uint32 (pos n) = two_words n
words int32 (pos n) = two_words n
words int32 (negsuc n) = two_words (2 ^ 32 - suc n)
words _ _ = []

joined_words : (n : ℕ) → bit_or (shl (n / 2 ^ 16) 16) (n % 2 ^ 16) ≡ n
joined_words n = omega (arith, bit_or-shl 16 (n / 2 ^ 16) (n % 2 ^ 16) (omega arith))

-- Every number in a type's range is decoded from the registers that encode it, whatever registers
-- follow.
pub decode_raw-words :
    (type : RegisterType) (z : ℤ) (rest : List ℕ)
    → Fits type z
    → decode_raw type (words type z ++ rest) ≡ some z
decode_raw-words uint16 (pos n) rest h = ground arith
decode_raw-words int16 (pos n) rest h = ground arith
decode_raw-words int16 (negsuc n) rest h = ground arith
decode_raw-words uint32 (pos n) rest h = ground (arith, joined_words n)
decode_raw-words int32 (pos n) rest h = ground (arith, joined_words n)
decode_raw-words int32 (negsuc n) rest h = ground (arith, joined_words (2 ^ 32 - suc n))
decode_raw-words _ _ rest h = ground arith

-- From 16-bit registers a numeric type decodes a number in its range, and it decodes none exactly
-- when there are too few registers.
pub decode_raw-Fits :
    (type : RegisterType) (registers : List ℕ)
    → 0 < width type
    → All (λ r. r < 2 ^ 16) registers
    → ((decode_raw type registers ≡ none) ↔ (length registers < width type))
      × ((z : ℤ) → decode_raw type registers ≡ some z → Fits type z)
decode_raw-Fits uint16 [] numeric small = (ground arith, λ z e. ground arith)
decode_raw-Fits uint16 (r ∷ rest) numeric small = (ground arith, λ z e. ground arith)
decode_raw-Fits int16 [] numeric small = (ground arith, λ z e. ground arith)
decode_raw-Fits int16 (r ∷ rest) numeric small = (ground arith, λ z e. ground arith)
decode_raw-Fits uint32 [] numeric small = (ground arith, λ z e. ground arith)
decode_raw-Fits uint32 (r ∷ []) numeric small = (ground arith, λ z e. ground arith)
decode_raw-Fits uint32 (high ∷ low ∷ rest) numeric small =
    (ground arith, λ z e. ground (arith, bit_or-shl 16 high low small.1.0))
decode_raw-Fits int32 [] numeric small = (ground arith, λ z e. ground arith)
decode_raw-Fits int32 (r ∷ []) numeric small = (ground arith, λ z e. ground arith)
decode_raw-Fits int32 (high ∷ low ∷ rest) numeric small =
    (ground arith, λ z e. ground (arith, bit_or-shl 16 high low small.1.0))
decode_raw-Fits _ registers numeric small = absurd (omega arith)
