-- ===== src/Decode/Tests.antt =====
-- Decoding of a negative number and of a scaled register.
use apc_modbus_snmp_ha.Prelude.{◌≡◌, refl, some, [], ◌∷◌, ◌++◌, arith}
use apc_modbus_snmp_ha.Prelude.Int.{pos, negsuc}
use apc_modbus_snmp_ha.Registers.{int16, int32, whole, plain}
use apc_modbus_snmp_ha.Decode.{decode_raw, decode_register, quotient}
use apc_modbus_snmp_ha.Decode.Numbers.{words, decode_raw-words}

negative : decode_raw int16 (0xFFFE ∷ []) ≡ some (negsuc 1)
negative = refl

scaled_register :
    decode_register (25 ∷ []) (plain "x" 0 1 int16 10) ≡ some (quotient (pos 25) (whole 10))
unfolding decode_register
scaled_register = refl

decode_raw-words_example : decode_raw int32 (words int32 (negsuc 5) ++ 7 ∷ []) ≡ some (negsuc 5)
decode_raw-words_example = decode_raw-words int32 (negsuc 5) (7 ∷ []) (ground arith)
