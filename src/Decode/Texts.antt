-- ===== src/Decode/Texts.antt =====
-- The ASCII type of `decode_register`: two characters to a register, the high byte first, with NUL
-- padding and outer white space removed.
use apc_modbus_snmp_ha.Prelude.{
  ℕ, ◌+◌, ◌*◌, ◌^◌, ◌≤◌, ◌≡◌, refl, false, List, [], ◌∷◌, ◌++◌, All, arith,
}
use apc_modbus_snmp_ha.Decode.{
  characters, is_space, joined, without_nul, strip_left, strip_right, decode_text,
}

-- A text of visible characters and inner spaces: the characters are 0x20 to 0x7E, and neither the
-- first nor the last is a space.
abbrev pub IsPrintable : ℕ → Type 0
IsPrintable c = (0x20 ≤ c) × (c ≤ 0x7E)

abbrev pub Starts : List ℕ → Type 0
Starts [] = Unit
Starts (c ∷ rest) = is_space c ≡ false

abbrev pub Ends : List ℕ → Type 0
Ends [] = Unit
Ends (c ∷ []) = is_space c ≡ false
Ends (c ∷ d ∷ rest) = Ends (d ∷ rest)

-- The registers of a text, an odd last character padded with a NUL.
abbrev pub packed : List ℕ → List ℕ
packed [] = []
packed (c ∷ []) = (c * 2 ^ 8) ∷ []
packed (c ∷ d ∷ rest) = (c * 2 ^ 8 + d) ∷ packed rest

without_nul-joined :
    (cs : List ℕ) (padding : List ℕ)
    → All IsPrintable cs
    → All (λ r. r ≡ 0) padding
    → without_nul (joined 2 (packed cs ++ padding)) ≡ cs
unfolding without_nul joined characters
without_nul-joined [] [] h p = refl
without_nul-joined [] (r ∷ padding) h p = ground (arith, without_nul-joined [] padding tt p.1)
without_nul-joined (c ∷ []) padding h p = ground (arith, without_nul-joined [] padding tt p)
without_nul-joined (c ∷ d ∷ rest) padding h p =
    ground (arith, without_nul-joined rest padding h.1.1 p)

strip_left-Starts : (cs : List ℕ) → Starts cs → strip_left cs ≡ cs
unfolding strip_left
strip_left-Starts [] h = refl
strip_left-Starts (c ∷ rest) h = rw h

strip_right-Ends : (cs : List ℕ) → Ends cs → strip_right cs ≡ cs
unfolding strip_right
strip_right-Ends [] h = refl
strip_right-Ends (c ∷ []) h = rw h
strip_right-Ends (c ∷ d ∷ rest) h = rw (strip_right-Ends (d ∷ rest) h)

-- A printable text with no outer space is decoded from the registers that hold it, an odd last
-- character and any registers of zeros behind it included.
pub decode_text-packed :
    (cs padding : List ℕ)
    → All IsPrintable cs
    → Starts cs
    → Ends cs
    → All (λ r. r ≡ 0) padding
    → decode_text 2 (packed cs ++ padding) ≡ cs
unfolding decode_text
decode_text-packed cs padding h starts ends p =
    cc (without_nul-joined cs padding h p, strip_left-Starts cs starts, strip_right-Ends cs ends)
