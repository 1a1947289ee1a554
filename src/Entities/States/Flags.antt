-- ===== src/Entities/States/Flags.antt =====
-- Which bit of the registers a binary sensor shows.
use Prim.Native.Nat.{bit_or}
use native.Mathlib.Nat.{pow-suc}
use apc_modbus_snmp_ha.Prelude.{
  ℕ, zero, suc, ◌+◌, ◌-◌, ◌*◌, ◌/◌, ◌%◌, ◌^◌, ◌<◌, ◌≡◌, ap, ◌∙◌, Bool, none, some, List, ◌∷◌, ltb,
  ltb→lt, ◌==◌, if◌then◌else◌, arith, Bool-cases, inl, inr,
}
use apc_modbus_snmp_ha.Prelude.Bits.{shl, shl-suc, bit_or-shl}
use apc_modbus_snmp_ha.Registers.{Descriptor, whole, uint32}
use apc_modbus_snmp_ha.Decode.{decode_register}
use apc_modbus_snmp_ha.Modbus.{returned}
use apc_modbus_snmp_ha.Coordinator.Enrichment.Merging.{Data}
use apc_modbus_snmp_ha.Entities.Descriptions.{BinaryDescription}
use apc_modbus_snmp_ha.Entities.States.{value_at, as_int, bit_set, is_on}

-- A half of two fields: the upper field of one bit less, and half of the lower one
halved :
    (k h l : ℕ) → ((h * 2 ^ suc k + l) / 2 ≡ h * 2 ^ k + l / 2) × ((h * 2 ^ suc k + l) % 2 ≡ l % 2)
halved k h l = (omega (arith, shl-suc k h), omega (arith, shl-suc k h))

half_fits : (k l : ℕ) → l < 2 ^ suc k → l / 2 < 2 ^ k
half_fits k l p = omega (arith, pow-suc 2 k)

bit_set_low : (i k h l : ℕ) → i < k → bit_set i (h * 2 ^ k + l) ≡ bit_set i l
unfolding bit_set
bit_set_low i zero h l p = absurd (omega arith)
bit_set_low zero (suc k) h l p = ap (λ r. r == 1) (halved k h l).1
bit_set_low (suc i) (suc k) h l p =
    ap (bit_set i) (halved k h l).0 ∙ bit_set_low i k h (l / 2) (omega arith)

bit_set_high : (i j k h l : ℕ) → i ≡ k + j → l < 2 ^ k → bit_set i (h * 2 ^ k + l) ≡ bit_set j h
unfolding bit_set
bit_set_high i j zero h l e p =
    let same : i ≡ j = omega arith in
    let high : h * 2 ^ 0 + l ≡ h = omega arith in
    ap (λ n. bit_set n (h * 2 ^ 0 + l)) same ∙ ap (bit_set j) high
bit_set_high zero j (suc k) h l e p = absurd (omega arith)
bit_set_high (suc i) j (suc k) h l e p =
    ap (bit_set i) (halved k h l).0 ∙ bit_set_high i j k h (l / 2) (omega arith) (half_fits k l p)

-- The bit of two words, the high one first
abbrev pub word_bit : ℕ → ℕ → ℕ → Bool
word_bit i high low = if ltb i 16 then bit_set i low else bit_set (i - 16) high

words-bit :
    (i high low : ℕ) → low < 2 ^ 16 → bit_set i (bit_or (shl high 16) low) ≡ word_bit i high low
words-bit i high low p = elim (Bool-cases (ltb i 16)) [
  | inl h ↦
      rw h (ap (bit_set i) (bit_or-shl 16 high low p) ∙ bit_set_low i 16 high low (ltb→lt i 16 h))
  | inr h ↦
      let split : i ≡ 16 + (i - 16) = ground (arith, h) in
      rw h (ap (bit_set i) (bit_or-shl 16 high low p) ∙ bit_set_high i (i - 16) 16 high low split p)
]

-- For a flag of a register of type uint32 without a scale, whose value is the one that the poll
-- decodes from 16-bit words: the binary sensor shows the bit of its index, counted from the lowest
-- of the second word on, and from 16 the bits of the first.
pub is_on-words :
    (d : BinaryDescription) (r : Descriptor) (values : Data) (high low : ℕ) (rest : List ℕ)
    → r.type ≡ uint32
    → r.scale ≡ whole 1
    → r.energy_wh_multiplier ≡ none
    → low < 2 ^ 16
    → value_at d.register_key values ≡ decode_register (high ∷ low ∷ rest) r
    → is_on d values ≡ returned (some (word_bit d.bit_index high low))
unfolding is_on decode_register as_int
is_on-words d r values high low rest t s m p v =
    rw (is_on, v) (rw (t, m, s) (ap (λ b. returned (some b)) (words-bit d.bit_index high low p)))
