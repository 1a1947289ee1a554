-- ===== src/Commands/Encoding.antt =====
-- What the encodings say.
use apc_modbus_snmp_ha.Prelude.{
  ℕ, ◌+◌, ◌^◌, ◌≤◌, ◌<◌, String, ◌≡◌, ◌≢◌, inl, inr, sym, Bool-cases, Option-cases, false, Option,
  none, some, [], ◌∷◌, All, all, arith, ◌==◌, str_eq,
}
use apc_modbus_snmp_ha.Prelude.Dict.{Dict, lookup}
use apc_modbus_snmp_ha.Commands.{
  ModbusCommand, commands, outlet_action_bits, outlet_target_bits, outlet_value, outlet_command,
  get_command,
}
use apc_modbus_snmp_ha.Prelude.Bits.{shr, low_bits}

-- What `lookup` finds in a table of which all entries satisfy `P` does.
lookup-All :
    {V : Type 0} (P : V → Type 0) (table : Dict V) (key : String) (v : V)
    → All (λ e. P e.1) table
    → lookup key table ≡ some v
    → P v
unfolding lookup
lookup-All P [] key v h e = absurd (ground arith)
lookup-All P ((k, w) ∷ table) key v h e = elim (Bool-cases (str_eq k key)) [
  | inl found ↦ (let same : w ≡ v = ground arith in rw (sym same) h.0)
  | inr missed ↦ lookup-All P table key v h.1 (ground arith)
]

-- A command that the transport accepts: one or more words of 16 bits, which are not all 0, and an
-- address in the block of command registers.
abbrev pub IsSendable : ModbusCommand → Type 0
IsSendable c =
    (c.words ≢ [])
    × All (λ w. w < 2 ^ 16) c.words
    × (all (λ w. w == 0) c.words ≡ false)
    × (0x0600 ≤ c.address)
    × (c.address ≤ 0x0607)

-- What the words of an outlet command say: bit 17 of the whole, the action and the target.
IsOutlet : ℕ → ℕ → Type 0
IsOutlet action target =
    (low_bits (shr (outlet_value action target) 16) 16 ≡ 2)
    × (low_bits (outlet_value action target) 16 ≡ 2 ^ action + 2 ^ target)
    × (2 ^ action + 2 ^ target < 2 ^ 16)

documented_outlets : All (λ a. All (λ t. IsOutlet a.1 t.1) outlet_target_bits) outlet_action_bits
unfolding IsOutlet outlet_value
documented_outlets = ground arith

-- A fixed command
fixed-IsSendable : All (λ e. IsSendable e.1) commands
fixed-IsSendable = ground arith

fixed_lookup :
    (key : String) (c : ModbusCommand)
    → get_command key none ≡ some c
    → lookup key commands ≡ some c
unfolding get_command
fixed_lookup key c h = h

-- An outlet command is given exactly for a documented action and a documented target.
outlet_found :
    (key target : String) (c : ModbusCommand)
    → get_command key (some target) ≡ some c
    → (action : ℕ) × (bit : ℕ) × (lookup key outlet_action_bits ≡ some action)
      × (lookup target outlet_target_bits ≡ some bit)
      × (c ≡ outlet_command key target action bit)
unfolding get_command
outlet_found key target c h = elim (Option-cases (lookup key outlet_action_bits)) [
  | inl e ↦ absurd (ground arith)
  | inr (action, e) ↦ elim (Option-cases (lookup target outlet_target_bits)) [
    | inl k ↦ absurd (ground arith)
    | inr (bit, k) ↦ (action, bit, e, k, ground arith)
  ]
]

documented :
    (key target : String) (action bit : ℕ)
    → lookup key outlet_action_bits ≡ some action
    → lookup target outlet_target_bits ≡ some bit
    → IsOutlet action bit
documented key target action bit h k =
    lookup-All (λ t. IsOutlet action t) outlet_target_bits target bit
      (lookup-All (λ a. All (λ t. IsOutlet a t.1) outlet_target_bits) outlet_action_bits key action
        documented_outlets h)
      k

-- An outlet command is given only for a documented action and a documented target; its words are bit
-- 17 of the whole and, in the second word, the bit of the action and the bit of the target.
pub outlet_words :
    (key target : String) (c : ModbusCommand)
    → get_command key (some target) ≡ some c
    → (action : ℕ) × (bit : ℕ) × (lookup key outlet_action_bits ≡ some action)
      × (lookup target outlet_target_bits ≡ some bit)
      × (c.address ≡ 0x0602)
      × (c.words ≡ 2 ∷ (2 ^ action + 2 ^ bit) ∷ [])
unfolding IsOutlet
outlet_words key target c h =
    let (action, bit, e, k, same) = outlet_found key target c h in
    let d = documented key target action bit e k in (action, bit, e, k, ground arith, ground arith)

outlet-IsSendable :
    (key target : String) (c : ModbusCommand)
    → get_command key (some target) ≡ some c
    → IsSendable c
unfolding IsOutlet
outlet-IsSendable key target c h =
    let (action, bit, e, k, same) = outlet_found key target c h in
    let d = documented key target action bit e k in ground arith

-- Every command that `get_command` gives is one that the transport accepts: it has words, each of 16
-- bits and not all of them 0, and an address in the block of command registers.
pub get_command-IsSendable :
    (key : String) (target : Option String) (c : ModbusCommand)
    → get_command key target ≡ some c
    → IsSendable c
get_command-IsSendable key none c h =
    lookup-All IsSendable commands key c fixed-IsSendable (fixed_lookup key c h)
get_command-IsSendable key (some target) c h = outlet-IsSendable key target c h
