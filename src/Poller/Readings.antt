-- ===== src/Poller/Readings.antt =====
-- Decoding the addresses of a block out of a device's memory.
use apc_modbus_snmp_ha.Prelude.{
  ℕ, suc, zero, ◌+◌, ◌-◌, ◌≤◌, String, ◌≡◌, refl, ◌∙◌, ◌⊎◌, Option, none, some, List, [], ◌∷◌,
  length, take, drop, arith, if◌then◌else◌, str_eq, eq_iff,
}
use apc_modbus_snmp_ha.Prelude.Dict.{lookup, lookup-insert}
use apc_modbus_snmp_ha.Registers.{Descriptor}
use apc_modbus_snmp_ha.Decode.{Value, decode_register}
use apc_modbus_snmp_ha.Poller.{Progress, store, slice}

-- The words that a device holds from an address on.
unfoldable pub words : (ℕ → ℕ) → ℕ → ℕ → List ℕ
words memory a zero = []
words memory a (suc n) = memory a ∷ words memory (suc a) n

pub length-words : (memory : ℕ → ℕ) (a n : ℕ) → length (words memory a n) ≡ n
unfolding words
length-words memory a zero = refl
length-words memory a (suc n) = omega (arith, length-words memory (suc a) n)

take-words : (memory : ℕ → ℕ) (a n k : ℕ) → k ≤ n → take k (words memory a n) ≡ words memory a k
unfolding words
take-words memory a n zero h = refl
take-words memory a zero (suc k) h = elim h [ ]
take-words memory a (suc n) (suc k) h =
    let rest = take-words memory (suc a) n k (omega arith) in rw rest refl

drop-words :
    (memory : ℕ → ℕ) (a m n k : ℕ) → m ≡ k + n → drop k (words memory a m) ≡ words memory (a + k) n
unfolding words
drop-words memory a m n zero h =
    let same : a + 0 ≡ a = omega arith in let whole : m ≡ n = omega arith in rw (whole, same) refl
drop-words memory a zero n (suc k) h = absurd (omega arith)
drop-words memory a (suc m) n (suc k) h =
    let same : a + suc k ≡ suc a + k = omega arith in
    rw same (drop-words memory (suc a) m n k (omega arith))

-- A slice of a block's words is the words of the register there.
pub slice-words :
    (memory : ℕ → ℕ) (start n a k : ℕ)
    → start ≤ a
    → a + k ≤ start + n
    → slice (words memory start n) (a - start) k ≡ words memory a k
slice-words memory start n a k h l =
    let d = drop-words memory start n (n - (a - start)) (a - start) (omega arith) in
    let same : start + (a - start) ≡ a = omega arith in
    rw (d, same) (take-words memory a (n - (a - start)) k (omega arith))

-- What a register read by itself gives.
abbrev pub reading : (ℕ → ℕ) → Descriptor → Option Value
reading memory d = decode_register (words memory d.address d.count) d

-- A map of registers: every descriptor stands at its address, and keys tell descriptors apart.
pub record IsRegisterMap (register_map : ℕ → Option Descriptor) : Type 0 where
  pub placed : (a : ℕ) (d : Descriptor) → register_map a ≡ some d → d.address ≡ a
  pub keyed :
      (a b : ℕ) (d e : Descriptor)
      → register_map a ≡ some d
      → register_map b ≡ some e
      → d.key ≡ e.key
      → a ≡ b

-- The words of every known register at the addresses lie in the block.
abbrev pub Covers : (ℕ → Option Descriptor) → ℕ → ℕ → ℕ → Type 0
Covers register_map start count a =
    (d : Descriptor) → register_map a ≡ some d → (start ≤ a) × (a + d.count ≤ start + count)

module _ (memory : ℕ → ℕ) (register_map : ℕ → Option Descriptor) where
  -- The value of the register at `a` has been read.
  abbrev pub IsDone : Progress → ℕ → Type 0
  IsDone p a = (d : Descriptor) → register_map a ≡ some d → lookup d.key p.values ≡ reading memory d

  -- There is no error, and no register has a value other than its own.
  pub record IsSound (p : Progress) : Type 0 where
    pub no_errors : p.errors ≡ []
    pub own :
        (a : ℕ) (d : Descriptor)
        → register_map a ≡ some d
        → (lookup d.key p.values ≡ none) ⊎ (lookup d.key p.values ≡ reading memory d)

  -- one register more
  abbrev pub stored : Descriptor → Progress → Progress
  stored e p = store e.key (reading memory e) p

lookup-store :
    (k key : String) (v : Option Value) (p : Progress)
    → lookup k (store key v p).values ≡ elim v [
      | none ↦ lookup k p.values
      | some w ↦ if str_eq key k then some w else lookup k p.values
    ]
lookup-store k key none p = refl
lookup-store k key (some w) p = lookup-insert key k w p.values

errors-store : (key : String) (v : Option Value) (p : Progress) → (store key v p).errors ≡ p.errors
errors-store key none p = refl
errors-store key (some w) p = refl

module _ (memory : ℕ → ℕ) (register_map : ℕ → Option Descriptor)
    (is_map : IsRegisterMap register_map) where
  same_descriptor :
      (a b : ℕ) (d e : Descriptor)
      → register_map a ≡ some d
      → register_map b ≡ some e
      → d.key ≡ e.key
      → d ≡ e
  same_descriptor a b d e ha hb k =
      let same = is_map.keyed a b d e ha hb k in
      let moved : register_map b ≡ some d = rw same at ha in ground arith

  lookup-stored :
      (a b : ℕ) (d e : Descriptor) (p : Progress)
      → register_map a ≡ some d
      → register_map b ≡ some e
      → (lookup d.key (stored memory register_map e p).values ≡ lookup d.key p.values)
        ⊎ ((d ≡ e) × (lookup d.key (stored memory register_map e p).values ≡ reading memory d))
  lookup-stored a b d e p ha hb =
      let h = lookup-store d.key e.key (reading memory e) p in
      let k = same_descriptor a b d e ha hb in ground (arith, eq_iff e.key d.key)

  pub stored-IsSound :
      (b : ℕ) (e : Descriptor) (p : Progress)
      → register_map b ≡ some e
      → IsSound memory register_map p
      → IsSound memory register_map (stored memory register_map e p)
  stored-IsSound b e p hb s = record {
    no_errors = errors-store e.key (reading memory e) p ∙ s.no_errors;
    own = λ a d ha. let h = lookup-stored a b d e p ha hb in let k = s.own a d ha in ground arith;
  }

  pub stored-IsDone :
      (a b : ℕ) (e : Descriptor) (p : Progress)
      → register_map b ≡ some e
      → IsDone memory register_map p a
      → IsDone memory register_map (stored memory register_map e p) a
  stored-IsDone a b e p hb done d ha =
      let h = lookup-stored a b d e p ha hb in let k = done d ha in ground arith

  pub stored-IsDone_self :
      (b : ℕ) (e : Descriptor) (p : Progress)
      → register_map b ≡ some e
      → IsSound memory register_map p
      → IsDone memory register_map (stored memory register_map e p) b
  stored-IsDone_self b e p hb s d hd =
      let same = same_descriptor b b d e hd hb in
      let h = lookup-store e.key e.key (reading memory e) p in
      let k = s.own b e hb in
      let own : d ≡ e = ground arith in rw own (ground (arith, eq_iff e.key e.key))
