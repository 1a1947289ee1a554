-- ===== src/Poller/Memory.antt =====
-- A poll of a device that answers from its memory reads what single reads would.
use apc_modbus_snmp_ha.Prelude.{ℕ, ◌-◌, ◌≡◌, refl, Option, none, some, List, [], ◌∷◌, All, arith}
use apc_modbus_snmp_ha.Registers.{Descriptor, Block}
use apc_modbus_snmp_ha.Poller.{Poller, Progress, decode_one, decode_addresses, decode_block}
use apc_modbus_snmp_ha.Poller.Readings.{
  words, length-words, slice-words, IsRegisterMap, Covers, IsDone, IsSound, stored, stored-IsSound,
  stored-IsDone, stored-IsDone_self,
}

module _ (memory : ℕ → ℕ) (register_map : ℕ → Option Descriptor)
    (is_map : IsRegisterMap register_map) (start count : ℕ) where
  decode_one-stored :
      (a : ℕ) (d : Descriptor) (p : Progress)
      → register_map a ≡ some d
      → Covers register_map start count a
      → decode_one (words memory start count) (a - start) d p ≡ stored memory register_map d p
  decode_one-stored a d p ha covers =
      let inside = covers d ha in
      let whole = slice-words memory start count a d.count inside.0 inside.1 in
      let here = is_map.placed a d ha in
      let long = length-words memory a d.count in rw (whole, here) (ground (arith, long))

  -- what one address does to the progress
  abbrev at_address : ℕ → Option Descriptor → Progress → Progress
  at_address a o p = elim o [
    | none ↦ p
    | some d ↦ decode_one (words memory start count) (a - start) d p
  ]

  at_address-IsSound :
      (a : ℕ) (o : Option Descriptor) (p : Progress)
      → register_map a ≡ o
      → Covers register_map start count a
      → IsSound memory register_map p
      → IsSound memory register_map (at_address a o p)
  at_address-IsSound a none p ha covers s = s
  at_address-IsSound a (some d) p ha covers s =
      rw (decode_one-stored a d p ha covers) (stored-IsSound memory register_map is_map a d p ha s)

  at_address-IsDone :
      (a b : ℕ) (o : Option Descriptor) (p : Progress)
      → register_map a ≡ o
      → Covers register_map start count a
      → IsDone memory register_map p b
      → IsDone memory register_map (at_address a o p) b
  at_address-IsDone a b none p ha covers done = done
  at_address-IsDone a b (some d) p ha covers done =
      rw (decode_one-stored a d p ha covers)
        (stored-IsDone memory register_map is_map b a d p ha done)

  at_address-IsDone_self :
      (a : ℕ) (o : Option Descriptor) (p : Progress)
      → register_map a ≡ o
      → Covers register_map start count a
      → IsSound memory register_map p
      → IsDone memory register_map (at_address a o p) a
  at_address-IsDone_self a none p ha covers s = λ d hd. ground arith
  at_address-IsDone_self a (some d) p ha covers s =
      rw (decode_one-stored a d p ha covers)
        (stored-IsDone_self memory register_map is_map a d p ha s)

  -- After a block, nothing is wrong, its registers are read and no other is lost.
  decode_addresses_lem :
      (addresses : List ℕ) (p : Progress)
      → All (Covers register_map start count) addresses
      → IsSound memory register_map p
      → let q = decode_addresses register_map (words memory start count) start addresses p in
        IsSound memory register_map q
        × All (IsDone memory register_map q) addresses
        × ((b : ℕ) → IsDone memory register_map p b → IsDone memory register_map q b)
  unfolding decode_addresses
  decode_addresses_lem [] p covers s = (s, tt, λ b h. h)
  decode_addresses_lem (a ∷ rest) p covers s =
      let o = register_map a in
      let later =
        decode_addresses_lem rest (at_address a o p) covers.1
          (at_address-IsSound a o p refl covers.0 s) in
      (
        later.0,
        (later.2 a (at_address-IsDone_self a o p refl covers.0 s), later.1),
        λ b h. later.2 b (at_address-IsDone a b o p refl covers.0 h),
      )

-- The blocks' registers lie in their blocks.
abbrev pub IsLaidOut : (ℕ → Option Descriptor) → List Block → Type 0
IsLaidOut register_map = All (λ b. All (Covers register_map b.start_address b.count) b.registers)

-- Every block's registers have been read.
abbrev pub AreDone : (ℕ → ℕ) → (ℕ → Option Descriptor) → List Block → Progress → Type 0
AreDone memory register_map blocks p =
    All (λ b. All (IsDone memory register_map p) b.registers) blocks

module _ (memory : ℕ → ℕ) (poller : Poller) where
  -- The blocks decoded one after another.
  unfoldable pub decoded : List Block → Progress → Progress
  decoded [] p = p
  decoded (b ∷ rest) p =
      decoded rest (decode_block poller (words memory b.start_address b.count) b p)

All-map : {P Q : ℕ → Type 0} (xs : List ℕ) → ((a : ℕ) → P a → Q a) → All P xs → All Q xs
All-map [] f h = tt
All-map (x ∷ xs) f h = (f x h.0, All-map xs f h.1)

module _ (memory : ℕ → ℕ) (poller : Poller) (is_map : IsRegisterMap poller.register_map) where
  pub decoded_lem :
      (blocks : List Block) (p : Progress)
      → IsLaidOut poller.register_map blocks
      → IsSound memory poller.register_map p
      → let q = decoded memory poller blocks p in
        IsSound memory poller.register_map q
        × AreDone memory poller.register_map blocks q
        × ((a : ℕ) → IsDone memory poller.register_map p a → IsDone memory poller.register_map q a)
  unfolding decoded
  decoded_lem [] p laid s = (s, tt, λ a h. h)
  decoded_lem (b ∷ rest) p laid s =
      let first =
        decode_addresses_lem memory poller.register_map is_map b.start_address b.count b.registers p
          laid.0 s in
      let q = decode_block poller (words memory b.start_address b.count) b p in
      let later = decoded_lem rest q laid.1 first.0 in
      (later.0, (All-map b.registers later.2 first.1, later.1), λ a h. later.2 a (first.2 a h))
