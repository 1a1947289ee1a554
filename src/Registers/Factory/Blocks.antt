-- ===== src/Registers/Factory/Blocks.antt =====
-- The blocks that are built from a list of registers hold all of them, are apart, and read no word
-- that is not a register's.
use apc_modbus_snmp_ha.Prelude.{
  ℕ, ◌+◌, ◌-◌, ◌≤◌, ◌<◌, ◌≡◌, refl, subst, inl, inr, true, false, List, [], ◌∷◌, All, Any, All-map,
  Any-append, append-Any, arith, leb, leb→le, Bool-cases,
}
use apc_modbus_snmp_ha.Prelude.Sorting.{
  sorted, key_le, IsAscending, sorted-IsAscending, sorted-All, unsorted-All,
}
use apc_modbus_snmp_ha.Registers.{Descriptor, Block}
use apc_modbus_snmp_ha.Registers.Layout.{Holds, IsComplete}
use apc_modbus_snmp_ha.Registers.Factory.{
  Current, open_block, extend, close_block, build_loop, blocks_in_order, address,
  build_blocks_from_registers,
}

-- A register has at least one word.
abbrev pub HasWords : Descriptor → Type 0
HasWords d = 1 ≤ d.count

-- A block ends before the blocks after it start, with a word between them.
abbrev pub AreApart : List Block → Type 0
AreApart [] = Unit
AreApart (b ∷ rest) = All (λ c. b.start_address + b.count < c.start_address) rest × AreApart rest

-- Every word that the block reads is a word of some register.
abbrev pub ReadsOnly : List Descriptor → Block → Type 0
ReadsOnly ds b =
    (a : ℕ)
    → b.start_address ≤ a
    → a < b.start_address + b.count
    → Any (λ d. (d.address ≤ a) × (a < d.address + d.count)) ds

abbrev Keeps : Descriptor → Current → Type 0
Keeps d c =
    (c.start ≤ d.address)
    × (d.address + d.count ≤ c.last + 1)
    × (c.start ≤ c.last)
    × Any (λ a. a ≡ d.address) c.addresses

close_block-Holds : (i : ℕ) (d : Descriptor) (c : Current) → Keeps d c → Holds d (close_block i c)
close_block-Holds i d c h = (h.0, omega (arith, h.1, h.2), h.3)

extend-Keeps : (d e : Descriptor) (c : Current) → Keeps d c → Keeps d (extend e c)
extend-Keeps d e c h = (
  h.0,
  omega (arith, h.1),
  omega (arith, h.2),
  Any-append (λ a. a ≡ d.address) c.addresses (e.address ∷ []) h.3,
)

-- What the block in hand keeps, a block of the result holds.
build_loop-Any :
    (i : ℕ) (d : Descriptor) (c : Current) (ds : List Descriptor)
    → Keeps d c
    → Any (Holds d) (build_loop i c ds)
unfolding build_loop
build_loop-Any i d c [] h = inl (close_block-Holds i d c h)
build_loop-Any i d c (e ∷ ds) h = elim (Bool-cases (leb e.address (c.last + 1))) [
  | inl near ↦ rw (near, Any) (build_loop-Any i d (extend e c) ds (extend-Keeps d e c h))
  | inr far ↦ rw (far, Any) (inl (close_block-Holds i d c h))
]

loop-near :
    (i : ℕ) (c : Current) (e : Descriptor) (ds : List Descriptor)
    → leb e.address (c.last + 1) ≡ true
    → build_loop i (extend e c) ds ≡ build_loop i c (e ∷ ds)
unfolding build_loop
loop-near i c e ds h = rw (h, build_loop) refl

loop-far :
    (i : ℕ) (c : Current) (e : Descriptor) (ds : List Descriptor)
    → leb e.address (c.last + 1) ≡ false
    → close_block i c ∷ build_loop (i + 1) (open_block e) ds ≡ build_loop i c (e ∷ ds)
unfolding build_loop
loop-far i c e ds h = rw (h, build_loop) refl

open_block-Keeps : (d : Descriptor) → HasWords d → Keeps d (open_block d)
open_block-Keeps d h = (omega arith, omega arith, omega arith, inl refl)

extend-Keeps-self :
    (d : Descriptor) (c : Current)
    → HasWords d
    → c.start ≤ d.address
    → c.start ≤ c.last
    → Keeps d (extend d c)
extend-Keeps-self d c words above proper = (
  above,
  omega arith,
  omega arith,
  append-Any (λ a. a ≡ d.address) c.addresses (d.address ∷ []) (inl refl),
)

build_loop-IsComplete :
    (i : ℕ) (c : Current) (ds : List Descriptor)
    → c.start ≤ c.last
    → All (λ d. c.start ≤ d.address) ds
    → IsAscending address ds
    → All HasWords ds
    → IsComplete (build_loop i c ds) ds
build_loop-IsComplete i c [] proper above order words = tt
build_loop-IsComplete i c (d ∷ ds) proper above order words =
    elim (Bool-cases (leb d.address (c.last + 1))) [
      | inl near ↦
          subst (λ bs. IsComplete bs (d ∷ ds)) (loop-near i c d ds near)
            (
              build_loop-Any i d (extend d c) ds (extend-Keeps-self d c words.0 above.0 proper),
              build_loop-IsComplete i (extend d c) ds (omega arith) above.1 order.1 words.1,
            )
      | inr far ↦
          subst (λ bs. IsComplete bs (d ∷ ds)) (loop-far i c d ds far)
            (
              inr (build_loop-Any (i + 1) d (open_block d) ds (open_block-Keeps d words.0)),
              All-map (λ e. Any (Holds e) (build_loop (i + 1) (open_block d) ds))
                  (λ e. Any (Holds e) (close_block i c ∷ build_loop (i + 1) (open_block d) ds))
                  (λ e h. inr h) ds
                  (build_loop-IsComplete (i + 1) (open_block d) ds (omega (arith, words.0)) order.0
                    order.1 words.1),
            )
    ]

-- All blocks start after what the block in hand starts after.
build_loop-starts :
    (k i : ℕ) (c : Current) (ds : List Descriptor)
    → k < c.start
    → c.start ≤ c.last
    → All HasWords ds
    → All (λ b. k < b.start_address) (build_loop i c ds)
unfolding build_loop
build_loop-starts k i c [] bound proper words = (bound, tt)
build_loop-starts k i c (d ∷ ds) bound proper words =
    elim (Bool-cases (leb d.address (c.last + 1))) [
      | inl near ↦
          rw (near, All) (build_loop-starts k i (extend d c) ds bound (omega arith) words.1)
      | inr far ↦
          rw (far, All)
            (
              bound,
              build_loop-starts k (i + 1) (open_block d) ds (ground arith) (omega (arith, words.0))
                  words.1,
            )
    ]

build_loop-AreApart :
    (i : ℕ) (c : Current) (ds : List Descriptor)
    → c.start ≤ c.last
    → All HasWords ds
    → AreApart (build_loop i c ds)
unfolding build_loop
build_loop-AreApart i c [] proper words = (tt, tt)
build_loop-AreApart i c (d ∷ ds) proper words = elim (Bool-cases (leb d.address (c.last + 1))) [
  | inl near ↦ rw (near, AreApart) (build_loop-AreApart i (extend d c) ds (omega arith) words.1)
  | inr far ↦
      rw (far, AreApart)
        (
          build_loop-starts (c.start + (c.last - c.start + 1)) (i + 1) (open_block d) ds
              (ground arith) (omega (arith, words.0)) words.1,
          build_loop-AreApart (i + 1) (open_block d) ds (omega (arith, words.0)) words.1,
        )
]

-- Some register has the word `a`.
abbrev Owned : List Descriptor → ℕ → Type 0
Owned all_ds a = Any (λ d. (d.address ≤ a) × (a < d.address + d.count)) all_ds

-- All words of the block in hand are owned.
abbrev OwnsAll : List Descriptor → Current → Type 0
OwnsAll all_ds c = (a : ℕ) → c.start ≤ a → a ≤ c.last → Owned all_ds a

abbrev IsOwner : List Descriptor → Descriptor → Type 0
IsOwner all_ds d = (a : ℕ) → d.address ≤ a → a < d.address + d.count → Owned all_ds a

build_loop-ReadsOnly :
    (all_ds : List Descriptor) (i : ℕ) (c : Current) (ds : List Descriptor)
    → c.start ≤ c.last
    → OwnsAll all_ds c
    → All HasWords ds
    → All (IsOwner all_ds) ds
    → All (ReadsOnly all_ds) (build_loop i c ds)
unfolding build_loop
build_loop-ReadsOnly all_ds i c [] proper owned words owners =
    (λ a low high. owned a low (omega (arith, low, high, proper)), tt)
build_loop-ReadsOnly all_ds i c (d ∷ ds) proper owned words owners =
    elim (Bool-cases (leb d.address (c.last + 1))) [
      | inl near ↦
          rw (near, All)
            (build_loop-ReadsOnly all_ds i (extend d c) ds (omega arith)
              (λ a low high. elim (Bool-cases (leb a c.last)) [
                | inl old ↦ owned a low (leb→le a c.last old)
                | inr new ↦ owners.0 a (ground arith) (ground (arith, words.0))
              ])
              words.1 owners.1)
      | inr far ↦
          rw (far, All)
            (
              (λ a low high. owned a low (omega (arith, low, high, proper))),
              build_loop-ReadsOnly all_ds (i + 1) (open_block d) ds (omega (arith, words.0))
                  (λ a low high. owners.0 a low (omega (arith, words.0))) words.1 owners.1,
            )
    ]

each-IsOwner : (ds : List Descriptor) → All (IsOwner ds) ds
each-IsOwner [] = tt
each-IsOwner (d ∷ ds) = (
  λ a low high. inl (low, high),
  All-map (IsOwner ds) (IsOwner (d ∷ ds)) (λ e own a low high. inr (own a low high)) ds
      (each-IsOwner ds),
)

in_order :
    (all_ds ds : List Descriptor)
    → IsAscending address ds
    → All HasWords ds
    → All (IsOwner all_ds) ds
    → IsComplete (blocks_in_order ds) ds
      × AreApart (blocks_in_order ds)
      × All (ReadsOnly all_ds) (blocks_in_order ds)
unfolding blocks_in_order
in_order all_ds [] order words owners = (tt, tt, tt)
in_order all_ds (d ∷ ds) order words owners = (
  (
    build_loop-Any 1 d (open_block d) ds (open_block-Keeps d words.0),
    build_loop-IsComplete 1 (open_block d) ds (omega (arith, words.0)) order.0 order.1 words.1,
  ),
  build_loop-AreApart 1 (open_block d) ds (omega (arith, words.0)) words.1,
  build_loop-ReadsOnly all_ds 1 (open_block d) ds (omega (arith, words.0))
      (λ a low high. owners.0 a low (omega (arith, words.0))) words.1 owners.1,
)

-- For registers of at least one word each, in any order, the blocks that are built hold every
-- register completely, each block ends before the blocks after it start with a word between them,
-- and every word that a block reads is a word of some register.
pub build_blocks-IsComplete :
    (registers : List Descriptor)
    → All HasWords registers
    → IsComplete (build_blocks_from_registers registers) registers
      × AreApart (build_blocks_from_registers registers)
      × All (ReadsOnly registers) (build_blocks_from_registers registers)
unfolding build_blocks_from_registers
build_blocks-IsComplete registers words =
    let ordered = sorted (key_le address) registers in
    let blocks =
      in_order registers ordered (sorted-IsAscending address registers)
        (sorted-All (key_le address) HasWords registers words)
        (sorted-All (key_le address) (IsOwner registers) registers (each-IsOwner registers)) in
    (
      unsorted-All (key_le address) (λ d. Any (Holds d) (blocks_in_order ordered)) registers
          blocks.0,
      blocks.1,
      blocks.2,
    )
