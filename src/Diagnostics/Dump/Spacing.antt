-- ===== src/Diagnostics/Dump/Spacing.antt =====
-- The connections of a dump, and the sleeps between them.
use apc_modbus_snmp_ha.Prelude.{
  ℕ, ◌≡◌, refl, ap, ◌∙◌, Bool, true, false, List, [], ◌∷◌, ◌++◌, if◌then◌else◌, Bool-cases, inl,
  inr,
}
use apc_modbus_snmp_ha.Transport.{Mode, one_request_per_connection}
use apc_modbus_snmp_ha.Diagnostics.Dump.{
  Step, pause, connect, is_one_request, later_blocks, block_steps, is_block, probe_steps,
  dump_steps, spaced,
}

-- No connection stands directly behind another; `behind` says that one was just opened.
abbrev pub IsSpaced : Bool → List Step → Type 0
IsSpaced behind [] = Unit
IsSpaced behind (pause ∷ steps) = IsSpaced false steps
IsSpaced true (connect start count ∷ steps) = ⊥
IsSpaced false (connect start count ∷ steps) = IsSpaced true steps

-- The ranges of the connections
unfoldable pub ranges : List Step → List (ℕ × ℕ)
ranges [] = []
ranges (pause ∷ steps) = ranges steps
ranges (connect start count ∷ steps) = (start, count) ∷ ranges steps

-- The ranges that no block has
unfoldable pub without_blocks : List (ℕ × ℕ) → List (ℕ × ℕ) → List (ℕ × ℕ)
without_blocks blocks [] = []
without_blocks blocks ((start, count) ∷ probes) =
    let rest = without_blocks blocks probes in
    if is_block blocks start count then rest else (start, count) ∷ rest

probe_steps-IsSpaced :
    (behind : Bool) (blocks probes : List (ℕ × ℕ))
    → IsSpaced behind (probe_steps true blocks probes)
unfolding probe_steps
probe_steps-IsSpaced behind blocks [] = tt
probe_steps-IsSpaced behind blocks ((start, count) ∷ probes) =
    elim (Bool-cases (is_block blocks start count)) [
      | inl h ↦ rw h (probe_steps-IsSpaced behind blocks probes)
      | inr h ↦ rw h (probe_steps-IsSpaced true blocks probes)
    ]

later_blocks-IsSpaced :
    (behind : Bool) (blocks : List (ℕ × ℕ)) (rest : List Step)
    → ((b : Bool) → IsSpaced b rest)
    → IsSpaced behind (later_blocks true blocks ++ rest)
unfolding later_blocks
later_blocks-IsSpaced behind [] rest h = h behind
later_blocks-IsSpaced behind ((start, count) ∷ blocks) rest h =
    later_blocks-IsSpaced true blocks rest h

dump_steps-one :
    (blocks probes : List (ℕ × ℕ))
    → IsSpaced false (dump_steps one_request_per_connection blocks probes)
unfolding dump_steps block_steps
dump_steps-one [] probes = probe_steps-IsSpaced false [] probes
dump_steps-one ((start, count) ∷ blocks) probes =
    later_blocks-IsSpaced true blocks _
      (λ b. probe_steps-IsSpaced b ((start, count) ∷ blocks) probes)

ranges-spaced :
    (one : Bool) (start count : ℕ) (rest : List Step)
    → ranges (spaced one start count rest) ≡ (start, count) ∷ ranges rest
unfolding ranges
ranges-spaced true start count rest = refl
ranges-spaced false start count rest = refl

ranges-later :
    (one : Bool) (blocks : List (ℕ × ℕ)) (rest : List Step)
    → ranges (later_blocks one blocks ++ rest) ≡ blocks ++ ranges rest
unfolding ranges later_blocks
ranges-later one [] rest = refl
ranges-later true (b ∷ blocks) rest = ap (λ t. b ∷ t) (ranges-later true blocks rest)
ranges-later false (b ∷ blocks) rest = ap (λ t. b ∷ t) (ranges-later false blocks rest)

ranges-probes :
    (one : Bool) (blocks probes : List (ℕ × ℕ))
    → ranges (probe_steps one blocks probes) ≡ without_blocks blocks probes
unfolding ranges probe_steps without_blocks
ranges-probes one blocks [] = refl
ranges-probes one blocks ((start, count) ∷ probes) =
    elim (Bool-cases (is_block blocks start count)) [
      | inl h ↦ rw h (ranges-probes one blocks probes)
      | inr h ↦ rw h (
          ranges-spaced one start count (probe_steps one blocks probes)
          ∙ ap (λ t. (start, count) ∷ t) (ranges-probes one blocks probes))
    ]

ranges-dump :
    (mode : Mode) (blocks probes : List (ℕ × ℕ))
    → ranges (dump_steps mode blocks probes) ≡ blocks ++ without_blocks blocks probes
unfolding dump_steps block_steps ranges
ranges-dump mode [] probes = ranges-probes (is_one_request mode) [] probes
ranges-dump mode (b ∷ blocks) probes =
    ap (λ t. b ∷ t)
      (ranges-later (is_one_request mode) blocks _
        ∙ ap (λ t. blocks ++ t) (ranges-probes (is_one_request mode) (b ∷ blocks) probes))

-- For any blocks and probes: in either mode a dump connects once for each block, in their order, and
-- then once for each probe whose range is none of a block; and with one request per connection no
-- two connections follow each other without a sleep.
pub dump_steps-IsSpaced :
    (mode : Mode) (blocks probes : List (ℕ × ℕ))
    → (ranges (dump_steps mode blocks probes) ≡ blocks ++ without_blocks blocks probes)
      × IsSpaced false (dump_steps one_request_per_connection blocks probes)
dump_steps-IsSpaced mode blocks probes =
    (ranges-dump mode blocks probes, dump_steps-one blocks probes)
