-- ===== src/Device/Classification.antt =====
-- What evidence each family is classified from, stated on its own and shown to be what
-- `classify_device_type` decides.
use apc_modbus_snmp_ha.Prelude.{
  ℕ, ◌≤◌, ◌<◌, ◌≡◌, refl, ◌≢◌, ◌↔◌, ◌⊎◌, inl, inr, true, false, not, Option, some, List, [], ◌∷◌,
  All, Any, all, any, arith, ◌==◌, Bool-cases,
}
use apc_modbus_snmp_ha.Device.{
  ApcDeviceType, rack_pdu, smt_ups, smart_ups, smartconnect_ups, ProbeOutcome, response,
  modbus_exception, completed, all_ones, coherent_rack_pdu, classify_outcomes,
  is_concrete_device_type,
}

-- The register values of a rack PDU: five capabilities, with no more metered phases and outlets
-- than there are and some phase, bank or outlet, and six measurements, the last a load state of 0
-- to 4.
abbrev pub CoherentRegisters : List ℕ → List ℕ → Type 0
CoherentRegisters (phases ∷ metered_phases ∷ banks ∷ outlets ∷ metered_outlets ∷ [])
      (_ ∷ _ ∷ _ ∷ _ ∷ _ ∷ load_state ∷ []) =
    (metered_phases ≤ phases)
    × (metered_outlets ≤ outlets)
    × ((0 < phases) ⊎ ((0 < banks) ⊎ (0 < outlets)))
    × (load_state ≤ 4)
CoherentRegisters _ _ = ⊥

abbrev pub Coherent : ProbeOutcome → ProbeOutcome → Type 0
Coherent capabilities measurements =
    (capabilities.kind ≡ response)
    × (measurements.kind ≡ response)
    × CoherentRegisters capabilities.registers measurements.registers

Coherent-of : (c m : ProbeOutcome) → coherent_rack_pdu c m ≡ true → Coherent c m
unfolding coherent_rack_pdu
Coherent-of c m h = ground arith

Coherent-to : (c m : ProbeOutcome) → Coherent c m → coherent_rack_pdu c m ≡ true
unfolding coherent_rack_pdu
Coherent-to c m h = ground arith

not-Coherent : (c m : ProbeOutcome) → ¬ Coherent c m → coherent_rack_pdu c m ≡ false
not-Coherent c m h = elim (Bool-cases (coherent_rack_pdu c m)) [
  | inl e ↦ absurd (h (Coherent-of c m e))
  | inr e ↦ e
]

Coherent-false : (c m : ProbeOutcome) → coherent_rack_pdu c m ≡ false → ¬ Coherent c m
Coherent-false c m e h = cc (Coherent-to c m h)

all_of : (k : ℕ) (xs : List ℕ) → all (λ r. r == k) xs ≡ true → All (λ r. r ≡ k) xs
all_of k [] h = tt
all_of k (x ∷ xs) h = ground (arith, all_of k xs)

all_to : (k : ℕ) (xs : List ℕ) → All (λ r. r ≡ k) xs → all (λ r. r == k) xs ≡ true
all_to k [] h = refl
all_to k (x ∷ xs) h = ground (arith, all_to k xs h.1)

any_of : (k : ℕ) (xs : List ℕ) → any (λ r. not (r == k)) xs ≡ true → Any (λ r. r ≢ k) xs
any_of k [] h = cc
any_of k (x ∷ xs) h = elim (Bool-cases (x == k)) [
  | inl e ↦ inr (any_of k xs (ground arith))
  | inr e ↦ inl (ground arith)
]

any_to : (k : ℕ) (xs : List ℕ) → Any (λ r. r ≢ k) xs → any (λ r. not (r == k)) xs ≡ true
any_to k [] h = elim h [ ]
any_to k (x ∷ xs) (inl e) = ground arith
any_to k (x ∷ xs) (inr e) = ground (arith, any_to k xs e)

-- A Modbus exception with code 2, illegal data address.
abbrev pub IsUnsupported : ProbeOutcome → Type 0
IsUnsupported o = (o.kind ≡ modbus_exception) × (o.exception_code ≡ some 2)

abbrev pub SmtEvidence : ProbeOutcome → ProbeOutcome → Type 0
SmtEvidence legacy smt = (smt.kind ≡ response) × IsUnsupported legacy

abbrev pub SmartEvidence : ProbeOutcome → ProbeOutcome → Type 0
SmartEvidence legacy smt = (legacy.kind ≡ response) × IsUnsupported smt

-- The SMT blocks answer with live values, and the legacy block with nothing but 0xFFFF.
abbrev pub SmartconnectEvidence : ProbeOutcome → ProbeOutcome → ProbeOutcome → Type 0
SmartconnectEvidence legacy status smt =
    (smt.kind ≡ response)
    × Any (λ r. r ≢ all_ones) smt.registers
    × (status.kind ≡ response)
    × Any (λ r. r ≢ 0) status.registers
    × (legacy.kind ≡ response)
    × (legacy.registers ≢ [])
    × All (λ r. r ≡ all_ones) legacy.registers

module _ (capabilities measurements legacy status smt : ProbeOutcome) where
  abbrev result : Option ApcDeviceType
  result = classify_outcomes capabilities measurements legacy status smt

  exact_rack_pdu : (result ≡ some rack_pdu) ↔ Coherent capabilities measurements
  unfolding classify_outcomes
  exact_rack_pdu = (
    λ e. Coherent-of capabilities measurements (ground arith),
    λ c. ground (arith, Coherent-to capabilities measurements c),
  )

  exact_smt_ups :
      (result ≡ some smt_ups) ↔ (¬ Coherent capabilities measurements × SmtEvidence legacy smt)
  unfolding classify_outcomes
  exact_smt_ups = (
    λ e. (Coherent-false capabilities measurements (ground arith), ground arith),
    λ h. ground (arith, not-Coherent capabilities measurements h.0),
  )

  exact_smart_ups :
      (result ≡ some smart_ups) ↔ (¬ Coherent capabilities measurements × SmartEvidence legacy smt)
  unfolding classify_outcomes
  exact_smart_ups = (
    λ e. (Coherent-false capabilities measurements (ground arith), ground arith),
    λ h. ground (arith, not-Coherent capabilities measurements h.0),
  )

  exact_smartconnect_ups :
      (result ≡ some smartconnect_ups)
      ↔ (¬ Coherent capabilities measurements × SmartconnectEvidence legacy status smt)
  unfolding classify_outcomes
  exact_smartconnect_ups = (
    λ e. (
      Coherent-false capabilities measurements (ground arith),
      (
        ground arith,
        any_of all_ones smt.registers (ground arith),
        ground arith,
        any_of 0 status.registers (ground arith),
        ground arith,
        ground arith,
        all_of all_ones legacy.registers (ground arith),
      ),
    ),
    λ h. ground (
      arith,
      not-Coherent capabilities measurements h.0,
      any_to all_ones smt.registers h.1.1,
      any_to 0 status.registers h.1.3,
      all_to all_ones legacy.registers h.1.6,
    ),
  )

  -- Each family is decided on exactly its evidence: a coherent rack PDU first, then the SMT and the
  -- legacy families by a response against an unsupported block, and SmartConnect by live SMT blocks
  -- with a legacy block of nothing but 0xFFFF.
  pub classify_exact :
      ((result ≡ some rack_pdu) ↔ Coherent capabilities measurements)
      × ((result ≡ some smt_ups) ↔ (¬ Coherent capabilities measurements × SmtEvidence legacy smt))
      × ((result ≡ some smart_ups)
          ↔ (¬ Coherent capabilities measurements × SmartEvidence legacy smt))
      × ((result ≡ some smartconnect_ups)
          ↔ (¬ Coherent capabilities measurements × SmartconnectEvidence legacy status smt))
  classify_exact = (exact_rack_pdu, exact_smt_ups, exact_smart_ups, exact_smartconnect_ups)

  -- What is classified is a concrete family, and rests on two probes that the device answered: a
  -- device whose probes all fail, but for one, stays unclassified.
  pub classify_needs_two :
      (d : ApcDeviceType)
      → result ≡ some d
      → (is_concrete_device_type (some d) ≡ true)
        × (((completed capabilities ≡ true) × (completed measurements ≡ true))
            ⊎ ((completed legacy ≡ true) × (completed smt ≡ true)))
  unfolding classify_outcomes completed is_concrete_device_type
  classify_needs_two rack_pdu e =
      let c = exact_rack_pdu.0 e in (refl, inl (ground arith, ground arith))
  classify_needs_two _ e = ground arith
