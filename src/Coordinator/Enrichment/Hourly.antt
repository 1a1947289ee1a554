-- ===== src/Coordinator/Enrichment/Hourly.antt =====
-- Routine refreshes query the metadata at most once an hour, and not again after a failure.
use apc_modbus_snmp_ha.Prelude.{
  ℕ, ◌+◌, ◌-◌, ◌≤◌, ◌≡◌, refl, sym, subst, ◌⊎◌, inl, inr, Bool, true, false, none, All, List, [],
  ◌∷◌, arith, Bool-cases, ◌||◌, not, ltb,
}
use apc_modbus_snmp_ha.Coordinator.Enrichment.{
  MetadataAnswer, metadata_raised, metadata_returned, DetectionAnswer, detected, detection_raised,
  Enrichment, is_refresh_failure, is_unavailable, is_due, has_usable_metadata,
  metadata_refresh_interval, maybe_refresh_snmp_metadata, set_device_metadata, take_answer,
  take_detection, take_metadata, set_available, set_unavailable, no_metadata,
}

-- One refresh of a sequence: the time since the one before ended, the time that the metadata query
-- takes, and the answers.
pub record Turn : Type 0 where
  pub pause : ℕ
  pub elapsed : ℕ
  pub answer : MetadataAnswer
  pub detection : DetectionAnswer

unfoldable pub turns : ℕ → List Turn → Enrichment → Enrichment
turns time [] e = e
turns time (turn ∷ rest) e =
    let now = time + turn.pause in
    let done = now + turn.elapsed in
    let (_, e') = maybe_refresh_snmp_metadata now done turn.answer turn.detection e in
    turns done rest e'

-- The metadata query returns, or raises an exception that the coordinator catches.
abbrev pub IsCaught : MetadataAnswer → Type 0
IsCaught (metadata_raised kind) = is_refresh_failure kind ≡ true
IsCaught (metadata_returned _) = Unit

-- Each query is an hour or more after the one before it.
abbrev pub IsSpaced : List ℕ → Type 0
IsSpaced [] = Unit
IsSpaced (q ∷ []) = Unit
IsSpaced (q ∷ p ∷ rest) = (p + metadata_refresh_interval ≤ q) × IsSpaced (p ∷ rest)

-- At the time `time`: no query yet, or SNMP given up, or the last query noted.
abbrev LastNoted : Bool → Bool → ℕ → ℕ → List ℕ → Type 0
LastNoted unavailable needs last time [] = Unit
LastNoted unavailable needs last time (q ∷ _) =
    (unavailable ≡ true) ⊎ ((needs ≡ false) × (q ≤ last) × (last ≤ time))

abbrev IsNoted : ℕ → Enrichment → Type 0
IsNoted time e =
    IsSpaced e.queries
    × LastNoted (is_unavailable e.snmp_availability) e.metadata_needs_refresh
        e.metadata_last_refresh_monotonic time e.queries

asked-IsSpaced :
    (time now last : ℕ) (needs unavailable : Bool) (qs : List ℕ)
    → time ≤ now
    → IsSpaced qs
    → LastNoted unavailable needs last time qs
    → unavailable ≡ false
    → (needs || not (ltb (now - last) metadata_refresh_interval)) ≡ true
    → IsSpaced (now ∷ qs)
asked-IsSpaced time now last needs unavailable [] later spaced h there due = tt
asked-IsSpaced time now last needs unavailable (q ∷ qs) later spaced h there due =
    (ground arith, spaced)

later_noted :
    (unavailable needs : Bool) (last time done : ℕ) (qs : List ℕ)
    → time ≤ done
    → LastNoted unavailable needs last time qs
    → LastNoted unavailable needs last done qs
later_noted unavailable needs last time done [] later h = tt
later_noted unavailable needs last time done (q ∷ qs) later h = ground arith

-- The answer to a query that was sent
answered-IsNoted :
    (now done : ℕ) (answer : MetadataAnswer) (detection : DetectionAnswer) (e : Enrichment)
    → now ≤ done
    → IsCaught answer
    → IsSpaced (now ∷ e.queries)
    → IsNoted done (take_answer now done answer detection e).1
unfolding take_answer set_device_metadata
answered-IsNoted now done (metadata_raised kind) detection e after caught spaced =
    rw (caught, take_answer) (spaced, inl refl)
answered-IsNoted now done (metadata_returned m) detection e after caught spaced =
    elim (Bool-cases (has_usable_metadata m)) [
      | inl usable ↦
          let same : take_answer now done (metadata_returned m) detection e
              ≡ take_detection detection
                  (take_metadata done m (set_available (record e { queries = now ∷ e.queries }))) =
            rw (usable, take_answer) refl in
          subst (λ out. IsNoted done out.1) (sym same) (found detection)
      | inr none_there ↦
          let same : take_answer now done (metadata_returned m) detection e
              ≡ (none, set_unavailable no_metadata (record e { queries = now ∷ e.queries })) =
            rw (none_there, take_answer) refl in
          subst (λ out. IsNoted done out.1) (sym same) (spaced, inl refl)
    ]
  where
    found :
        (detection : DetectionAnswer)
        → IsNoted done
            (take_detection detection
              (take_metadata done m (set_available (record e { queries = now ∷ e.queries })))).1
    found (detection_raised kind) = (spaced, inr (refl, after, omega arith))
    found (detected d) = (spaced, inr (refl, after, omega arith))

refresh-IsNoted :
    (time now done : ℕ) (answer : MetadataAnswer) (detection : DetectionAnswer) (e : Enrichment)
    → time ≤ now
    → now ≤ done
    → IsCaught answer
    → IsNoted time e
    → IsNoted done (maybe_refresh_snmp_metadata now done answer detection e).1
unfolding maybe_refresh_snmp_metadata
refresh-IsNoted time now done answer detection e later after caught h =
    let skip = is_unavailable e.snmp_availability || not (is_due now e) in
    elim (Bool-cases skip) [
      | inl skipped ↦
          let same : maybe_refresh_snmp_metadata now done answer detection e ≡ (none, e) =
            rw (skipped, maybe_refresh_snmp_metadata) refl in
          subst (λ out. IsNoted done out.1) (sym same)
            (h.0, later_noted _ _ _ time done e.queries (omega arith) h.1)
      | inr asked ↦
          let same : maybe_refresh_snmp_metadata now done answer detection e
              ≡ take_answer now done answer detection e =
            rw (asked, maybe_refresh_snmp_metadata) refl in
          let there : is_unavailable e.snmp_availability ≡ false = ground arith in
          let due : is_due now e ≡ true = ground arith in
          subst (λ out. IsNoted done out.1) (sym same)
            (answered-IsNoted now done answer detection e after caught (
              asked-IsSpaced time now e.metadata_last_refresh_monotonic e.metadata_needs_refresh
                (is_unavailable e.snmp_availability) e.queries later h.0 h.1 there due))
    ]

run-IsSpaced :
    (time : ℕ) (schedule : List Turn) (e : Enrichment)
    → All (λ turn. IsCaught turn.answer) schedule
    → IsNoted time e
    → IsSpaced (turns time schedule e).queries
unfolding turns
run-IsSpaced time [] e caught h = h.0
run-IsSpaced time (turn ∷ rest) e caught h =
    let now = time + turn.pause in
    let done = now + turn.elapsed in
    run-IsSpaced done rest (maybe_refresh_snmp_metadata now done turn.answer turn.detection e).1
      caught.1
      (refresh-IsNoted time now done turn.answer turn.detection e (omega arith) (omega arith)
        caught.0 h)

-- Over any sequence of routine refreshes from a coordinator that has sent no query, at times that
-- do not go back, where each metadata query returns whatever it does or raises an OSError, a
-- TimeoutError, a RuntimeError or a ValueError, and whatever the detection query does: each metadata
-- query is an hour or more after the one before it, however long the answers take.
pub turns-IsSpaced :
    (time : ℕ) (schedule : List Turn) (e : Enrichment)
    → e.queries ≡ []
    → All (λ turn. IsCaught turn.answer) schedule
    → IsSpaced (turns time schedule e).queries
turns-IsSpaced time schedule e fresh caught =
    run-IsSpaced time schedule e caught (rw fresh (tt, tt))
