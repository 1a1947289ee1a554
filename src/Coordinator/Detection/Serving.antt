-- ===== src/Coordinator/Detection/Serving.antt =====
-- Detection on a device that answers each read in the same way each time.
use apc_modbus_snmp_ha.Prelude.{
  ℕ, ◌≡◌, ◌⊎◌, sym, inl, inr, refl, ap, ◌∙◌, Bool, true, Option, none, some, List, [], ◌∷◌, All,
  arith, Bool-cases,
}
use apc_modbus_snmp_ha.Device.{
  ApcDeviceType, ProbeOutcome, ProbeName, SchemaProbe, Probes, schema_probes, classify_outcomes,
  classify_device_type, is_same_name, rack_pdu_capabilities, rack_pdu_measurements, legacy_ups_id,
  smt_status, smt_measurements,
}
use apc_modbus_snmp_ha.Modbus.{key_error, Outcome, Response, returned, Client}
use apc_modbus_snmp_ha.Transport.{
  Transport, Mode, Action, raise, plain_error, ensure_connection, ◌>>=◌, pure, branch, is_session,
  client_read, read_one_request,
}
use apc_modbus_snmp_ha.Transport.Answers.{
  Returns, Ends, Ends-client_read, Returns-true, Returns-bind, Returns-branch, Returns-gets,
  Returns-pure, IsOpening, Ends-branch, Ends-one_request, Returns-ensure_connection,
}
use apc_modbus_snmp_ha.Coordinator.Detection.Probing.{read_outcome, IsHandled, probe-Returns}
use apc_modbus_snmp_ha.Coordinator.Detection.{
  set_probe, is_transport_failure, run_read_request, probe_outcome, retry_probes, run_probes,
  async_detect_device_type,
}

-- A client that connects and closes, and ends each read of the same registers in the same way.
pub record IsSteady (reads : ℕ → ℕ → Outcome Response) (client : Client) : Type 0 where
  pub opens : IsOpening client
  pub ends : (n a c : ℕ) → client.read n a c ≡ reads a c
  pub handled : (a c : ℕ) → IsHandled (reads a c)

same_name : (p n : ProbeName) → is_same_name p n ≡ true → p ≡ n
same_name p n h = ground arith

-- Probes that are set one after the other.
abbrev pub set_all : (ProbeName → ProbeOutcome) → List SchemaProbe → Probes → Probes
set_all named [] probes = probes
set_all named (p ∷ rest) probes = set_all named rest (set_probe p.name (named p.name) probes)

-- A name has no outcome yet, or its own.
abbrev IsTold : (ProbeName → ProbeOutcome) → Probes → Type 0
IsTold named probes = (n : ProbeName) → (probes n ≡ none) ⊎ (probes n ≡ some (named n))

module _ (named : ProbeName → ProbeOutcome) where
  set_probe-IsTold :
      (p : ProbeName) (probes : Probes)
      → IsTold named probes
      → IsTold named (set_probe p (named p) probes)
  set_probe-IsTold p probes told n = elim (Bool-cases (is_same_name p n)) [
    | inl e ↦ let same = same_name p n e in inr (ground arith)
    | inr e ↦ let h = told n in ground arith
  ]

  -- An outcome that is told again changes nothing.
  told_again :
      (p : ProbeName) (probes : Probes)
      → probes p ≡ some (named p)
      → set_probe p (named p) probes ≡ probes
  told_again p probes h = λ i n. pointwise n i
    where
      pointwise : (n : ProbeName) → set_probe p (named p) probes n ≡ probes n
      pointwise n = elim (Bool-cases (is_same_name p n)) [
        | inl e ↦ let same = same_name p n e in ground arith
        | inr e ↦ ground arith
      ]

module _ (reads : ℕ → ℕ → Outcome Response) (client : Client) (delay : ℕ)
    (steady : IsSteady reads client) where
  read-Ends : (a c : ℕ) → Ends (reads a c) (client_read client a c)
  read-Ends a c = Ends-client_read client (reads a c) a c (λ n. steady.ends n a c)

  pub run_read_request-Ends : (a c : ℕ) → Ends (reads a c) (run_read_request client a c)
  unfolding run_read_request
  run_read_request-Ends a c = record {
    at = λ t.
        (Ends-branch (reads a c) (is_session t.mode) (client_read client a c)
            (read_one_request client a c) (read-Ends a c)
            (Ends-one_request steady.opens (reads a c) a c (read-Ends a c))).at
          t;
  }

  pub Returns-probe_outcome :
      (a c : ℕ) → Returns (read_outcome c (reads a c)) (probe_outcome client delay a c)
  Returns-probe_outcome a c =
      probe-Returns client delay a c (reads a c) (steady.handled a c) (run_read_request-Ends a c)

  module _ (named : ProbeName → ProbeOutcome) where
    -- The outcome of the probe's own read is the one of its name.
    abbrev IsNamed : SchemaProbe → Type 0
    IsNamed p = read_outcome p.count (reads p.address p.count) ≡ named p.name

    probe_named :
        (p : SchemaProbe)
        → IsNamed p
        → Returns (named p.name) (probe_outcome client delay p.address p.count)
    probe_named p h = rw (sym h) (Returns-probe_outcome p.address p.count)

    told_pure :
        (p : ProbeName) (probes : Probes) (o : ProbeOutcome)
        → probes p ≡ some (named p)
        → o ≡ named p
        → Returns probes (pure (set_probe p o probes))
    told_pure p probes o h e =
        let same : set_probe p o probes ≡ probes =
          ap (λ x. set_probe p x probes) e ∙ told_again named p probes h in
        record { at = λ t. ap returned same }

    Returns-again :
        (p : SchemaProbe) (probes : Probes)
        → IsNamed p
        → IsTold named probes
        → Returns probes (
            branch
              (is_transport_failure (probes p.name))
              (probe_outcome client delay p.address p.count >>= λ o.
                pure (set_probe p.name o probes))
              (pure probes))
    Returns-again p probes h told = elim (told p.name) [
      | inl e ↦ record { at = λ t. ground arith }
      | inr e ↦
          Returns-branch probes (is_transport_failure (probes p.name)) _ _
            (Returns-bind (named p.name) probes _ _ (probe_named p h)
              (λ o same. told_pure p.name probes o e same))
            (Returns-pure probes)
    ]

    Returns-retry_probes :
        (ps : List SchemaProbe) (probes : Probes)
        → All IsNamed ps
        → IsTold named probes
        → Returns probes (retry_probes client delay ps probes)
    unfolding retry_probes
    Returns-retry_probes [] probes hs told = Returns-pure probes
    Returns-retry_probes (p ∷ rest) probes hs told =
        Returns-bind probes probes _ (retry_probes client delay rest)
          (Returns-again p probes hs.0 told)
          (λ x same. rw same (Returns-retry_probes rest probes hs.1 told))

    Returns-retried :
        (p : ProbeName) (probes : Probes) (o : ProbeOutcome) (mode : Mode)
        → All IsNamed schema_probes
        → IsTold named probes
        → o ≡ named p
        → Returns (set_probe p (named p) probes) (
            branch
              (is_session mode)
              (pure (set_probe p o probes))
              (retry_probes client delay schema_probes (set_probe p o probes)))
    Returns-retried p probes o mode every_probe told same =
        let next = set_probe p (named p) probes in
        rw same (
          Returns-branch next (is_session mode) _ _ (Returns-pure next) (
            Returns-retry_probes schema_probes next every_probe
              (set_probe-IsTold named p probes told)))

    Returns-run_probes :
        (ps : List SchemaProbe) (probes : Probes)
        → All IsNamed schema_probes
        → All IsNamed ps
        → IsTold named probes
        → Returns (set_all named ps probes) (run_probes client delay ps probes)
    unfolding run_probes
    Returns-run_probes [] probes every_probe hs told = Returns-pure probes
    Returns-run_probes (p ∷ rest) probes every_probe hs told =
        let next = set_probe p.name (named p.name) probes in
        let told' = set_probe-IsTold named p.name probes told in
        Returns-bind (named p.name) (set_all named rest next) _ _ (probe_named p hs.0) (λ o same.
          Returns-gets (set_all named rest next) (λ t. t.mode) _
            (λ mode.
              Returns-bind next (set_all named rest next) _ (run_probes client delay rest)
                (Returns-retried p.name probes o mode every_probe told same)
                (λ x at_next. rw at_next (Returns-run_probes rest next every_probe hs.1 told'))))

  -- The outcome of each name's own read
  abbrev pub name_outcome : ProbeName → ProbeOutcome
  name_outcome rack_pdu_capabilities = read_outcome 5 (reads 0x009E 5)
  name_outcome rack_pdu_measurements = read_outcome 6 (reads 0x00CF 6)
  name_outcome legacy_ups_id = read_outcome 1 (reads 0x0021 1)
  name_outcome smt_status = read_outcome 23 (reads 0x0000 23)
  name_outcome smt_measurements = read_outcome 26 (reads 0x0080 26)

  abbrev all_probes : Probes
  all_probes = set_all name_outcome schema_probes (λ _. none)

  abbrev pub detected : Option ApcDeviceType
  detected =
      classify_outcomes (name_outcome rack_pdu_capabilities) (name_outcome rack_pdu_measurements)
        (name_outcome legacy_ups_id) (name_outcome smt_status) (name_outcome smt_measurements)

  every_probe : All (IsNamed name_outcome) schema_probes
  every_probe = (refl, (refl, (refl, (refl, (refl, tt)))))

  classification : classify_device_type all_probes ≡ some detected
  unfolding classify_device_type
  classification = refl

  abbrev conclude : Probes → Action (Option ApcDeviceType)
  conclude probes = elim (classify_device_type probes) [
    | some d ↦ pure d
    | none ↦ raise (plain_error key_error)
  ]

  conclude-Returns : (probes : Probes) → probes ≡ all_probes → Returns detected (conclude probes)
  conclude-Returns probes e = rw e (rw (classification, conclude) (Returns-pure detected))

  probing-Returns :
      (ok : Bool)
      → ok ≡ true
      → Returns detected
          (branch ok (run_probes client delay schema_probes (λ _. none) >>= conclude) (pure none))
  probing-Returns ok h = Returns-true detected ok _ _ h (
      Returns-bind all_probes detected (run_probes client delay schema_probes (λ _. none)) conclude
        (Returns-run_probes name_outcome schema_probes (λ _. none) every_probe every_probe
          (λ n. inl refl))
        conclude-Returns)

  Returns-async_detect_device_type : Returns detected (async_detect_device_type client delay)
  unfolding async_detect_device_type
  Returns-async_detect_device_type =
      Returns-bind true detected (ensure_connection client) _
        (Returns-ensure_connection steady.opens) probing-Returns

-- For a client that connects and closes, and ends each read of the same registers in the same way,
-- with an exception that a probe handles or with a response: from every state of the transport and
-- in both modes, with the retries and the promotion that failures cause, `async_detect_device_type`
-- returns the classification of the outcomes of the five reads.
pub async_detect_device_type-classifies :
    (reads : ℕ → ℕ → Outcome Response) (client : Client) (delay : ℕ) (t : Transport)
    → IsSteady reads client
    → (async_detect_device_type client delay t).0
      ≡ returned (
          classify_outcomes
            (read_outcome 5 (reads 0x009E 5))
            (read_outcome 6 (reads 0x00CF 6))
            (read_outcome 1 (reads 0x0021 1))
            (read_outcome 23 (reads 0x0000 23))
            (read_outcome 26 (reads 0x0080 26)))
async_detect_device_type-classifies reads client delay t steady =
    (Returns-async_detect_device_type reads client delay steady).at t
