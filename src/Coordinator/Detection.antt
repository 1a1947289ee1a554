-- ===== src/Coordinator/Detection.antt =====
-- `async_detect_device_type` and `_probe_outcome` of the coordinator, on the transport. A read takes
-- one executor job; the sleep between probes is the coordinator's `_inter_block_delay`.
pub mod Probing
pub mod Serving
use apc_modbus_snmp_ha.Prelude.{
  ℕ, Bool, true, false, not, ◌&&◌, ◌||◌, Option, none, some, List, [], ◌∷◌, length, ltb, ◌==◌,
  if◌then◌else◌,
}
use apc_modbus_snmp_ha.Device.{
  ApcDeviceType, ProbeOutcome, ProbeName, ProbeKind, SchemaProbe, Probes, is_same_name,
  schema_probes, response, modbus_exception, short_response, transport_failure,
  classify_device_type,
}
use apc_modbus_snmp_ha.Modbus.{
  ExceptionKind, type_error, key_error, Response, returned, raised, Client, is_error_response,
  registers_of,
}
use apc_modbus_snmp_ha.Transport.{
  Transport, Action, ◌>>=◌, ◌>>◌, pure, raise, gets, modify, branch, sleep, is_session, promote,
  is_connection_failure, plain_error, client_read, read_one_request, ensure_connection,
}

-- The exceptions that `_probe_outcome` takes for a transport failure
abbrev pub is_probe_failure : ExceptionKind → Bool
is_probe_failure type_error = true
is_probe_failure kind = is_connection_failure kind

abbrev failed_probe : ProbeOutcome
failed_probe = record { kind = transport_failure; registers = []; exception_code = none }

-- What a response says of a probe of `count` registers
unfoldable pub response_outcome : ℕ → Response → ProbeOutcome
response_outcome count result =
    if is_error_response result
    then record { kind = modbus_exception; registers = []; exception_code = result.exception_code }
    else if length (registers_of result) == count
    then record { kind = response; registers = registers_of result; exception_code = none }
    else record { kind = short_response; registers = []; exception_code = none }

-- `if ok and self.transport_mode == "session": self._session_request_succeeded = True`
abbrev pub note_success : ℕ → Response → Transport → Transport
note_success count result t = record t {
  session_request_succeeded =
      (not (is_error_response result) && length (registers_of result) == count && is_session t.mode)
      || t.session_request_succeeded;
}

abbrev pub set_probe : ProbeName → ProbeOutcome → Probes → Probes
set_probe name o probes n = if is_same_name name n then some o else probes n

abbrev pub is_transport_failure : Option ProbeOutcome → Bool
is_transport_failure none = false
is_transport_failure (some o) = elim o.kind [ transport_failure ↦ true | _ ↦ false ]

module _ (client : Client) where
  -- `_build_read_request`, run
  pub run_read_request : ℕ → ℕ → Action Response
  run_read_request address count = do
    mode ← gets (λ t. t.mode)
    branch (is_session mode) (client_read client address count)
        (read_one_request client address count)

module _ (client : Client) (inter_block_delay : ℕ) where
  -- The body of the `try` of `_probe_outcome`
  pub attempt_probe : ℕ → ℕ → Action ProbeOutcome
  attempt_probe address count = do
    branch (ltb 0 inter_block_delay) (sleep inter_block_delay) (pure tt)
    result ← run_read_request client address count
    modify (note_success count result)
    pure (response_outcome count result)

  pub probe_outcome : ℕ → ℕ → Action ProbeOutcome
  probe_outcome address count t =
      let (r, t') = attempt_probe address count t in
      elim r [
        | returned o ↦ (returned o, t')
        | raised e ↦
            if is_probe_failure e.kind
            then (returned failed_probe, promote e.kind t')
            else (raised e, t')
      ]

  -- One more probe of each name whose outcome so far is a transport failure
  pub retry_probes : List SchemaProbe → Probes → Action Probes
  retry_probes [] probes = pure probes
  retry_probes (probe ∷ rest) probes = do
    probes ←
        branch (is_transport_failure (probes probe.name))
          (do o ← probe_outcome probe.address probe.count; pure (set_probe probe.name o probes))
          (pure probes)
    retry_probes rest probes

  pub run_probes : List SchemaProbe → Probes → Action Probes
  run_probes [] probes = pure probes
  run_probes (probe ∷ rest) probes = do
    o ← probe_outcome probe.address probe.count
    mode ← gets (λ t. t.mode)
    probes ←
        branch (is_session mode) (pure (set_probe probe.name o probes))
          (retry_probes schema_probes (set_probe probe.name o probes))
    run_probes rest probes

  pub async_detect_device_type : Action (Option ApcDeviceType)
  async_detect_device_type = do
    ok ← ensure_connection client
    branch ok
        (do
          probes ← run_probes schema_probes (λ _. none)
          elim (classify_device_type probes) [
            | some detected ↦ pure detected
            | none ↦ raise (plain_error key_error)
          ])
        (pure none)
