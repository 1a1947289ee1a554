-- ===== src/Coordinator/Detection/Probing.antt =====
-- One probe of the detection, by how its read ends.
use apc_modbus_snmp_ha.Prelude.{ℕ, ◌≡◌, refl, true, none, [], arith, ltb}
use apc_modbus_snmp_ha.Device.{ProbeOutcome, transport_failure}
use apc_modbus_snmp_ha.Modbus.{Outcome, Response, returned, raised, Client}
use apc_modbus_snmp_ha.Transport.{Action, ◌>>=◌, ◌>>◌, pure, branch, modify, sleep}
use apc_modbus_snmp_ha.Transport.Answers.{
  Returns, Ends, Ends-then, Ends-bind, Ends-raised, Returns-sleep, Returns-branch, Returns-pure,
}
use apc_modbus_snmp_ha.Coordinator.Detection.{
  is_probe_failure, response_outcome, note_success, run_read_request, attempt_probe, probe_outcome,
}

abbrev failed_probe : ProbeOutcome
failed_probe = record { kind = transport_failure; registers = []; exception_code = none }

-- The outcome of a probe by how its read ends.
abbrev pub read_outcome : ℕ → Outcome Response → ProbeOutcome
read_outcome count (returned result) = response_outcome count result
read_outcome count (raised e) = failed_probe

-- The exception of a read is one that `_probe_outcome` handles.
abbrev pub IsHandled : Outcome Response → Type 0
IsHandled (returned _) = Unit
IsHandled (raised e) = is_probe_failure e.kind ≡ true

module _ (client : Client) (delay a c : ℕ) where
  -- the sleep before a probe, and what follows the read
  paused : Returns tt (branch (ltb 0 delay) (sleep delay) (pure tt))
  paused = Returns-branch tt (ltb 0 delay) _ _ (Returns-sleep delay) (Returns-pure tt)

  abbrev judged : Response → Action ProbeOutcome
  judged result = modify (note_success c result) >> pure (response_outcome c result)

  judged-Ends : (x : Response) → Ends (returned (response_outcome c x)) (judged x)
  judged-Ends x = record { at = λ t. refl }

  -- the body of the `try`, and the whole probe, by how the read ends
  attempt-Ends :
      (r : Outcome Response)
      → Ends r (run_read_request client a c)
      → Ends
          (elim r [ returned x ↦ returned (response_outcome c x) | raised e ↦ raised e ])
          (attempt_probe client delay a c)
  unfolding attempt_probe
  attempt-Ends (returned x) h =
      Ends-then tt (returned (response_outcome c x)) _ (run_read_request client a c >>= judged)
        paused
        (Ends-bind x (returned (response_outcome c x)) (run_read_request client a c) judged
          (record { at = h.at }) (judged-Ends x))
  attempt-Ends (raised e) h =
      Ends-then tt (raised e) _ (run_read_request client a c >>= judged) paused
        (Ends-raised e (run_read_request client a c) judged h)

  pub probe-Returns :
      (r : Outcome Response)
      → IsHandled r
      → Ends r (run_read_request client a c)
      → Returns (read_outcome c r) (probe_outcome client delay a c)
  unfolding probe_outcome
  probe-Returns (returned x) handled h = record {
    at = λ t. let k = (attempt-Ends (returned x) h).at t in ground arith;
  }
  probe-Returns (raised x) handled h = record {
    at = λ t. let k = (attempt-Ends (raised x) h).at t in ground arith;
  }
