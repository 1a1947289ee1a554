-- ===== src/Diagnostics/Summary.antt =====
-- The detection summary of the diagnostics, beside the detection of the coordinator.
use apc_modbus_snmp_ha.Prelude.{ℕ, ◌<◌, ◌≡◌, refl, sym, true, false, Option, some, List, arith}
use apc_modbus_snmp_ha.Device.{
  ApcDeviceType, schema_probes, classify_outcomes, classify_device_type,
}
use apc_modbus_snmp_ha.Modbus.{
  Outcome, Response, returned, raised, Client, is_error_response, registers_of,
}
use apc_modbus_snmp_ha.Transport.{Transport}
use apc_modbus_snmp_ha.Wire.{Arrival}
use apc_modbus_snmp_ha.Wire.Chunks.{stream}
use apc_modbus_snmp_ha.Diagnostics.{
  probe_outcome, collect_modbus_block, block_of_range, collect_probes, detected_device_type,
}
use apc_modbus_snmp_ha.Diagnostics.Frames.{
  Answer, data_answer, exception_answer, no_answer, Carries, outcome_of, request_frame,
  probe_outcome-Carries,
}
use apc_modbus_snmp_ha.Coordinator.Detection.{response_outcome, async_detect_device_type}
use apc_modbus_snmp_ha.Coordinator.Detection.Probing.{read_outcome}
use apc_modbus_snmp_ha.Coordinator.Detection.Serving.{IsSteady, async_detect_device_type-classifies}

-- What the client library makes of an answer: a response with the registers, an error response
-- with the exception's code, and an exception when no answer comes.
abbrev pub Reports : Answer → Outcome Response → Type 0
Reports (data_answer registers) o =
    (r : Response) × (o ≡ returned r) × (is_error_response r ≡ false) × (registers_of r ≡ registers)
Reports (exception_answer code) o =
    (r : Response) × (o ≡ returned r)
    × (is_error_response r ≡ true)
    × (r.exception_code ≡ some code)
Reports no_answer o = (e : _) × (o ≡ raised e)

read_outcome-Reports :
    (count : ℕ) (answer : Answer) (o : Outcome Response)
    → Reports answer o
    → read_outcome count o ≡ outcome_of answer count
unfolding response_outcome
read_outcome-Reports count (data_answer rs) o (r, e, fine, holds) = rw e (rw fine (rw holds refl))
read_outcome-Reports count (exception_answer code) o (r, e, error, holds) =
    rw e (rw error (rw holds refl))
read_outcome-Reports count no_answer o (e, h) = rw h refl

-- The classification of a device's answers to the five probes.
abbrev pub classified : (ℕ → ℕ → Answer) → Option ApcDeviceType
classified answers =
    classify_outcomes (outcome_of (answers 0x009E 5) 5) (outcome_of (answers 0x00CF 6) 6)
      (outcome_of (answers 0x0021 1) 1) (outcome_of (answers 0x0000 23) 23)
      (outcome_of (answers 0x0080 26) 26)

module _ (answers : ℕ → ℕ → Answer) (peer : List ℕ → List Arrival) (unit_id : ℕ)
    (unit_fits : unit_id < 256)
    (carried : (a c : ℕ)
      → Carries unit_id (answers a c) (stream (peer (request_frame unit_id a c)))) where
  probed :
      (a c : ℕ)
      → a < 65536
      → c < 65536
      → probe_outcome (some (collect_modbus_block true peer unit_id a c)) c
        ≡ outcome_of (answers a c) c
  probed a c ha hc =
      probe_outcome-Carries peer unit_id a c (answers a c) unit_fits ha hc (carried a c)

  summary-classified :
      detected_device_type (collect_probes (collect_modbus_block true peer unit_id) schema_probes)
      ≡ some (classified answers)
  unfolding classify_device_type collect_probes block_of_range
  summary-classified =
      rw
        (
          probed 0x009E 5 (omega arith) (omega arith),
          probed 0x00CF 6 (omega arith) (omega arith),
          probed 0x0021 1 (omega arith) (omega arith),
          probed 0x0000 23 (omega arith) (omega arith),
          probed 0x0080 26 (omega arith) (omega arith),
        )
        refl

detection-classified :
    (answers : ℕ → ℕ → Answer) (reads : ℕ → ℕ → Outcome Response) (client : Client) (delay : ℕ)
    (t : Transport)
    → IsSteady reads client
    → ((a c : ℕ) → Reports (answers a c) (reads a c))
    → (async_detect_device_type client delay t).0 ≡ returned (classified answers)
detection-classified answers reads client delay t steady reported =
    let same : (a c : ℕ) → read_outcome c (reads a c) ≡ outcome_of (answers a c) c =
      λ a c. read_outcome-Reports c (answers a c) (reads a c) (reported a c) in
    rw
      (
        sym (same 0x009E 5),
        sym (same 0x00CF 6),
        sym (same 0x0021 1),
        sym (same 0x0000 23),
        sym (same 0x0080 26),
      )
      (async_detect_device_type-classifies reads client delay t steady)

-- A device gives one answer to each read: registers, an exception, or none. Its unit fits a byte,
-- its peer carries each answer in any segments, and the client library reports each answer as it
-- documents, with an exception that a probe handles where none comes. Then the diagnostics' summary
-- and the coordinator's detection find the same family, or none both: the classification of the
-- five answers, from every state of the transport and in both modes.
pub detection-agrees :
    (answers : ℕ → ℕ → Answer) (peer : List ℕ → List Arrival) (unit_id : ℕ)
    (reads : ℕ → ℕ → Outcome Response) (client : Client) (delay : ℕ) (t : Transport)
    → unit_id < 256
    → ((a c : ℕ) → Carries unit_id (answers a c) (stream (peer (request_frame unit_id a c))))
    → IsSteady reads client
    → ((a c : ℕ) → Reports (answers a c) (reads a c))
    → (detected_device_type (collect_probes (collect_modbus_block true peer unit_id) schema_probes)
        ≡ some (classified answers))
      × ((async_detect_device_type client delay t).0 ≡ returned (classified answers))
detection-agrees answers peer unit_id reads client delay t unit_fits carried steady reported = (
  summary-classified answers peer unit_id unit_fits carried,
  detection-classified answers reads client delay t steady reported,
)
