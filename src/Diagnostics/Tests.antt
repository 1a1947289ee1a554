-- ===== src/Diagnostics/Tests.antt =====
-- The diagnostics of a device that has the registers of the SMT family and refuses the legacy
-- address.
use apc_modbus_snmp_ha.Prelude.{
  ℕ, zero, suc, ◌+◌, ◌*◌, ◌%◌, ◌≡◌, refl, Bool, true, false, none, some, List, [], ◌∷◌, arith, ◌==◌,
}
use apc_modbus_snmp_ha.Device.{modbus_exception, schema_probes}
use apc_modbus_snmp_ha.Modbus.{Response, Outcome, returned, Client, is_error_response}
use apc_modbus_snmp_ha.Transport.{Transport, session}
use apc_modbus_snmp_ha.Wire.{Arrival, segment}
use apc_modbus_snmp_ha.Wire.Chunks.{stream}
use apc_modbus_snmp_ha.Wire.Pack.{mbap_frame, word-pack_word}
use apc_modbus_snmp_ha.Diagnostics.{
  collect_modbus_block, probe_outcome, detected_device_type, collect_probes,
}
use apc_modbus_snmp_ha.Diagnostics.Decodes.{build_quick_decode}
use apc_modbus_snmp_ha.Diagnostics.Frames.{
  Answer, data_answer, exception_answer, Carries, data_body, exception_body, request_frame,
  probe_outcome-Carries,
}
use apc_modbus_snmp_ha.Diagnostics.Summary.{Reports, classified, detection-agrees}
use apc_modbus_snmp_ha.Diagnostics.Quick.{polled, build_quick_decode-polled}
use apc_modbus_snmp_ha.Coordinator.Detection.{async_detect_device_type}
use apc_modbus_snmp_ha.Coordinator.Detection.Serving.{IsSteady}

abbrev zeros : ℕ → List ℕ
zeros zero = []
zeros (suc n) = 0 ∷ zeros n

-- By whether the register is refused
abbrev answer_by : Bool → ℕ → Answer
answer_by true count = exception_answer 2
answer_by false count = data_answer (zeros count)

abbrev in_one_segment : List ℕ → List Arrival
in_one_segment [] = []
in_one_segment (b ∷ bs) = segment b bs ∷ []

abbrev frame_by : Bool → ℕ → List ℕ
frame_by true count = mbap_frame 1 0 1 (exception_body 2)
frame_by false count = mbap_frame 1 0 1 (data_body (zeros count))

abbrev answers : ℕ → ℕ → Answer
answers a count = answer_by (a % 256 == 0x21) count

abbrev peer : List ℕ → List Arrival
peer (_ ∷ _ ∷ _ ∷ _ ∷ _ ∷ _ ∷ _ ∷ _ ∷ _ ∷ low ∷ high_count ∷ low_count ∷ []) =
    in_one_segment (frame_by (low == 0x21) (high_count * 256 + low_count))
peer _ = []

either_answer :
    (b : Bool) (count : ℕ)
    → Carries 1 (answer_by b count) (stream (in_one_segment (frame_by b count)))
either_answer true count = (1, [], refl)
either_answer false count = (1, [], refl)

carried : (a c : ℕ) → Carries 1 (answers a c) (stream (peer (request_frame 1 a c)))
carried a c = rw (word-pack_word c) (either_answer (a % 256 == 0x21) c)

abbrev response_by : Bool → ℕ → Response
response_by refused count = record {
  error_method = some refused;
  registers = some (zeros count);
  exception_code = some 2;
  function_code = none;
  address = none;
  count = none;
  value = none;
}

abbrev reads : ℕ → ℕ → Outcome Response
reads a c = returned (response_by (a % 256 == 0x21) c)

abbrev client : Client
client = record {
  connect = λ n. returned true;
  read = λ n a c. reads a c;
  write = λ n a ws. returned (response_by true 0);
  close = λ n. none;
  elapsed = λ n. 10;
}

steady : IsSteady reads client
steady = record {
  opens = record { connects = λ n. refl; closes = λ n. refl };
  ends = λ n a c. refl;
  handled = λ a c. tt;
}

either_outcome : (b : Bool) (c : ℕ) → Reports (answer_by b c) (returned (response_by b c))
unfolding is_error_response
either_outcome true c = (response_by true c, refl, refl, refl)
either_outcome false c = (response_by false c, refl, refl, refl)

abbrev idle : Transport
idle = record {
  mode = session;
  session_request_succeeded = false;
  promotion_reason = none;
  keep_connection_open = true;
  same_endpoint_entries = 1;
  idle_reconnect = 30000;
  connect_failures = 0;
  last_io_monotonic = 0;
  reconnect_count = 0;
  recreate_count = 0;
  post_connect_delay = 50;
  min_reconnect_delay = 1000;
  last_close_monotonic = 0;
  retries = some 0;
  now = 100;
  calls = 0;
  trace = [];
}

probe_outcome-Carries_example :
    probe_outcome (some (collect_modbus_block true peer 1 0x0021 1)) 1
    ≡ record { kind = modbus_exception; registers = []; exception_code = some 2 }
probe_outcome-Carries_example =
    probe_outcome-Carries peer 1 0x0021 1 (exception_answer 2) (omega arith) (omega arith)
      (omega arith) (carried 0x0021 1)

detection-agrees_example :
    (detected_device_type (collect_probes (collect_modbus_block true peer 1) schema_probes)
      ≡ some (classified answers))
    × ((async_detect_device_type client 0 idle).0 ≡ returned (classified answers))
detection-agrees_example =
    detection-agrees answers peer 1 reads client 0 idle (omega arith) carried steady
      (λ a c. either_outcome (a % 256 == 0x21) c)

-- Three registers: the two of the runtime, and the charge.
build_quick_decode-polled_example :
    let q = build_quick_decode (0 ∷ 5 ∷ 512 ∷ []) in
    (q.runtime_remaining ≡ polled (0 ∷ 5 ∷ 512 ∷ []) 0x0080)
    × (q.soc_pct ≡ polled (0 ∷ 5 ∷ 512 ∷ []) 0x0082)
    × (q.batt_v_pos ≡ polled (0 ∷ 5 ∷ 512 ∷ []) 0x0083)
    × (q.batt_v_neg ≡ polled (0 ∷ 5 ∷ 512 ∷ []) 0x0084)
    × (q.batt_temp_c ≡ polled (0 ∷ 5 ∷ 512 ∷ []) 0x0087)
    × (q.out_load_pct ≡ polled (0 ∷ 5 ∷ 512 ∷ []) 0x0088)
    × (q.out_current ≡ polled (0 ∷ 5 ∷ 512 ∷ []) 0x008C)
    × (q.out_voltage ≡ polled (0 ∷ 5 ∷ 512 ∷ []) 0x008E)
    × (q.out_freq ≡ polled (0 ∷ 5 ∷ 512 ∷ []) 0x0090)
    × (q.in_freq ≡ polled (0 ∷ 5 ∷ 512 ∷ []) 0x0090)
    × (q.out_energy_wh ≡ polled (0 ∷ 5 ∷ 512 ∷ []) 0x0091)
    × (q.in_voltage ≡ polled (0 ∷ 5 ∷ 512 ∷ []) 0x0097)
build_quick_decode-polled_example = build_quick_decode-polled (0 ∷ 5 ∷ 512 ∷ [])
