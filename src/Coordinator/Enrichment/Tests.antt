-- ===== src/Coordinator/Enrichment/Tests.antt =====
-- Runs of the enrichment: an hour of refreshes, and a frequency that SNMP brings.
use apc_modbus_snmp_ha.Prelude.{
  ℕ, ◌≡◌, refl, true, Option, none, some, List, [], ◌∷◌, if◌then◌else◌,
}
use apc_modbus_snmp_ha.Prelude.Dict.{lookup, insert}
use apc_modbus_snmp_ha.Prelude.Int.{pos}
use apc_modbus_snmp_ha.Decode.{int, strip, strip_left, strip_right, is_space}
use apc_modbus_snmp_ha.Device.{smt_ups, is_same}
use apc_modbus_snmp_ha.Modbus.{timeout_error}
use apc_modbus_snmp_ha.Coordinator.Enrichment.{
  Enrichment, Detection, Metadata, metadata_returned, metadata_raised, detected, snmp_unknown,
  snmp_available, has_usable_metadata, clean_metadata_value, take_answer,
  maybe_refresh_snmp_metadata, set_device_metadata,
}
use apc_modbus_snmp_ha.Coordinator.Enrichment.Hourly.{Turn, turns, IsSpaced, turns-IsSpaced}
use apc_modbus_snmp_ha.Coordinator.Enrichment.Merging.{
  Data, get, enrich, merge_device_metadata, effective_detection,
}
use apc_modbus_snmp_ha.Coordinator.Enrichment.Precedence.{
  BringsForeign, answer_frequency, probe_answer, enrich-input_frequency,
}
use apc_modbus_snmp_ha.Coordinator.Enrichment.Keys.{or_else}

abbrev fresh : Enrichment
fresh = record {
  hw_model = none;
  serial_number = none;
  fw_version = none;
  fw_date = none;
  metadata_needs_refresh = true;
  metadata_last_refresh_monotonic = 0;
  snmp_availability = snmp_unknown;
  snmp_failure_category = none;
  snmp_probe_detection = [];
  snmp_self_test_data = [];
  self_test_last_refresh_monotonic = 0;
  queries = [];
}

-- " SMT "
abbrev model_text : List ℕ
model_text = 32 ∷ 83 ∷ 77 ∷ 84 ∷ 32 ∷ []

cleaned : clean_metadata_value (some model_text) ≡ some (83 ∷ 77 ∷ 84 ∷ [])
unfolding clean_metadata_value strip strip_left strip_right is_space
cleaned = refl

not_cleaned : clean_metadata_value (some (78 ∷ 47 ∷ 65 ∷ [])) ≡ none
unfolding clean_metadata_value strip strip_left strip_right is_space
not_cleaned = refl

abbrev metadata : Metadata
metadata = record {
  model = some model_text;
  serial_number = none;
  firmware_version = none;
  firmware_date = none;
}

abbrev half_hour : Turn
half_hour = record {
  pause = 1800000;
  elapsed = 500;
  answer = metadata_returned metadata;
  detection = detected [];
}

abbrev failing : Turn
failing = record half_hour { answer = metadata_raised timeout_error }

-- The fifth refresh's query raises, and the two behind it send nothing.
abbrev schedule : List Turn
schedule = half_hour ∷ half_hour ∷ half_hour ∷ failing ∷ failing ∷ half_hour ∷ half_hour ∷ []

sent : (turns 0 schedule fresh).queries ≡ 9002000 ∷ 5401000 ∷ 1800000 ∷ []
unfolding turns maybe_refresh_snmp_metadata take_answer has_usable_metadata set_device_metadata
sent = refl

turns-IsSpaced_example : IsSpaced (turns 0 schedule fresh).queries
turns-IsSpaced_example =
    turns-IsSpaced 0 schedule fresh refl (tt, (tt, (tt, (refl, (refl, (tt, (tt, tt)))))))

abbrev with_frequency : Enrichment
with_frequency = record fresh {
  snmp_availability = snmp_available;
  snmp_probe_detection = ("frequency_oid", some "1.3") ∷ [];
}

abbrev read : Detection → Option Data
read detection = some (("snmp_input_frequency", some (int (pos 50))) ∷ [])

abbrev polled : Data
polled = ("output_frequency", some (int (pos 60))) ∷ []

read_foreign :
    BringsForeign
      (probe_answer read with_frequency (merge_device_metadata [] with_frequency polled))
unfolding effective_detection merge_device_metadata lookup insert
read_foreign = ((refl, refl), tt)

enrich-input_frequency_example :
    get "input_frequency" (enrich [] smt_ups 0 read none with_frequency polled).0
    ≡ or_else (get "input_frequency" polled) (
        or_else
          (answer_frequency
            (probe_answer read with_frequency (merge_device_metadata [] with_frequency polled)))
          (if is_same smt_ups smt_ups then get "output_frequency" polled else none))
enrich-input_frequency_example =
    enrich-input_frequency [] smt_ups 0 read none with_frequency polled read_foreign tt tt
