-- ===== src/Diagnostics/SnmpData.antt =====
-- What a diagnostic dump collects over SNMP (custom_components/apc_modbus/diagnostic_collector.py): its
-- identifiers, the input frequency, and the tests of the external probes. The texts of the
-- exceptions are not modelled.
pub mod Frequency
mod Tests
use apc_modbus_snmp_ha.Prelude.{
  ℕ, String, Bool, true, false, Option, none, some, List, [], ◌∷◌, length, if◌then◌else◌,
}
use apc_modbus_snmp_ha.Prelude.Dict.{Dict, lookup, insert}
use apc_modbus_snmp_ha.Decode.{strip}
use apc_modbus_snmp_ha.Modbus.{
  ExceptionKind, os_error, timeout_error, runtime_error, value_error, Raised, Outcome, returned,
  raised,
}
use apc_modbus_snmp_ha.Coordinator.Enrichment.{Text, Detection}
use apc_modbus_snmp_ha.Snmp.{Agent, async_get_snmp_value}
use apc_modbus_snmp_ha.Snmp.Numbers.{Float, float_of, frequency}
use apc_modbus_snmp_ha.Snmp.Probes.{Readings}

-- SNMP_OIDS
abbrev pub snmp_oids : Dict String
snmp_oids =
    ("sysName", "1.3.6.1.2.1.1.5.0")
    ∷ ("sysDescr", "1.3.6.1.2.1.1.1.0")
    ∷ ("apc_model_smartups", "1.3.6.1.4.1.318.1.1.1.1.1.1.0")
    ∷ ("apc_model_rackpdu", "1.3.6.1.4.1.318.1.1.12.1.5.0")
    ∷ ("apc_fw_smartups", "1.3.6.1.4.1.318.1.1.1.1.2.1.0")
    ∷ ("apc_fw_rackpdu", "1.3.6.1.4.1.318.1.1.12.1.3.0")
    ∷ ("apc_fw_date_smartups", "1.3.6.1.4.1.318.1.1.1.1.2.2.0")
    ∷ ("apc_fw_date_rackpdu", "1.3.6.1.4.1.318.1.1.12.1.4.0")
    ∷ ("apc_input_frequency", "1.3.6.1.4.1.318.1.1.1.3.2.4.0")
    ∷ ("upsmib_input_frequency_line1", "1.3.6.1.2.1.33.1.3.3.1.2.1")
    ∷ []

-- An identifier's "value", or the code of its "error"
pub data Collected : Type 0 where
  snmp_exception : Raised → Collected
  snmp_missing : Collected
  snmp_value : Text → Collected

abbrev pub collected_of : Outcome (Option Text) → Collected
collected_of (raised e) = snmp_exception e
collected_of (returned none) = snmp_missing
collected_of (returned (some value)) = snmp_value value

-- `_collect_snmp_data`: by its name, an identifier and what it gives
unfoldable pub collect_loop : Agent → Dict String → Dict (String × Collected)
collect_loop agent [] = []
collect_loop agent ((name, oid) ∷ oids) =
    (name, (oid, collected_of (async_get_snmp_value (agent oid)))) ∷ collect_loop agent oids

unfoldable pub collect_snmp_data : Agent → Dict (String × Collected)
collect_snmp_data agent = collect_loop agent snmp_oids

-- `_parse_snmp_frequency_hz`
unfoldable pub parse_snmp_frequency_hz : Text → Option Float
parse_snmp_frequency_hz value = elim (float_of (strip value)) [
  | none ↦ none
  | some raw ↦ frequency raw
]

-- What one source gives, and the first of the sources that gives something
abbrev pub source_frequency : Option (String × Collected) → Option Float
source_frequency (some (oid, snmp_value value)) = parse_snmp_frequency_hz value
source_frequency _ = none

unfoldable pub first_frequency : List String → Dict (String × Collected) → Option (Float × String)
first_frequency [] snmp_data = none
first_frequency (source_key ∷ keys) snmp_data =
    elim (source_frequency (lookup source_key snmp_data)) [
      | none ↦ first_frequency keys snmp_data
      | some parsed_hz ↦ some (parsed_hz, source_key)
    ]

-- `_decode_snmp_input_frequency`: "input_frequency_hz" and "input_frequency_source"
unfoldable pub decode_snmp_input_frequency : Dict (String × Collected) → Option (Float × String)
decode_snmp_input_frequency snmp_data =
    first_frequency ("apc_input_frequency" ∷ "upsmib_input_frequency_line1" ∷ []) snmp_data

-- The exceptions that the tests of the probes handle
abbrev is_test_failure : ExceptionKind → Bool
is_test_failure os_error = true
is_test_failure timeout_error = true
is_test_failure runtime_error = true
is_test_failure value_error = true
is_test_failure _ = false

-- "ok" with what was found, or the code of the "error"
pub data Tested (A : Type 0) : Type 0 where
  passed : A → Tested A
  failed : String → ExceptionKind → Tested A

abbrev tested : {A : Type 0} → String → Outcome A → Outcome (Tested A)
tested code (returned a) = returned (passed a)
tested code (raised e) = if is_test_failure e.kind then returned (failed code e.kind) else raised e

pub record ProbeTests : Type 0 where
  pub detect : Tested Detection
  pub read_detected : Option (Tested (ℕ × Readings))

abbrev counted : Outcome Readings → Outcome (ℕ × Readings)
counted (returned values) = returned (length values, values)
counted (raised e) = raised e

abbrev read_test : Detection → Outcome (Tested (ℕ × Readings)) → Outcome ProbeTests
read_test detection (raised e) = raised e
read_test detection (returned read) =
    returned (record { detect = passed detection; read_detected = some read })

abbrev detect_test :
    (Detection → Outcome Readings) → Outcome (Tested Detection) → Outcome ProbeTests
detect_test read (raised e) = raised e
detect_test read (returned (failed code kind)) =
    returned (record { detect = failed code kind; read_detected = none })
detect_test read (returned (passed detection)) =
    read_test detection (tested "snmp_external_probe_read_failed" (counted (read detection)))

-- `_collect_external_probe_tests`, for what the two synchronous calls yield
unfoldable pub collect_external_probe_tests :
    Outcome Detection → (Detection → Outcome Readings) → Outcome ProbeTests
collect_external_probe_tests detection read =
    detect_test read (tested "snmp_external_probe_detection_failed" detection)
