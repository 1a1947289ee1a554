-- ===== src/Entities/Availability.antt =====
-- Which sensors are enabled by default (custom_components/apc_modbus/sensor_availability_unified.py),
-- and which external probes have a sensor (external_probe_entities.py).
use apc_modbus_snmp_ha.Prelude.{
  String, Bool, true, false, not, ◌&&◌, ◌||◌, Option, none, some, List, [], ◌∷◌, any, leb, ◌==◌,
  str_eq, is_some, if◌then◌else◌,
}
use apc_modbus_snmp_ha.Prelude.Dict.{lookup}
use apc_modbus_snmp_ha.Prelude.Texts.{codes, same_text, starts, contains}
use apc_modbus_snmp_ha.Coordinator.Enrichment.{Text, Detection, lower}
use apc_modbus_snmp_ha.Coordinator.Enrichment.Merging.{Data, is_truthy_oid}

abbrev pub ups_device_families : List String
ups_device_families = "smart_ups" ∷ "smt_ups" ∷ "smartconnect_ups" ∷ "ups" ∷ "unknown" ∷ []

abbrev pub is_ups_family : String → Bool
is_ups_family family = any (str_eq family) ups_device_families

-- RACK_PDU_DEVICE_FAMILIES
abbrev pub is_rack_pdu_family : String → Bool
is_rack_pdu_family family = str_eq family "rack_pdu"

abbrev pub standard_enabled_canonical_keys : List String
standard_enabled_canonical_keys =
    "runtime_remaining" ∷ "battery_state_of_charge" ∷ "input_voltage" ∷ "output_voltage"
    ∷ "output_load_percent" ∷ "output_frequency" ∷ "online_state" ∷ "on_battery_state"
    ∷ "on_bypass_state" ∷ "overload_state" ∷ []

abbrev pub rack_pdu_enabled_canonical_keys : List String
rack_pdu_enabled_canonical_keys =
    "device_real_power" ∷ "device_apparent_power" ∷ "device_power_factor" ∷ "device_energy"
    ∷ "phase_l1_current" ∷ "phase_l1_voltage" ∷ []

abbrev pub Patterns : Type 0
Patterns = List (List String × String)

abbrev pub sensor_canonical_patterns : Patterns
sensor_canonical_patterns =
    ("runtime" ∷ "seconds_on_battery" ∷ [], "runtime_remaining")
    ∷ ("state_of_charge" ∷ "battery_charge" ∷ "battery_capacity" ∷ [], "battery_state_of_charge")
    ∷ ("input_voltage" ∷ "utility_voltage" ∷ [], "input_voltage")
    ∷ ("output_voltage" ∷ "actual_output_voltage" ∷ "nominal_output_voltage" ∷ [], "output_voltage")
    ∷ ("output_load_percent" ∷ "load_percent" ∷ "output_load" ∷ [], "output_load_percent")
    ∷ ("output_frequency" ∷ [], "output_frequency")
    ∷ ("input_frequency" ∷ [], "output_frequency")
    ∷ []

abbrev pub binary_canonical_patterns : Patterns
binary_canonical_patterns =
    ("ups_online" ∷ "online" ∷ "ac_power" ∷ "mains" ∷ [], "online_state")
    ∷ ("ups_on_battery" ∷ "on_battery" ∷ [], "on_battery_state")
    ∷ ("ups_on_bypass" ∷ "on_bypass" ∷ "bypass" ∷ [], "on_bypass_state")
    ∷ ("ups_overload" ∷ "overload" ∷ [], "overload_state")
    ∷ []

abbrev pub rack_pdu_sensor_canonical_patterns : Patterns
rack_pdu_sensor_canonical_patterns =
    ("device_real_power" ∷ [], "device_real_power")
    ∷ ("device_apparent_power" ∷ [], "device_apparent_power")
    ∷ ("device_power_factor" ∷ [], "device_power_factor")
    ∷ ("device_energy" ∷ [], "device_energy")
    ∷ ("phase_l1_current" ∷ [], "phase_l1_current")
    ∷ ("phase_l1_voltage" ∷ [], "phase_l1_voltage")
    ∷ []

-- `\d*$`, where the end may stand before a last newline
abbrev digits_end : Text → Bool
digits_end [] = true
digits_end (c ∷ []) = (leb b'0' c && leb c b'9') || c == 10
digits_end (c ∷ d ∷ cs) = leb b'0' c && leb c b'9' && digits_end (d ∷ cs)

-- `[2-9]\d*$`
abbrev phase_number : Text → Bool
phase_number [] = false
phase_number (c ∷ cs) = leb b'2' c && leb c b'9' && digits_end cs

-- `(?:l|phase)([2-9]\d*)$` at the front of a text
abbrev phase_suffix : Text → Bool
phase_suffix (p ∷ h ∷ a ∷ s ∷ e ∷ cs) =
    (p == b'l' && phase_number (h ∷ a ∷ s ∷ e ∷ cs))
    || (same_text (p ∷ h ∷ a ∷ s ∷ e ∷ []) (codes "phase") && phase_number cs)
phase_suffix (l ∷ cs) = l == b'l' && phase_number cs
phase_suffix [] = false

-- The search of NON_PRIMARY_PHASE_SUFFIX_RE; the flag says that the text stands at the beginning or
-- behind an underscore.
unfoldable pub phase_search : Bool → Text → Bool
phase_search boundary [] = false
phase_search boundary (c ∷ cs) = (boundary && phase_suffix (c ∷ cs)) || phase_search (c == b'_') cs

-- `_is_non_primary_phase_metric`: the number that the search found starts with 2 to 9.
unfoldable pub is_non_primary_phase_metric : Text → Bool
is_non_primary_phase_metric local_key = phase_search true (lower local_key)

-- `_match_pattern_key`
unfoldable pub match_pattern : Text → Patterns → Option String
match_pattern key_lower [] = none
match_pattern key_lower ((fragments, canonical_key) ∷ rest) =
    let later = match_pattern key_lower rest in
    if any (λ fragment. contains (codes fragment) key_lower) fragments
    then some canonical_key
    else later

-- `canonical_key in keys`
abbrev is_among : Option String → List String → Bool
is_among none keys = false
is_among (some key) keys = any (str_eq key) keys

abbrev is_key : Text → String → Bool
is_key local_key key = same_text local_key (codes key)

abbrev is_self_test_key : Text → Bool
is_self_test_key local_key =
    starts (codes "snmp_self_test_") (lower local_key)
    || is_key local_key "snmp_last_self_test_date"
    || is_key local_key "snmp_runtime_calibration_status"

unfoldable pub is_sensor_enabled_by_default : Text → String → Bool
is_sensor_enabled_by_default local_key device_family =
    if is_key local_key "output_energy_rollover"
    then true
    else if is_key local_key "snmp_self_test_time" || is_key local_key "snmp_self_test_day"
    then false
    else if is_self_test_key local_key
    then is_ups_family device_family
    else if starts (codes "snmp_external_") (lower local_key)
    then true
    else if is_rack_pdu_family device_family
    then is_among (match_pattern (lower local_key) rack_pdu_sensor_canonical_patterns)
        rack_pdu_enabled_canonical_keys
    else if not (is_ups_family device_family)
    then true
    else if is_non_primary_phase_metric local_key
    then false
    else is_among (match_pattern (lower local_key) sensor_canonical_patterns)
        standard_enabled_canonical_keys

unfoldable pub is_binary_sensor_enabled_by_default : Text → String → Bool
is_binary_sensor_enabled_by_default local_key device_family =
    if is_rack_pdu_family device_family
    then false
    else if not (is_ups_family device_family)
    then true
    else is_among (match_pattern (lower local_key) binary_canonical_patterns)
        standard_enabled_canonical_keys

-- EXTERNAL_PROBE_KEY_TO_DETECTION_OID, whose keys are OPTIONAL_SNMP_EXTERNAL_KEYS
abbrev pub external_probe_keys : List (String × String)
external_probe_keys =
    ("snmp_external_temp_1", "temp_1_oid")
    ∷ ("snmp_external_humidity_1", "humidity_1_oid")
    ∷ ("snmp_external_temp_2", "temp_2_oid")
    ∷ ("snmp_external_humidity_2", "humidity_2_oid")
    ∷ []

-- `bool(detection.get(detection_key))`
abbrev has_oid : String → Detection → Bool
has_oid detection_key detection = elim (lookup detection_key detection) [
  | none ↦ false
  | some oid ↦ is_truthy_oid oid
]

-- `data.get(key) is not None`
abbrev has_value : String → Data → Bool
has_value key d = elim (lookup key d) [ none ↦ false | some v ↦ is_some v ]

abbrev is_probe_available : List (String × String) → Text → Data → Detection → Bool
is_probe_available [] key d detection = true
is_probe_available ((probe_key, detection_key) ∷ rest) key d detection =
    if is_key key probe_key
    then has_value probe_key d || has_oid detection_key detection
    else is_probe_available rest key d detection

unfoldable pub is_external_probe_entity_available : Text → Data → Detection → Bool
is_external_probe_entity_available key d detection =
    is_probe_available external_probe_keys key d detection

unfoldable pub filter_available_external_probe_keys : List Text → Data → Detection → List Text
filter_available_external_probe_keys [] d detection = []
filter_available_external_probe_keys (key ∷ keys) d detection =
    let rest = filter_available_external_probe_keys keys d detection in
    if is_external_probe_entity_available key d detection then key ∷ rest else rest
