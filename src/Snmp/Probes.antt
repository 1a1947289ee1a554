-- ===== src/Snmp/Probes.antt =====
-- The external probes of custom_components/apc_modbus/snmp_helper.py: the detection of the OIDs
-- that answer, the read of the detected OIDs, and the read without a detection.
use Prim.Native.String.{◌++◌ as append}
use mathlib.Core.Option
use text.Mathlib.Text.{starts_with}
use apc_modbus_snmp_ha.Prelude.{
  String, Option, none, some, List, [], ◌∷◌, ◌++◌, str_eq, if◌then◌else◌,
}
use apc_modbus_snmp_ha.Prelude.Dict.{Dict, lookup, insert}
use apc_modbus_snmp_ha.Coordinator.Enrichment.{Text, Detection}
use apc_modbus_snmp_ha.Coordinator.Enrichment.Merging.{is_truthy_oid}
use apc_modbus_snmp_ha.Snmp.{
  Agent, ValueMap, fetch_snmp_value_map, get_value, select_first_present, select_first_usable,
}
use apc_modbus_snmp_ha.Snmp.Numbers.{
  Float, finite, parse_external_temp_c, parse_external_humidity_pct, parse_frequency_hz,
}

-- UIO_SENSOR_STATUS_TEMP_C_BASE and the other OIDs
abbrev pub temp_base : String
temp_base = "1.3.6.1.4.1.318.1.1.25.1.2.1.6"

abbrev pub humidity_base : String
humidity_base = "1.3.6.1.4.1.318.1.1.25.1.2.1.7"

abbrev smart_ups_input_frequency : String
smart_ups_input_frequency = "1.3.6.1.4.1.318.1.1.1.3.2.4.0"

abbrev ups_mib_input_frequency : String
ups_mib_input_frequency = "1.3.6.1.2.1.33.1.3.3.1.2.1"

abbrev pub candidates_of : String → String → String → List String
candidates_of base deep shallow = append base deep ∷ append base shallow ∷ []

abbrev pub frequency_candidates : List String
frequency_candidates = smart_ups_input_frequency ∷ ups_mib_input_frequency ∷ []

abbrev pub Parser : Type 0
Parser = Option Text → Option Float

abbrev pub temperature : Parser
temperature value = Option.map finite (parse_external_temp_c value)

abbrev pub humidity : Parser
humidity value = Option.map finite (parse_external_humidity_pct value)

-- An entry of `candidates_by_key`
pub record Probe : Type 0 where
  pub detection_key : String
  pub candidates : List String
  pub parser : Parser

abbrev pub candidates_by_key : List Probe
candidates_by_key =
    record {
      detection_key = "temp_1_oid";
      candidates = candidates_of temp_base ".1.1" ".1";
      parser = temperature;
    }
    ∷ record {
      detection_key = "humidity_1_oid";
      candidates = candidates_of humidity_base ".1.1" ".1";
      parser = humidity;
    }
    ∷ record {
      detection_key = "temp_2_oid";
      candidates = candidates_of temp_base ".2.1" ".2";
      parser = temperature;
    }
    ∷ record {
      detection_key = "humidity_2_oid";
      candidates = candidates_of humidity_base ".2.1" ".2";
      parser = humidity;
    }
    ∷ record {
      detection_key = "frequency_oid";
      candidates = frequency_candidates;
      parser = parse_frequency_hz;
    }
    ∷ []

unfoldable pub all_candidates : List Probe → List String
all_candidates [] = []
all_candidates (probe ∷ probes) = probe.candidates ++ all_candidates probes

unfoldable pub detect_loop : List Probe → ValueMap → Detection → Detection
detect_loop [] map detection = detection
detect_loop (probe ∷ probes) map detection =
    detect_loop probes map
      (insert probe.detection_key (select_first_usable probe.candidates map probe.parser) detection)

-- `async_detect_external_probe_oids`
unfoldable pub async_detect_external_probe_oids : Agent → Detection
async_detect_external_probe_oids agent =
    detect_loop candidates_by_key (fetch_snmp_value_map agent (all_candidates candidates_by_key)) []

-- `detection.get(key)`
abbrev pub get_oid : String → Detection → Option String
get_oid key detection = elim (lookup key detection) [ none ↦ none | some oid ↦ oid ]

-- `if isinstance(oid, str) and oid: oids[key] = oid`
abbrev pub add_oid : String → Option String → Dict String → Dict String
add_oid key none oids = oids
add_oid key (some oid) oids = if is_truthy_oid (some oid) then insert key oid oids else oids

unfoldable pub detected_oids : Detection → Dict String
detected_oids detection = add_oid "snmp_external_humidity_2" (get_oid "humidity_2_oid" detection) (
    add_oid "snmp_external_temp_2" (get_oid "temp_2_oid" detection) (
      add_oid "snmp_external_humidity_1" (get_oid "humidity_1_oid" detection) (
        add_oid "snmp_external_temp_1" (get_oid "temp_1_oid" detection)
          (add_oid "snmp_input_frequency" (get_oid "frequency_oid" detection) []))))

-- The parser of a key
unfoldable pub parse_for : String → Parser
parse_for key value =
    if str_eq key "snmp_input_frequency"
    then parse_frequency_hz value
    else if starts_with key "snmp_external_temp"
    then temperature value
    else humidity value

abbrev pub Readings : Type 0
Readings = Dict (Option Float)

unfoldable pub parse_values : Dict String → ValueMap → Readings → Readings
parse_values [] map parsed = parsed
parse_values ((key, oid) ∷ oids) map parsed =
    parse_values oids map (insert key (parse_for key (get_value oid map)) parsed)

unfoldable pub oids_of : Dict String → List String
oids_of [] = []
oids_of ((key, oid) ∷ oids) = oid ∷ oids_of oids

-- `async_get_external_probe_data_detected`: no OIDs give an empty map, and no reading.
unfoldable pub async_get_external_probe_data_detected : Agent → Detection → Readings
async_get_external_probe_data_detected agent detection =
    let oids = detected_oids detection in
    parse_values oids (fetch_snmp_value_map agent (oids_of oids)) []

-- `oid_candidates` of `async_get_external_probe_data`
abbrev pub oid_candidates : Dict (List String)
oid_candidates =
    ("snmp_external_temp_1", candidates_of temp_base ".1.1" ".1")
    ∷ ("snmp_external_humidity_1", candidates_of humidity_base ".1.1" ".1")
    ∷ ("snmp_external_temp_2", candidates_of temp_base ".2.1" ".2")
    ∷ ("snmp_external_humidity_2", candidates_of humidity_base ".2.1" ".2")
    ∷ ("snmp_input_frequency", frequency_candidates)
    ∷ []

unfoldable pub joined_candidates : Dict (List String) → List String
joined_candidates [] = []
joined_candidates ((key, oids) ∷ rest) = oids ++ joined_candidates rest

-- `value_map.get(selected_oid) if selected_oid else None`
abbrev pub selected_value : Option String → ValueMap → Option Text
selected_value none map = none
selected_value (some oid) map = if is_truthy_oid (some oid) then get_value oid map else none

unfoldable pub parse_candidates : Dict (List String) → ValueMap → Readings → Readings
parse_candidates [] map parsed = parsed
parse_candidates ((key, oids) ∷ rest) map parsed =
    parse_candidates rest map
      (insert key (parse_for key (selected_value (select_first_present oids map) map)) parsed)

-- `async_get_external_probe_data`
unfoldable pub async_get_external_probe_data : Agent → Readings
async_get_external_probe_data agent =
    parse_candidates oid_candidates (fetch_snmp_value_map agent (joined_candidates oid_candidates))
      []
