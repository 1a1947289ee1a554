-- ===== src/Diagnostics/SnmpData/Frequency.antt =====
-- The input frequency of a dump against the one of a refresh.
use mathlib.Core.Option
use apc_modbus_snmp_ha.Prelude.{String, ◌≡◌, refl, sym, ap, subst, ◌∙◌, Option, none, some}
use apc_modbus_snmp_ha.Prelude.Dict.{lookup, insert}
use apc_modbus_snmp_ha.Coordinator.Enrichment.{Text}
use apc_modbus_snmp_ha.Modbus.{Outcome, returned, raised}
use apc_modbus_snmp_ha.Snmp.{
  Agent, async_get_snmp_value, gathered, fetch_snmp_value_map, get_value, select_first_usable,
  or_missing,
}
use apc_modbus_snmp_ha.Snmp.Numbers.{Float, parse_frequency_hz}
use apc_modbus_snmp_ha.Snmp.Fetching.{get_value-fetch}
use apc_modbus_snmp_ha.Snmp.Detected.{IsRead, async_get_external_probe_data_detected-IsRead}
use apc_modbus_snmp_ha.Snmp.Probes.{
  all_candidates, candidates_by_key, frequency_candidates, detect_loop,
  async_detect_external_probe_oids, get_oid, parse_for, async_get_external_probe_data_detected,
}
use apc_modbus_snmp_ha.Diagnostics.SnmpData.{
  snmp_oids, collected_of, source_frequency, collect_loop, collect_snmp_data,
  parse_snmp_frequency_hz, first_frequency, decode_snmp_input_frequency,
}

outcome_frequency :
    (oid : String) (o : Outcome (Option Text))
    → source_frequency (some (oid, collected_of o)) ≡ parse_frequency_hz (or_missing o)
unfolding parse_snmp_frequency_hz parse_frequency_hz
outcome_frequency oid (raised e) = refl
outcome_frequency oid (returned none) = refl
outcome_frequency oid (returned (some value)) = refl

frequency_at :
    (agent : Agent) (oid : String)
    → source_frequency (some (oid, collected_of (async_get_snmp_value (agent oid))))
      ≡ parse_frequency_hz (gathered (agent oid))
unfolding gathered
frequency_at agent oid = outcome_frequency oid (async_get_snmp_value (agent oid))

abbrev smart_ups_oid : String
smart_ups_oid = "1.3.6.1.4.1.318.1.1.1.3.2.4.0"

abbrev ups_mib_oid : String
ups_mib_oid = "1.3.6.1.2.1.33.1.3.3.1.2.1"

-- The first of two frequencies, with a name for each
abbrev first_of_two : Option Float → Option Float → String → String → Option (Float × String)
first_of_two (some x) y a b = some (x, a)
first_of_two none (some y) a b = some (y, b)
first_of_two none none a b = none

first_frequency-two :
    (x y : Option Float) (a b : String)
    → ◌≡◌ {A = Option (Float × String)}
        (elim x [ none ↦ elim y [ none ↦ none | some q ↦ some (q, b) ] | some p ↦ some (p, a) ])
        (first_of_two x y a b)
first_frequency-two (some x) y a b = refl
first_frequency-two none (some y) a b = refl
first_frequency-two none none a b = refl

select-two :
    (x y : Option Float) (a b : String)
    → ◌≡◌ {A = Option String}
        (elim x [ some _ ↦ some a | none ↦ elim y [ some _ ↦ some b | none ↦ none ] ])
        (Option.map (λ found. found.1) (first_of_two x y a b))
select-two (some x) y a b = refl
select-two none (some y) a b = refl
select-two none none a b = refl

-- The identifier of the source that a dump names
abbrev pub source_oid : Option (Float × String) → Option String
source_oid none = none
source_oid (some (hz, source_key)) = lookup source_key snmp_oids

source_of_two :
    (x y : Option Float)
    → Option.map (λ found. found.1) (first_of_two x y smart_ups_oid ups_mib_oid)
      ≡ source_oid (first_of_two x y "apc_input_frequency" "upsmib_input_frequency_line1")
unfolding lookup
source_of_two (some x) y = refl
source_of_two none (some y) = refl
source_of_two none none = refl

frequency_of_two :
    (x y : Option Float)
    → Option.map (λ found. some found.0) (first_of_two x y smart_ups_oid ups_mib_oid)
      ≡ Option.map
          (λ found. some found.0)
          (first_of_two x y "apc_input_frequency" "upsmib_input_frequency_line1")
frequency_of_two (some x) y = refl
frequency_of_two none (some y) = refl
frequency_of_two none none = refl

-- The frequencies of the two identifiers, of which a dump and a detection take the first
module _ (agent : Agent) where
  abbrev first : Option Float
  first = parse_frequency_hz (gathered (agent smart_ups_oid))

  abbrev second : Option Float
  second = parse_frequency_hz (gathered (agent ups_mib_oid))

  abbrev chosen : String → String → Option (Float × String)
  chosen = first_of_two first second

  decoded :
      decode_snmp_input_frequency (collect_snmp_data agent)
      ≡ chosen "apc_input_frequency" "upsmib_input_frequency_line1"
  unfolding decode_snmp_input_frequency first_frequency collect_snmp_data collect_loop lookup
  decoded =
      let names = λ (x y : Option Float).
        first_of_two x y "apc_input_frequency" "upsmib_input_frequency_line1" in
      first_frequency-two _ _ _ _
      ∙ ap
          (λ x. names x (
            source_frequency
              (some (ups_mib_oid, collected_of (async_get_snmp_value (agent ups_mib_oid))))))
          (frequency_at agent smart_ups_oid)
      ∙ ap (names first) (frequency_at agent ups_mib_oid)

  detected :
      get_oid "frequency_oid" (async_detect_external_probe_oids agent)
      ≡ Option.map (λ found. found.1) (chosen smart_ups_oid ups_mib_oid)
  unfolding async_detect_external_probe_oids detect_loop lookup insert select_first_usable
      all_candidates
  detected =
      let oids = all_candidates candidates_by_key in
      let names = λ (x y : Option Float).
        Option.map (λ (found : Float × String). found.1)
          (first_of_two x y smart_ups_oid ups_mib_oid) in
      select-two _ _ _ _
      ∙ ap
          (λ x.
            names (parse_frequency_hz x)
              (parse_frequency_hz (get_value ups_mib_oid (fetch_snmp_value_map agent oids))))
          (get_value-fetch agent oids smart_ups_oid refl)
      ∙ ap (λ y. names first (parse_frequency_hz y)) (get_value-fetch agent oids ups_mib_oid refl)

  reading_of_chosen :
      (x y : Option Float) (o : Option String) (reading : Option (Option Float))
      → first ≡ x
      → second ≡ y
      → o ≡ Option.map (λ found. found.1) (first_of_two x y smart_ups_oid ups_mib_oid)
      → IsRead agent "snmp_input_frequency" frequency_candidates o reading
      → reading ≡ Option.map (λ found. some found.0) (first_of_two x y smart_ups_oid ups_mib_oid)
  unfolding parse_for
  reading_of_chosen (some x) y o reading hx hy ho r =
      let (z, is_read, parsed, _) =
        subst (λ o. IsRead agent "snmp_input_frequency" frequency_candidates o reading) ho r in
      is_read ∙ ap some (sym parsed ∙ hx)
  reading_of_chosen none (some y) o reading hx hy ho r =
      let (z, is_read, parsed, _) =
        subst (λ o. IsRead agent "snmp_input_frequency" frequency_candidates o reading) ho r in
      is_read ∙ ap some (sym parsed ∙ hy)
  reading_of_chosen none none o reading hx hy ho r =
      (subst (λ o. IsRead agent "snmp_input_frequency" frequency_candidates o reading) ho r).0

  -- For an agent that answers alike each time: the input frequency that a dump shows is the one
  -- that a refresh reads from the identifier that the detection found, and there is one in the dump
  -- exactly if there is one in the refresh; and the source that the dump names is that identifier.
  pub decode_snmp_input_frequency-agrees :
      (lookup "snmp_input_frequency"
          (async_get_external_probe_data_detected agent (async_detect_external_probe_oids agent))
        ≡ Option.map
            (λ found. some found.0)
            (decode_snmp_input_frequency (collect_snmp_data agent)))
      × (get_oid "frequency_oid" (async_detect_external_probe_oids agent)
          ≡ source_oid (decode_snmp_input_frequency (collect_snmp_data agent)))
  decode_snmp_input_frequency-agrees = (
    reading_of_chosen first second _ _ refl refl detected
          (async_get_external_probe_data_detected-IsRead agent).0
        ∙ (frequency_of_two first second ∙ ap (Option.map (λ found. some found.0)) (sym decoded)),
    detected ∙ (source_of_two first second ∙ ap source_oid (sym decoded)),
  )
