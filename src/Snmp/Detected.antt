-- ===== src/Snmp/Detected.antt =====
-- A read of the OIDs that a detection found, against the same agent: every probe that was found
-- gives a value, and no other probe does.
use apc_modbus_snmp_ha.Prelude.{
  String, ◌≡◌, refl, sym, ap, ◌∙◌, true, Option, none, some, List, [], ◌∷◌, All, All-map2, str_eq,
  eq_iff, arith, inl, inr, Bool-cases, Option-cases, if◌then◌else◌,
}
use apc_modbus_snmp_ha.Prelude.Dict.{
  Dict, lookup, insert, lookup-insert, HasUniqueKeys, insert-HasUniqueKeys,
}
use apc_modbus_snmp_ha.Coordinator.Enrichment.{Detection}
use apc_modbus_snmp_ha.Coordinator.Enrichment.Merging.{is_truthy_oid}
use apc_modbus_snmp_ha.Snmp.{
  Agent, ValueMap, gathered, fetch_snmp_value_map, get_value, select_first_usable,
}
use apc_modbus_snmp_ha.Snmp.Numbers.{Float}
use apc_modbus_snmp_ha.Snmp.Fetching.{asked, get_value-fetch}
use apc_modbus_snmp_ha.Snmp.Probes.{
  candidates_of, temp_base, humidity_base, frequency_candidates, Readings, candidates_by_key,
  all_candidates, detect_loop, async_detect_external_probe_oids, get_oid, add_oid, detected_oids,
  parse_for, parse_values, oids_of, async_get_external_probe_data_detected,
}

-- No candidate has a value that the key's parser takes.
abbrev pub NoneParses : Agent → String → List String → Type 0
NoneParses agent key candidates =
    All (λ oid. parse_for key (gathered (agent oid)) ≡ none) candidates

-- What the read has under a key, by the OID that was found for it
abbrev pub IsRead : Agent → String → List String → Option String → Option (Option Float) → Type 0
IsRead agent key candidates none reading = (reading ≡ none) × NoneParses agent key candidates
IsRead agent key candidates (some oid) reading =
    (x : Float) × (reading ≡ some (some x))
    × (parse_for key (gathered (agent oid)) ≡ some x)
    × (asked oid candidates ≡ true)

-- The keys of a probe in the readings and in the detection, and its candidates
abbrev pub probe_keys : List (String × String × List String)
probe_keys =
    ("snmp_input_frequency", "frequency_oid", frequency_candidates)
    ∷ ("snmp_external_temp_1", "temp_1_oid", candidates_of temp_base ".1.1" ".1")
    ∷ ("snmp_external_humidity_1", "humidity_1_oid", candidates_of humidity_base ".1.1" ".1")
    ∷ ("snmp_external_temp_2", "temp_2_oid", candidates_of temp_base ".2.1" ".2")
    ∷ ("snmp_external_humidity_2", "humidity_2_oid", candidates_of humidity_base ".2.1" ".2")
    ∷ []

abbrev parsed_at : String → Option String → ValueMap → Option (Option Float) → Option (Option Float)
parsed_at key none map before = before
parsed_at key (some oid) map before = some (parse_for key (get_value oid map))

parse_values-lookup :
    (key : String) (oids : Dict String) (map : ValueMap) (parsed : Readings)
    → HasUniqueKeys oids
    → lookup key (parse_values oids map parsed)
      ≡ parsed_at key (lookup key oids) map (lookup key parsed)
unfolding parse_values lookup
parse_values-lookup key [] map parsed h = refl
parse_values-lookup key ((k, oid) ∷ oids) map parsed h =
    let p' = insert k (parse_for k (get_value oid map)) parsed in
    elim (Bool-cases (str_eq k key)) [
      | inl e ↦ ground (
        arith,
        parse_values-lookup key oids map p' h.1,
        lookup-insert k key (parse_for k (get_value oid map)) parsed,
        ap (λ t. lookup t oids) ((eq_iff k key).0 e),
        (eq_iff k key).0 e,
      )
      | inr e ↦ ground (
        arith,
        parse_values-lookup key oids map p' h.1,
        lookup-insert k key (parse_for k (get_value oid map)) parsed,
      )
    ]

lookup-asked :
    (key : String) (oids : Dict String) (oid : String)
    → lookup key oids ≡ some oid
    → asked oid (oids_of oids) ≡ true
unfolding lookup oids_of
lookup-asked key [] oid h = cc
lookup-asked key ((k, o) ∷ oids) oid h = ground (arith, lookup-asked key oids oid, eq_iff oid o)

-- A read of OIDs that have a key each
read-lookup :
    (agent : Agent) (oids : Dict String) (key : String)
    → HasUniqueKeys oids
    → lookup key (parse_values oids (fetch_snmp_value_map agent (oids_of oids)) [])
      ≡ elim (lookup key oids) [
        | none ↦ none
        | some oid ↦ some (parse_for key (gathered (agent oid)))
      ]
unfolding lookup
read-lookup agent oids key h = elim (Option-cases (lookup key oids)) [
  | inl e ↦
      ground (arith, parse_values-lookup key oids (fetch_snmp_value_map agent (oids_of oids)) [] h)
  | inr (oid, e) ↦ ground (
    arith,
    parse_values-lookup key oids (fetch_snmp_value_map agent (oids_of oids)) [] h,
    get_value-fetch agent (oids_of oids) oid (lookup-asked key oids oid e),
  )
]

-- What a detection says of an OID: it is no empty text but one of the candidates, and its value is
-- one that the key's parser takes.
abbrev IsUsable : Agent → String → List String → Option String → Type 0
IsUsable agent key candidates none = NoneParses agent key candidates
IsUsable agent key candidates (some oid) =
    (is_truthy_oid (some oid) ≡ true)
    × (asked oid candidates ≡ true)
    × (x : Float) × (parse_for key (gathered (agent oid)) ≡ some x)

-- A probe of two candidates that are among the OIDs of the request
select-IsUsable :
    (agent : Agent) (all : List String) (key a b : String)
    → asked a all ≡ true
    → asked b all ≡ true
    → is_truthy_oid (some a) ≡ true
    → is_truthy_oid (some b) ≡ true
    → IsUsable agent key
        (a ∷ b ∷ [])
        (select_first_usable (a ∷ b ∷ []) (fetch_snmp_value_map agent all) (parse_for key))
unfolding select_first_usable
select-IsUsable agent all key a b in_a in_b ta tb =
    let map = fetch_snmp_value_map agent all in
    let at_a : parse_for key (gathered (agent a)) ≡ parse_for key (get_value a map) =
      ap (parse_for key) (sym (get_value-fetch agent all a in_a)) in
    let at_b : parse_for key (gathered (agent b)) ≡ parse_for key (get_value b map) =
      ap (parse_for key) (sym (get_value-fetch agent all b in_b)) in
    elim (Option-cases (parse_for key (get_value a map))) [
      | inr (x, e) ↦ rw (e, select_first_usable) (ta, ground (arith, eq_iff a a), x, at_a ∙ e)
      | inl e ↦ elim (Option-cases (parse_for key (get_value b map))) [
        | inr (y, f) ↦ rw (e, f, select_first_usable) (tb, ground (arith, eq_iff b b), y, at_b ∙ f)
        | inl f ↦ rw (e, f, select_first_usable) (at_a ∙ e, (at_b ∙ f, tt))
      ]
    ]

abbrev kept : Option String → Option String
kept none = none
kept (some oid) = if is_truthy_oid (some oid) then some oid else none

-- The first of two, where it is there
or_else : Option String → Option String → Option String
or_else none other = other
or_else (some oid) other = some oid

or_else-none : (o : Option String) → or_else o none ≡ o
unfolding or_else
or_else-none none = refl
or_else-none (some oid) = refl

lookup-add_oid :
    (key j : String) (o : Option String) (oids : Dict String)
    → lookup j (add_oid key o oids)
      ≡ (if str_eq key j then or_else (kept o) (lookup j oids) else lookup j oids)
unfolding or_else
lookup-add_oid key j none oids = ground arith
lookup-add_oid key j (some oid) oids = ground (arith, lookup-insert key j oid oids)

add_oid-HasUniqueKeys :
    (key : String) (o : Option String) (oids : Dict String)
    → HasUniqueKeys oids
    → HasUniqueKeys (add_oid key o oids)
add_oid-HasUniqueKeys key none oids h = h
add_oid-HasUniqueKeys key (some oid) oids h = elim (Bool-cases (is_truthy_oid (some oid))) [
  | inl e ↦ rw e (insert-HasUniqueKeys key oid oids h)
  | inr e ↦ rw e h
]

detected_oids-HasUniqueKeys : (detection : Detection) → HasUniqueKeys (detected_oids detection)
unfolding detected_oids
detected_oids-HasUniqueKeys detection = search (add_oid-HasUniqueKeys, tt) depth 8

-- Every key has the OID of its probe.
detected_oids-lookup :
    (detection : Detection)
    → All
        (λ probe. lookup probe.0 (detected_oids detection) ≡ kept (get_oid probe.1 detection))
        probe_keys
unfolding detected_oids lookup
detected_oids-lookup detection = (
  simp (lookup-add_oid, or_else-none),
  (
    simp (lookup-add_oid, or_else-none),
    (
      simp (lookup-add_oid, or_else-none),
      (simp (lookup-add_oid, or_else-none), (simp (lookup-add_oid, or_else-none), tt)),
    ),
  ),
)

-- What a detection says of every probe
async_detect_external_probe_oids-IsUsable :
    (agent : Agent)
    → All
        (λ probe.
          IsUsable agent probe.0 probe.2 (get_oid probe.1 (async_detect_external_probe_oids agent)))
        probe_keys
unfolding async_detect_external_probe_oids detect_loop lookup insert all_candidates parse_for
async_detect_external_probe_oids-IsUsable agent =
    let found =
      λ (key a b : String). select-IsUsable agent (all_candidates candidates_by_key) key a b in
    (
      found "snmp_input_frequency" _ _ refl refl refl refl,
      (
        found "snmp_external_temp_1" _ _ refl refl refl refl,
        (
          found "snmp_external_humidity_1" _ _ refl refl refl refl,
          (
            found "snmp_external_temp_2" _ _ refl refl refl refl,
            (found "snmp_external_humidity_2" _ _ refl refl refl refl, tt),
          ),
        ),
      ),
    )

IsRead-IsUsable :
    (agent : Agent) (detection : Detection) (probe : String × String × List String)
    → lookup probe.0 (detected_oids detection) ≡ kept (get_oid probe.1 detection)
    → (o : Option String) → get_oid probe.1 detection ≡ o
    → IsUsable agent probe.0 probe.2 o
    → IsRead agent probe.0 probe.2 o
        (lookup probe.0 (async_get_external_probe_data_detected agent detection))
unfolding async_get_external_probe_data_detected
IsRead-IsUsable agent detection probe e none g u =
    let r =
      read-lookup agent (detected_oids detection) probe.0 (detected_oids-HasUniqueKeys detection) in
    (ground (arith, r, e, g), u)
IsRead-IsUsable agent detection probe e (some oid) g u =
    let r =
      read-lookup agent (detected_oids detection) probe.0 (detected_oids-HasUniqueKeys detection) in
    (u.2, ground (arith, r, e, g, u.0, u.3), u.3, u.1)

-- For an agent that answers the detection and the read in the same way, each of the five probes
-- has under its key a value exactly if the detection found an OID for it: that OID is one of the
-- probe's candidates, and the value is what the key's parser takes from the OID's own value. Where
-- the detection found none, the read has nothing under the key, and no candidate's value parses.
pub async_get_external_probe_data_detected-IsRead :
    (agent : Agent)
    → All
        (λ probe.
          IsRead agent probe.0 probe.2 (get_oid probe.1 (async_detect_external_probe_oids agent)) (
            lookup probe.0 (
              async_get_external_probe_data_detected agent
                (async_detect_external_probe_oids agent))))
        probe_keys
async_get_external_probe_data_detected-IsRead agent =
    let d = async_detect_external_probe_oids agent in
    All-map2 _ _ _ (λ probe e u. IsRead-IsUsable agent d probe e _ refl u) probe_keys
      (detected_oids-lookup d) (async_detect_external_probe_oids-IsUsable agent)
