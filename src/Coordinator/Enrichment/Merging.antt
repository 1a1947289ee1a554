-- ===== src/Coordinator/Enrichment/Merging.antt =====
-- The merging of metadata and SNMP values into the data of a refresh
-- (custom_components/apc_modbus/coordinator.py). A value of None is `none` under its key. The
-- answers of the SNMP reads are arguments, none where the read raises.
use apc_modbus_snmp_ha.Prelude.{
  ℕ, ◌-◌, String, Bool, false, not, ◌&&◌, ◌||◌, Option, none, some, [], ◌∷◌, any, ltb,
  if◌then◌else◌, is_some, str_eq,
}
use apc_modbus_snmp_ha.Prelude.Dict.{Dict, lookup, insert}
use apc_modbus_snmp_ha.Decode.{Value, text}
use apc_modbus_snmp_ha.Device.{ApcDeviceType, smart_ups, smt_ups, is_same}
use apc_modbus_snmp_ha.Coordinator.Enrichment.{
  Text, Detection, Enrichment, is_available, self_test_refresh_interval,
}

abbrev pub Data : Type 0
Data = Dict (Option Value)

-- `data.get(key)`
abbrev pub get : String → Data → Option Value
get key d = elim (lookup key d) [ none ↦ none | some v ↦ v ]

-- `data.setdefault(key, value)`
abbrev pub set_default : String → Option Value → Data → Data
set_default key value d = if is_some (lookup key d) then d else insert key value d

-- `data.update(values)`
abbrev pub update_with : Data → Data → Data
update_with [] d = d
update_with ((key, value) ∷ rest) d = update_with rest (insert key value d)

-- `if value: data[key] = value`, and with a default under a second key
abbrev pub set_truthy : String → Option Text → Data → Data
set_truthy key (some (c ∷ cs)) d = insert key (some (text (c ∷ cs))) d
set_truthy key _ d = d

abbrev pub default_truthy : String → Option Text → Data → Data
default_truthy key (some (c ∷ cs)) d = set_default key (some (text (c ∷ cs))) d
default_truthy key _ d = d

-- `_merge_device_metadata`, for the coordinator's host
unfoldable pub merge_device_metadata : Text → Enrichment → Data → Data
merge_device_metadata host e d =
    let named =
      set_default "host" (some (text host))
        (set_default "manufacturer" (some (text (65 ∷ 80 ∷ 67 ∷ []))) d) in
    let modelled =
      set_truthy "serial_number" e.serial_number (set_truthy "model" e.hw_model named) in
    let firmware =
      default_truthy "firmware" e.fw_version
        (set_truthy "firmware_version" e.fw_version modelled) in
    default_truthy "hw_version" e.fw_date (set_truthy "firmware_date" e.fw_date firmware)

abbrev pub is_truthy_oid : Option String → Bool
is_truthy_oid none = false
is_truthy_oid (some oid) = not (str_eq oid "")

-- The detection with which SNMP is read: without the frequency where the data has one.
unfoldable pub effective_detection : Detection → Data → Detection
effective_detection detection d =
    if is_some (get "input_frequency" d) then insert "frequency_oid" none detection else detection

-- One value of the read: a frequency fills a gap, and any other value is taken.
abbrev pub merge_value : String → Option Value → Data → Data
merge_value key none d = d
merge_value key (some value) d =
    if str_eq key "snmp_input_frequency"
    then (if is_some (get "input_frequency" d) then d else insert "input_frequency" (some value) d)
    else insert key (some value) d

unfoldable pub merge_values : Data → Data → Data
merge_values [] d = d
merge_values ((key, value) ∷ rest) d = merge_values rest (merge_value key value d)

-- `_merge_snmp_external_probe_data`; the read is a function of the detection that it is given.
unfoldable pub merge_snmp_external_probe_data : (Detection → Option Data) → Enrichment → Data → Data
merge_snmp_external_probe_data read e d =
    let detection = effective_detection e.snmp_probe_detection d in
    if not (is_available e.snmp_availability)
    then d
    else if not (any (λ entry. is_truthy_oid entry.1) detection)
    then d
    else elim (read detection) [ none ↦ d | some values ↦ merge_values values d ]

abbrev pub has_self_test : ApcDeviceType → Bool
has_self_test device_type = is_same device_type smart_ups || is_same device_type smt_ups

-- `_merge_snmp_self_test_data` at the time `now`
unfoldable pub merge_snmp_self_test_data :
    ℕ → ApcDeviceType → Option Data → Enrichment → Data → Data × Enrichment
merge_snmp_self_test_data now device_type answer e d =
    if not (is_available e.snmp_availability) || not (has_self_test device_type)
    then (d, e)
    else if ltb (now - e.self_test_last_refresh_monotonic) self_test_refresh_interval
    then (update_with e.snmp_self_test_data d, e)
    else elim answer [
      | none ↦ (update_with e.snmp_self_test_data d, e)
      | some values ↦ (
        update_with values d,
        record e { snmp_self_test_data = values; self_test_last_refresh_monotonic = now },
      )
    ]

-- `_apply_device_compat_aliases`
unfoldable pub apply_device_compat_aliases : ApcDeviceType → Data → Data
apply_device_compat_aliases device_type d =
    if is_same device_type smt_ups
      && not (is_some (get "input_frequency" d))
      && is_some (get "output_frequency" d)
    then insert "input_frequency" (get "output_frequency" d) d
    else d

-- The steps of `_async_update_data` between the metadata refresh and the energy tracker
unfoldable pub enrich :
    Text
    → ApcDeviceType
    → ℕ
    → (Detection → Option Data)
    → Option Data
    → Enrichment
    → Data
    → Data × Enrichment
enrich host device_type now read self_test e d =
    let probed = merge_snmp_external_probe_data read e (merge_device_metadata host e d) in
    let (tested, e') = merge_snmp_self_test_data now device_type self_test e probed in
    (apply_device_compat_aliases device_type tested, e')
