-- ===== src/Entities/Registry.antt =====
-- The two passes over Home Assistant's entity registry: the reset of the monitors to their defaults
-- (custom_components/apc_modbus/entity_defaults.py) and the removal of stale entities
-- (custom_components/apc_modbus/__init__.py). The registry's entries of the config entry are a list.
pub mod Resets
pub mod Expected
pub mod Cleanup
use apc_modbus_snmp_ha.Prelude.{
  ℕ, ◌+◌, String, Bool, true, false, not, ◌&&◌, ◌||◌, Option, none, some, List, [], ◌∷◌, ◌++◌, any,
  map, if◌then◌else◌,
}
use apc_modbus_snmp_ha.Prelude.Dict.{Dict}
use apc_modbus_snmp_ha.Prelude.Texts.{codes, same_text, starts, after_prefix}
use apc_modbus_snmp_ha.Coordinator.Enrichment.{Text, Detection, Availability, is_available}
use apc_modbus_snmp_ha.Coordinator.Enrichment.Merging.{Data, has_self_test}
use apc_modbus_snmp_ha.Device.{
  ApcDeviceType, smt_ups, smartconnect_ups, is_same, is_concrete_device_type,
}
use apc_modbus_snmp_ha.Entities.Descriptions.{SensorDescription, BinaryDescription}
use apc_modbus_snmp_ha.Entities.Descriptions.Snmp.{
  snmp_external_sensor_descriptions, snmp_self_test_sensor_descriptions,
}
use apc_modbus_snmp_ha.Entities.Profiles.{get_sensor_descriptions, get_binary_sensor_descriptions}
use apc_modbus_snmp_ha.Entities.Availability.{
  is_sensor_enabled_by_default, is_binary_sensor_enabled_by_default,
  filter_available_external_probe_keys,
}
use apc_modbus_snmp_ha.Entities.Buttons.{write_entity_keys}

pub data Domain : Type 0 where
  sensor binary_sensor button switch date other_domain : Domain

-- RegistryEntryDisabler
pub data Disabler : Type 0 where
  integration user config_entry device hass : Disabler

pub record RegistryEntry : Type 0 where
  pub entity_id : Text
  pub domain : Domain
  pub unique_id : Option Text
  pub disabled_by : Option Disabler

-- f"{DOMAIN}_{entry_id}_"
abbrev pub id_prefix : Text → Text
id_prefix entry_id = codes "apc_modbus_" ++ (entry_id ++ codes "_")

-- `entity_entry.unique_id or ""`
abbrev pub id_of : Option Text → Text
id_of none = []
id_of (some unique_id) = unique_id

unfoldable pub is_write_key : Text → Bool
is_write_key local_key =
    any (λ key. same_text local_key (codes key)) write_entity_keys
    || starts (codes "write_") local_key

abbrev pub disable_writes : Text → Option Bool
disable_writes local_key = if is_write_key local_key then some false else none

-- Whether an entity of a local key is to be enabled; none where the loop continues.
unfoldable pub should_enable : Domain → Text → String → Option Bool
should_enable sensor local_key device_family =
    some (is_sensor_enabled_by_default local_key device_family)
should_enable binary_sensor local_key device_family =
    some (is_binary_sensor_enabled_by_default local_key device_family)
should_enable button local_key device_family = disable_writes local_key
should_enable switch local_key device_family = disable_writes local_key
should_enable date local_key device_family = disable_writes local_key
should_enable other_domain local_key device_family = none

unfoldable pub decide : Text → String → Option Text → Domain → Option Bool
decide entry_id device_family unique_id domain =
    elim (after_prefix (id_prefix entry_id) (id_of unique_id)) [
      | none ↦ none
      | some local_key ↦ should_enable domain local_key device_family
    ]

abbrev pub decision : Text → String → RegistryEntry → Option Bool
decision entry_id device_family e = decide entry_id device_family e.unique_id e.domain

abbrev pub target_disabled_by : Bool → Option Disabler
target_disabled_by true = none
target_disabled_by false = some integration

abbrev pub is_same_disabler : Option Disabler → Option Disabler → Bool
is_same_disabler none none = true
is_same_disabler (some integration) (some integration) = true
is_same_disabler (some user) (some user) = true
is_same_disabler (some config_entry) (some config_entry) = true
is_same_disabler (some device) (some device) = true
is_same_disabler (some hass) (some hass) = true
is_same_disabler _ _ = false

-- The counts of the entries that were enabled, disabled and left as they are, and the entries
pub record Reset : Type 0 where
  pub enabled_count : ℕ
  pub disabled_count : ℕ
  pub unchanged_count : ℕ
  pub entries : List RegistryEntry

abbrev keep_entry : RegistryEntry → Reset → Reset
keep_entry e r = record r { entries = e ∷ r.entries }

abbrev update_entry : Bool → RegistryEntry → Reset → Reset
update_entry enable e r =
    if is_same_disabler e.disabled_by (target_disabled_by enable)
    then record r { unchanged_count = r.unchanged_count + 1; entries = e ∷ r.entries }
    else (let e' = record e { disabled_by = target_disabled_by enable } in
        if enable
        then record r { enabled_count = r.enabled_count + 1; entries = e' ∷ r.entries }
        else record r { disabled_count = r.disabled_count + 1; entries = e' ∷ r.entries })

abbrev pub reset_entry : Option Bool → RegistryEntry → Reset → Reset
reset_entry none e r = keep_entry e r
reset_entry (some enable) e r = update_entry enable e r

-- `async_reset_entry_monitors_to_defaults`
unfoldable pub async_reset_entry_monitors_to_defaults : Text → String → List RegistryEntry → Reset
async_reset_entry_monitors_to_defaults entry_id device_family [] = record {
  enabled_count = 0;
  disabled_count = 0;
  unchanged_count = 0;
  entries = [];
}
async_reset_entry_monitors_to_defaults entry_id device_family (e ∷ es) =
    reset_entry (decision entry_id device_family e) e
      (async_reset_entry_monitors_to_defaults entry_id device_family es)

-- What the passes read of the coordinator
pub record Shown : Type 0 where
  pub device_type : ApcDeviceType
  pub device_capabilities : Dict ℕ
  pub snmp_availability : Availability
  pub probe_detection : Detection
  pub values : Data

abbrev pub sensor_keys : List SensorDescription → List Text
sensor_keys [] = []
sensor_keys (d ∷ ds) = d.key ∷ sensor_keys ds

abbrev pub binary_keys : List BinaryDescription → List Text
binary_keys [] = []
binary_keys (d ∷ ds) = d.key ∷ binary_keys ds

-- `sensor_keys` of the cleanup before the filter: a set of keys, updated by those of the self test
abbrev pub described_keys : Shown → List Text
described_keys c =
    let keys = sensor_keys (
      get_sensor_descriptions c.device_type c.device_capabilities
      ++ snmp_external_sensor_descriptions) in
    if is_available c.snmp_availability && has_self_test c.device_type
    then keys ++ sensor_keys snmp_self_test_sensor_descriptions
    else keys

abbrev pub date_keys : ApcDeviceType → List Text
date_keys device_type =
    if is_same device_type smt_ups || is_same device_type smartconnect_ups
    then codes "battery_installation_date" ∷ []
    else []

abbrev pub expected_keys : Shown → List Text
expected_keys c =
    filter_available_external_probe_keys (described_keys c) c.values c.probe_detection
    ++ (binary_keys (get_binary_sensor_descriptions c.device_type c.device_capabilities)
        ++ date_keys c.device_type)

-- `_get_expected_entity_unique_ids`
unfoldable pub get_expected_entity_unique_ids : Shown → Text → List Text
get_expected_entity_unique_ids c entry_id =
    if not (is_concrete_device_type (some c.device_type))
    then []
    else map (λ key. id_prefix entry_id ++ key) (expected_keys c)

abbrev is_cleaned_domain : Domain → Bool
is_cleaned_domain sensor = true
is_cleaned_domain binary_sensor = true
is_cleaned_domain date = true
is_cleaned_domain _ = false

abbrev pub is_expected : Text → List Text → Bool
is_expected unique_id expected = any (same_text unique_id) expected

-- The entity is stale: the loop removes it.
abbrev pub is_stale : Text → List Text → RegistryEntry → Bool
is_stale entry_id expected e =
    is_cleaned_domain e.domain
    && starts (id_prefix entry_id) (id_of e.unique_id)
    && not (is_expected (id_of e.unique_id) expected)

unfoldable pub without_stale : Text → List Text → List RegistryEntry → List RegistryEntry
without_stale entry_id expected [] = []
without_stale entry_id expected (e ∷ es) =
    let rest = without_stale entry_id expected es in
    if is_stale entry_id expected e then rest else e ∷ rest

-- `_async_cleanup_stale_entities`
unfoldable pub async_cleanup_stale_entities : Shown → Text → List RegistryEntry → List RegistryEntry
async_cleanup_stale_entities c entry_id es = elim (get_expected_entity_unique_ids c entry_id) [
  | [] ↦ es
  | id ∷ ids ↦ without_stale entry_id (id ∷ ids) es
]
