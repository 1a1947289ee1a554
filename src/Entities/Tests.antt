-- ===== src/Entities/Tests.antt =====
-- The entities of an SMT device without external probes, and of a rack PDU with outlets.
use apc_modbus_snmp_ha.Prelude.{ℕ, String, ◌≡◌, refl, true, false, none, some, List, [], ◌∷◌, ◌++◌}
use apc_modbus_snmp_ha.Prelude.Dict.{Dict, lookup}
use apc_modbus_snmp_ha.Prelude.Texts.{codes}
use apc_modbus_snmp_ha.Coordinator.Enrichment.{snmp_unavailable}
use apc_modbus_snmp_ha.Device.{smt_ups, is_concrete_device_type}
use apc_modbus_snmp_ha.Entities.Profiles.{get_binary_sensor_descriptions, get_sensor_descriptions}
use apc_modbus_snmp_ha.Entities.Availability.{
  is_sensor_enabled_by_default, is_binary_sensor_enabled_by_default, is_non_primary_phase_metric,
  phase_search, match_pattern, filter_available_external_probe_keys,
  is_external_probe_entity_available,
}
use apc_modbus_snmp_ha.Entities.Registry.{
  Domain, sensor, button, user, integration, RegistryEntry, Shown, id_prefix,
  get_expected_entity_unique_ids, without_stale, async_cleanup_stale_entities,
}
use apc_modbus_snmp_ha.Entities.Registry.Cleanup.{kept, async_cleanup_stale_entities-kept}

abbrev two_outlets : Dict ℕ
two_outlets = ("num_phases", 1) ∷ ("num_metered_outlets", 2) ∷ []

abbrev entity : Domain → String → RegistryEntry
entity domain key = record {
  entity_id = codes key;
  domain = domain;
  unique_id = some (id_prefix (codes "e1") ++ codes key);
  disabled_by = none;
}

-- A button that the user enabled, and two sensors
abbrev entities : List RegistryEntry
entities =
    entity button "ups_off"
    ∷ entity sensor "output_voltage"
    ∷ record (entity sensor "output_voltage_l2") { disabled_by = some user }
    ∷ []

-- The button behind a reset
abbrev disabled_off : RegistryEntry
disabled_off = record (entity button "ups_off") { disabled_by = some integration }

second_phase : is_sensor_enabled_by_default (codes "Output_Voltage_L2") "smt_ups" ≡ false
unfolding is_sensor_enabled_by_default is_non_primary_phase_metric phase_search match_pattern
second_phase = refl

mains_flag : is_binary_sensor_enabled_by_default (codes "ups_online") "smt_ups" ≡ true
unfolding is_binary_sensor_enabled_by_default match_pattern
mains_flag = refl

abbrev shown : Shown
shown = record {
  device_type = smt_ups;
  device_capabilities = [];
  snmp_availability = snmp_unavailable;
  probe_detection = [];
  values = [];
}

-- A sensor of a rack PDU, left over from another classification
abbrev left_over : RegistryEntry
left_over = entity sensor "device_real_power"

concrete : is_concrete_device_type (some smt_ups) ≡ true
unfolding is_concrete_device_type
concrete = refl

left_over_removed :
    async_cleanup_stale_entities shown (codes "e1") (left_over ∷ entities) ≡ entities
unfolding async_cleanup_stale_entities get_expected_entity_unique_ids without_stale
    is_concrete_device_type get_sensor_descriptions get_binary_sensor_descriptions
    filter_available_external_probe_keys is_external_probe_entity_available lookup
left_over_removed = refl

async_cleanup_stale_entities-kept_example :
    async_cleanup_stale_entities shown (codes "e1") (left_over ∷ entities)
    ≡ kept shown (codes "e1") (left_over ∷ entities)
async_cleanup_stale_entities-kept_example =
    async_cleanup_stale_entities-kept shown (codes "e1") (left_over ∷ entities) concrete
