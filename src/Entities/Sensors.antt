-- ===== src/Entities/Sensors.antt =====
-- The sensors that custom_components/apc_modbus/sensor.py creates at setup, and those that it adds when
-- an external probe is detected later.
use apc_modbus_snmp_ha.Prelude.{
  Bool, true, false, not, ◌&&◌, some, List, [], ◌∷◌, ◌++◌, any, if◌then◌else◌,
}
use apc_modbus_snmp_ha.Prelude.Dict.{lookup}
use apc_modbus_snmp_ha.Prelude.Texts.{codes, same_text}
use apc_modbus_snmp_ha.Decode.{int}
use apc_modbus_snmp_ha.Coordinator.Enrichment.{Text, is_available}
use apc_modbus_snmp_ha.Coordinator.Enrichment.Merging.{Data, has_self_test}
use apc_modbus_snmp_ha.Entities.Descriptions.{SensorDescription}
use apc_modbus_snmp_ha.Entities.Availability.{is_external_probe_entity_available}
use apc_modbus_snmp_ha.Entities.Descriptions.Snmp.{
  snmp_external_sensor_descriptions, snmp_self_test_sensor_descriptions,
}
use apc_modbus_snmp_ha.Entities.Profiles.{get_sensor_descriptions}
use apc_modbus_snmp_ha.Entities.Registry.{Shown}

-- `isinstance(data.get("output_energy"), int)`
abbrev pub has_energy : Data → Bool
has_energy d = elim (lookup "output_energy" d) [ some (some (int _)) ↦ true | _ ↦ false ]

abbrev is_idle_rollover : Data → SensorDescription → Bool
is_idle_rollover d description =
    same_text description.key (codes "output_energy_rollover") && not (has_energy d)

abbrev pub is_created : Shown → SensorDescription → Bool
is_created c description =
    not (is_idle_rollover c.values description)
    && is_external_probe_entity_available description.key c.values c.probe_detection

unfoldable pub created : Shown → List SensorDescription → List SensorDescription
created c [] = []
created c (d ∷ ds) = let rest = created c ds in if is_created c d then d ∷ rest else rest

-- `sensor_descriptions` of `async_setup_entry` before the two filters
abbrev pub platform_descriptions : Shown → List SensorDescription
platform_descriptions c =
    let descriptions =
      get_sensor_descriptions c.device_type c.device_capabilities
      ++ snmp_external_sensor_descriptions in
    if is_available c.snmp_availability && has_self_test c.device_type
    then descriptions ++ snmp_self_test_sensor_descriptions
    else descriptions

-- The descriptions of `async_setup_entry`
abbrev pub platform_sensors : Shown → List SensorDescription
platform_sensors c = created c (platform_descriptions c)

-- One round of the listener, over the external descriptions: the keys that are added by then, and
-- the new descriptions.
unfoldable pub add_newly_detected :
    Shown → List SensorDescription → List Text → List Text × List SensorDescription
add_newly_detected c [] added = (added, [])
add_newly_detected c (d ∷ ds) added = elim (any (same_text d.key) added) [
  | true ↦ add_newly_detected c ds added
  | false ↦ elim (is_external_probe_entity_available d.key c.values c.probe_detection) [
    | false ↦ add_newly_detected c ds added
    | true ↦ let (later, rest) = add_newly_detected c ds (d.key ∷ added) in (later, d ∷ rest)
  ]
]
