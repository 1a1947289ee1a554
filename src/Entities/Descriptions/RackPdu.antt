-- ===== src/Entities/Descriptions/RackPdu.antt =====
-- The sensors of the rack PDUs (custom_components/apc_modbus/registers_rack_pdu.py), which depend on
-- the capabilities that were discovered.
use apc_modbus_snmp_ha.Prelude.{ℕ, zero, suc, String, none, some, List, [], ◌∷◌, ◌++◌}
use apc_modbus_snmp_ha.Prelude.Dict.{Dict, lookup}
use apc_modbus_snmp_ha.Prelude.Texts.{codes}
use apc_modbus_snmp_ha.Prelude.Decimal.{decimal}
use apc_modbus_snmp_ha.Coordinator.Enrichment.{Text}
use apc_modbus_snmp_ha.Entities.Descriptions.{
  SensorDescription, BinaryDescription, plain_sensor, sensor, energy, enum, Labels,
}

abbrev pub power_state_labels : Labels
power_state_labels =
    (0, "Unknown") ∷ (1, "Low") ∷ (2, "Normal") ∷ (3, "Near Overload") ∷ (4, "Overload") ∷ []

abbrev pub outlet_alarm_state_labels : Labels
outlet_alarm_state_labels =
    (0, "Unknown") ∷ (1, "No Alarm") ∷ (2, "Warning") ∷ (3, "Alarm") ∷ (4, "Critical") ∷ []

abbrev pub device_descriptions : List SensorDescription
device_descriptions =
    sensor "device_real_power"
    ∷ sensor "device_apparent_power"
    ∷ sensor "device_power_factor"
    ∷ record (sensor "device_energy") { device_class = energy }
    ∷ record (sensor "device_load_state") { device_class = enum; value_map = power_state_labels }
    ∷ []

-- f"{part}_{label}_{quantity}"
abbrev numbered : String → ℕ → String → Text
numbered before n after = codes before ++ (codes (decimal n) ++ codes after)

abbrev pub phase_descriptions : ℕ → List SensorDescription
phase_descriptions phase_num =
    plain_sensor (numbered "phase_L" phase_num "_current")
    ∷ plain_sensor (numbered "phase_L" phase_num "_voltage")
    ∷ plain_sensor (numbered "phase_L" phase_num "_real_power")
    ∷ plain_sensor (numbered "phase_L" phase_num "_apparent_power")
    ∷ plain_sensor (numbered "phase_L" phase_num "_power_factor")
    ∷ record (plain_sensor (numbered "phase_L" phase_num "_state")) {
      device_class = enum;
      value_map = power_state_labels;
    }
    ∷ []

abbrev pub outlet_descriptions : ℕ → List SensorDescription
outlet_descriptions outlet_num =
    plain_sensor (numbered "outlet_" outlet_num "_current")
    ∷ plain_sensor (numbered "outlet_" outlet_num "_power")
    ∷ record (plain_sensor (numbered "outlet_" outlet_num "_energy")) { device_class = energy }
    ∷ record (plain_sensor (numbered "outlet_" outlet_num "_alarm_state")) {
      device_class = enum;
      value_map = outlet_alarm_state_labels;
    }
    ∷ []

abbrev pub bank_descriptions : ℕ → List SensorDescription
bank_descriptions bank_num =
    plain_sensor (numbered "bank_" bank_num "_current")
    ∷ record (plain_sensor (numbered "bank_" bank_num "_state")) {
      device_class = enum;
      value_map = power_state_labels;
    }
    ∷ []

-- The descriptions of the numbers from 1 on, `n` of them
unfoldable pub each_of : (ℕ → List SensorDescription) → ℕ → List SensorDescription
each_of describe zero = []
each_of describe (suc n) = each_of describe n ++ describe (suc n)

-- `capabilities.get(key, default)`
abbrev pub capability : String → ℕ → Dict ℕ → ℕ
capability key default capabilities = elim (lookup key capabilities) [ none ↦ default | some n ↦ n ]

unfoldable pub get_sensor_descriptions : Dict ℕ → List SensorDescription
get_sensor_descriptions capabilities =
    device_descriptions
    ++ (each_of phase_descriptions (capability "num_phases" 1 capabilities)
        ++ (each_of outlet_descriptions (capability "num_metered_outlets" 0 capabilities)
            ++ each_of bank_descriptions (capability "num_banks" 0 capabilities)))

abbrev pub get_binary_sensor_descriptions : Dict ℕ → List BinaryDescription
get_binary_sensor_descriptions capabilities = []
