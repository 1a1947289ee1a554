-- ===== src/Entities/Descriptions/SmartUps.antt =====
-- The sensors of the legacy Smart-UPS (custom_components/apc_modbus/const.py).
use apc_modbus_snmp_ha.Prelude.{List, [], ◌∷◌}
use apc_modbus_snmp_ha.Entities.Descriptions.{SensorDescription, BinaryDescription, sensor, binary}

abbrev pub sensor_descriptions : List SensorDescription
sensor_descriptions =
    sensor "battery_state_of_charge"
    ∷ sensor "battery_voltage"
    ∷ sensor "runtime_remaining"
    ∷ sensor "ups_internal_temperature"
    ∷ sensor "bad_battery_packs"
    ∷ sensor "total_battery_packs"
    ∷ sensor "load_amps"
    ∷ sensor "load_percent"
    ∷ sensor "input_voltage"
    ∷ sensor "input_frequency"
    ∷ sensor "max_input_voltage"
    ∷ sensor "min_input_voltage"
    ∷ sensor "actual_output_voltage"
    ∷ sensor "nominal_output_voltage"
    ∷ sensor "lower_transfer_point"
    ∷ sensor "upper_transfer_point"
    ∷ sensor "shutdown_delay"
    ∷ sensor "low_battery_duration"
    ∷ sensor "turn_on_delay"
    ∷ []

abbrev pub binary_sensor_descriptions : List BinaryDescription
binary_sensor_descriptions =
    binary "ups_on_battery_low_shutdown" "status_word_1" 0
    ∷ binary "ups_unable_transfer_overload" "status_word_1" 1
    ∷ binary "ups_main_relay_fault" "status_word_1" 2
    ∷ binary "ups_battery_charger_fault" "status_word_1" 5
    ∷ binary "ups_temperature_fault" "status_word_1" 7
    ∷ binary "ups_bypass_fault" "status_word_2" 4
    ∷ binary "ups_inverter_fault" "status_word_2" 7
    ∷ binary "ups_online" "status_word_3" 3
    ∷ binary "ups_on_battery" "status_word_3" 4
    ∷ binary "ups_overload" "status_word_3" 5
    ∷ binary "ups_low_battery" "status_word_3" 6
    ∷ binary "ups_replace_battery" "status_word_3" 7
    ∷ []
