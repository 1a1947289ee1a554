-- ===== src/Entities/Descriptions/Snmp.antt =====
-- The sensors whose values SNMP brings (custom_components/apc_modbus/const.py).
use apc_modbus_snmp_ha.Prelude.{List, [], ◌∷◌}
use apc_modbus_snmp_ha.Entities.Descriptions.{SensorDescription, sensor, enum, Labels}

abbrev pub snmp_self_test_schedule_labels : Labels
snmp_self_test_schedule_labels =
    (1, "Unknown")
    ∷ (2, "Biweekly")
    ∷ (3, "Weekly")
    ∷ (4, "At Turn On")
    ∷ (5, "Never")
    ∷ (6, "Every 4 Weeks")
    ∷ (7, "Every 12 Weeks")
    ∷ (8, "Biweekly Since Last Test")
    ∷ (9, "Weekly Since Last Test")
    ∷ (10, "Every 8 Weeks")
    ∷ (11, "Every 26 Weeks")
    ∷ (12, "Every 52 Weeks")
    ∷ []

abbrev pub snmp_self_test_result_labels : Labels
snmp_self_test_result_labels =
    (1, "OK") ∷ (2, "Failed") ∷ (3, "Invalid Test") ∷ (4, "Test In Progress") ∷ []

abbrev pub snmp_self_test_day_labels : Labels
snmp_self_test_day_labels =
    (1, "Monday")
    ∷ (2, "Tuesday")
    ∷ (3, "Wednesday")
    ∷ (4, "Thursday")
    ∷ (5, "Friday")
    ∷ (6, "Saturday")
    ∷ (7, "Sunday")
    ∷ []

abbrev pub snmp_runtime_calibration_status_labels : Labels
snmp_runtime_calibration_status_labels =
    (1, "Calibration Complete")
    ∷ (2, "Cannot Calibrate — Battery Not Fully Charged")
    ∷ (3, "Calibration In Progress")
    ∷ (4, "Calibration Refused")
    ∷ (5, "Calibration Aborted")
    ∷ (6, "Calibration Pending")
    ∷ []

abbrev pub snmp_external_sensor_descriptions : List SensorDescription
snmp_external_sensor_descriptions =
    sensor "snmp_external_temp_1"
    ∷ sensor "snmp_external_humidity_1"
    ∷ sensor "snmp_external_temp_2"
    ∷ sensor "snmp_external_humidity_2"
    ∷ []

abbrev pub snmp_self_test_sensor_descriptions : List SensorDescription
snmp_self_test_sensor_descriptions =
    record (sensor "snmp_self_test_schedule") {
      device_class = enum;
      value_map = snmp_self_test_schedule_labels;
    }
    ∷ record (sensor "snmp_self_test_result") {
      device_class = enum;
      value_map = snmp_self_test_result_labels;
    }
    ∷ sensor "snmp_last_self_test_date"
    ∷ sensor "snmp_self_test_time"
    ∷ record (sensor "snmp_self_test_day") {
      device_class = enum;
      value_map = snmp_self_test_day_labels;
    }
    ∷ record (sensor "snmp_runtime_calibration_status") {
      device_class = enum;
      value_map = snmp_runtime_calibration_status_labels;
    }
    ∷ []
