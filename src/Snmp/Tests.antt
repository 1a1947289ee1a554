-- ===== src/Snmp/Tests.antt =====
-- Readings of a management card with one temperature probe, and its self tests.
use apc_modbus_snmp_ha.Prelude.{
  ◌⊎◌, ◌<◌, ◌≡◌, refl, Bool, true, false, none, some, [], ◌∷◌, ◌++◌, All, str_eq, if◌then◌else◌,
}
use apc_modbus_snmp_ha.Prelude.Dict.{lookup}
use apc_modbus_snmp_ha.Prelude.Texts.{codes}
use apc_modbus_snmp_ha.Decode.{strip, is_space}
use apc_modbus_snmp_ha.Device.{smt_ups, rack_pdu}
use apc_modbus_snmp_ha.Snmp.{Agent, GetAnswer, var_binds, error_status}
use apc_modbus_snmp_ha.Snmp.Numbers.{
  finite, not_a_number, is_digit, digit_run, search_number, float_of, underscores_valid,
  without_underscores, parse_external_temp_c, parse_external_humidity_pct, parse_frequency_hz,
}
use apc_modbus_snmp_ha.Snmp.Probes.{
  async_detect_external_probe_oids, async_get_external_probe_data_detected, get_oid,
}
use apc_modbus_snmp_ha.Snmp.Detected.{
  IsRead, probe_keys, async_get_external_probe_data_detected-IsRead,
}
use apc_modbus_snmp_ha.Snmp.Printed.{printed, reading_of, IsNoise, parse_external-printed}
use apc_modbus_snmp_ha.Snmp.SelfTest.{Date, is_date, parse_self_test_date}
use apc_modbus_snmp_ha.Snmp.Dates.{long_text, short_text, parse_self_test_date-text}
use apc_modbus_snmp_ha.Snmp.Models.{upper, detect_device_type}

abbrev by_test : Bool → GetAnswer → GetAnswer → GetAnswer
by_test b x y = if b then x else y

-- The deep temperature OID is missing, and the shallow one reads tenths.
abbrev agent : Agent
agent oid = by_test (str_eq oid "1.3.6.1.4.1.318.1.1.25.1.2.1.6.1") (var_binds (codes "235" ∷ [])) (
    by_test (str_eq oid "1.3.6.1.4.1.318.1.1.1.3.2.4.0") (var_binds (codes "500" ∷ []))
      error_status)

async_get_external_probe_data_detected-IsRead_example :
    All
      (λ probe.
        IsRead agent probe.0 probe.2 (get_oid probe.1 (async_detect_external_probe_oids agent)) (
          lookup probe.0 (
            async_get_external_probe_data_detected agent (async_detect_external_probe_oids agent))))
      probe_keys
async_get_external_probe_data_detected-IsRead_example =
    async_get_external_probe_data_detected-IsRead agent

noisy : All IsNoise (codes "T: ")
unfolding is_digit
noisy = ((refl, refl, refl), ((refl, refl, refl), ((refl, refl, refl), tt)))

parse_external-printed_example :
    (parse_external_temp_c (some (codes "T: " ++ (printed 235 ++ codes " C")))
      ≡ some (reading_of 120 235))
    × (parse_external_humidity_pct (some (codes "T: " ++ (printed 235 ++ codes " C")))
        ≡ some (reading_of 100 235))
unfolding is_digit
parse_external-printed_example =
    parse_external-printed 235 (codes "T: ") (codes " C") noisy (refl, refl)

abbrev leap_day : Date
leap_day = record { year = 2024; month = 2; day = 29 }

leap_day_lem : is_date leap_day ≡ true
unfolding is_date
leap_day_lem = refl

parse_self_test_date-text_example :
    (parse_self_test_date (some (long_text leap_day)) ≡ some leap_day)
    × ((2024 < 1969)
        ⊎ (2068 < 2024)
        ⊎ (parse_self_test_date (some (short_text leap_day)) ≡ some leap_day))
parse_self_test_date-text_example = parse_self_test_date-text leap_day leap_day_lem

-- "1_0.5e1" is 105, and "nan" passes for a frequency.
float_of_exponent :
    float_of (codes "1_0.5e1")
    ≡ some (finite (record { negative = false; mantissa = 105; decimals = 0 }))
unfolding float_of underscores_valid without_underscores is_digit digit_run strip is_space
float_of_exponent = refl

parse_frequency_hz_nan : parse_frequency_hz (some (codes "nan")) ≡ some not_a_number
unfolding parse_frequency_hz float_of underscores_valid without_underscores is_digit digit_run strip
    is_space
parse_frequency_hz_nan = refl

temperature_below_zero : parse_external_temp_c (some (codes "-4.5 C")) ≡ none
unfolding parse_external_temp_c search_number is_digit digit_run
temperature_below_zero = refl

model_smx : detect_device_type (some (codes "Smart-UPS X 1500")) ≡ smt_ups
unfolding detect_device_type upper
model_smx = refl

model_pdu : detect_device_type (some (codes "apdu9959")) ≡ rack_pdu
unfolding detect_device_type upper
model_pdu = refl
