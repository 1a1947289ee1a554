-- ===== src/Snmp/SelfTest.antt =====
-- The self-test state of custom_components/apc_modbus/snmp_helper.py: its OIDs, and the parsers of its
-- dates, times and codes.
use apc_modbus_snmp_ha.Prelude.{
  ℕ, ◌+◌, ◌-◌, ◌*◌, ◌%◌, String, Bool, false, true, not, ◌&&◌, ◌||◌, Option, none, some, List, [],
  ◌∷◌, all, ltb, leb, ◌==◌, if◌then◌else◌,
}
use apc_modbus_snmp_ha.Prelude.Dict.{Dict}
use apc_modbus_snmp_ha.Prelude.Int.{ℤ, pos, sub_ℕ}
use apc_modbus_snmp_ha.Decode.{strip}
use apc_modbus_snmp_ha.Coordinator.Enrichment.{Text}
use apc_modbus_snmp_ha.Snmp.{Agent, ValueMap, fetch_snmp_value_map, get_value}
use apc_modbus_snmp_ha.Snmp.Numbers.{is_digit, digit_run, underscores_valid, without_underscores}

-- A date of Python's datetime
pub record Date : Type 0 where
  pub year : ℕ
  pub month : ℕ
  pub day : ℕ

abbrev is_leap : ℕ → Bool
is_leap y = (y % 4 == 0) && (not (y % 100 == 0) || y % 400 == 0)

abbrev days_in_month : ℕ → ℕ → ℕ
days_in_month y m =
    if m == 2
    then (if is_leap y then 29 else 28)
    else if m == 4 || m == 6 || m == 9 || m == 11
    then 30
    else 31

-- The dates that datetime has, in the years 1 to 9999
unfoldable pub is_date : Date → Bool
is_date d =
    leb 1 d.year
    && leb d.year 9999
    && leb 1 d.month
    && leb d.month 12
    && leb 1 d.day
    && leb d.day (days_in_month d.year d.month)

abbrev pub two_digits : ℕ → ℕ → ℕ
two_digits a b = (a - b'0') * 10 + (b - b'0')

-- `%y`: the years 1969 to 2068
abbrev pub short_year : ℕ → ℕ
short_year n = if ltb n 69 then 2000 + n else 1900 + n

abbrev pub checked : Date → Option Date
checked d = if is_date d then some d else none

-- Behind the second slash: two digits or four
abbrev pub year_of : Text → Option ℕ
year_of (a ∷ b ∷ []) =
    if all is_digit (a ∷ b ∷ []) then some (short_year (two_digits a b)) else none
year_of (a ∷ b ∷ c ∷ d ∷ []) =
    if all is_digit (a ∷ b ∷ c ∷ d ∷ []) then some (two_digits a b * 100 + two_digits c d) else none
year_of _ = none

-- The match of SELF_TEST_DATE_RE with the reading of `strptime`
abbrev pub date_of : Text → Option Date
date_of (a ∷ b ∷ s ∷ c ∷ d ∷ t ∷ rest) =
    if all is_digit (a ∷ b ∷ c ∷ d ∷ []) && s == b'/' && t == b'/'
    then elim (year_of rest) [
      | none ↦ none
      | some y ↦ checked (record { year = y; month = two_digits a b; day = two_digits c d })
    ]
    else none
date_of _ = none

-- `_parse_self_test_date`
unfoldable pub parse_self_test_date : Option Text → Option Date
parse_self_test_date none = none
parse_self_test_date (some value) = date_of (strip value)

-- The match of SELF_TEST_TIME_RE
abbrev pub time_matches : Text → Bool
time_matches (a ∷ b ∷ colon ∷ c ∷ d ∷ []) =
    all is_digit (a ∷ b ∷ c ∷ d ∷ [])
    && (leb a b'1' || (a == b'2' && leb b b'3'))
    && colon == b':'
    && leb c b'5'
time_matches _ = false

abbrev pub checked_time : Text → Option Text
checked_time value = if time_matches value then some value else none

-- `_parse_self_test_time`
unfoldable pub parse_self_test_time : Option Text → Option Text
parse_self_test_time none = none
parse_self_test_time (some value) = checked_time (strip value)

-- Python's `int` of a text: none where it raises ValueError
abbrev signed : Bool → Text → Option ℤ
signed negative text =
    let r = digit_run 0 0 text in
    elim r.rest [
      | [] ↦
          if ltb 0 r.count then some (if negative then sub_ℕ 0 r.total else pos r.total) else none
      | _ ∷ _ ↦ none
    ]

abbrev sign_and_digits : Text → Option ℤ
sign_and_digits [] = none
sign_and_digits (c ∷ cs) =
    if c == b'-'
    then signed true cs
    else if c == b'+'
    then signed false cs
    else signed false (c ∷ cs)

unfoldable pub int_of : Text → Option ℤ
int_of text =
    if underscores_valid false (strip text)
    then sign_and_digits (without_underscores (strip text))
    else none

-- `_parse_self_test_enum`
abbrev pub parse_self_test_enum : Option Text → Option ℤ
parse_self_test_enum none = none
parse_self_test_enum (some value) = int_of value

-- SELF_TEST_OIDS, by the end that each adds to the branch of the self tests
abbrev schedule_oid : String
schedule_oid = "1.3.6.1.4.1.318.1.1.1.7.2.1.0"

abbrev result_oid : String
result_oid = "1.3.6.1.4.1.318.1.1.1.7.2.3.0"

abbrev last_date_oid : String
last_date_oid = "1.3.6.1.4.1.318.1.1.1.7.2.4.0"

abbrev time_oid : String
time_oid = "1.3.6.1.4.1.318.1.1.1.7.2.8.0"

abbrev day_oid : String
day_oid = "1.3.6.1.4.1.318.1.1.1.7.2.9.0"

abbrev calibration_oid : String
calibration_oid = "1.3.6.1.4.1.318.1.1.1.7.2.6.0"

abbrev pub self_test_oids : Dict String
self_test_oids =
    ("snmp_self_test_schedule", schedule_oid)
    ∷ ("snmp_self_test_result", result_oid)
    ∷ ("snmp_last_self_test_date", last_date_oid)
    ∷ ("snmp_self_test_time", time_oid)
    ∷ ("snmp_self_test_day", day_oid)
    ∷ ("snmp_runtime_calibration_status", calibration_oid)
    ∷ []

-- What `async_get_self_test_data` returns, under its six keys
pub record SelfTest : Type 0 where
  pub snmp_self_test_schedule : Option ℤ
  pub snmp_self_test_result : Option ℤ
  pub snmp_last_self_test_date : Option Date
  pub snmp_self_test_time : Option Text
  pub snmp_self_test_day : Option ℤ
  pub snmp_runtime_calibration_status : Option ℤ

abbrev values : Dict String → List String
values [] = []
values ((_, oid) ∷ rest) = oid ∷ values rest

abbrev pub self_test_of : ValueMap → SelfTest
self_test_of map = record {
  snmp_self_test_schedule = parse_self_test_enum (get_value schedule_oid map);
  snmp_self_test_result = parse_self_test_enum (get_value result_oid map);
  snmp_last_self_test_date = parse_self_test_date (get_value last_date_oid map);
  snmp_self_test_time = parse_self_test_time (get_value time_oid map);
  snmp_self_test_day = parse_self_test_enum (get_value day_oid map);
  snmp_runtime_calibration_status = parse_self_test_enum (get_value calibration_oid map);
}

unfoldable pub async_get_self_test_data : Agent → SelfTest
async_get_self_test_data agent = self_test_of (fetch_snmp_value_map agent (values self_test_oids))
