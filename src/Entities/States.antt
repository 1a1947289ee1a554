-- ===== src/Entities/States.antt =====
-- What the entities show and write: `native_value` of custom_components/apc_modbus/sensor.py with the
-- transforms of registers_smt_ups.py, `is_on` of binary_sensor.py, and date.py. A date is its
-- number of days since 2000-01-01. A quotient of a value is kept as the two.
pub mod Flags
pub mod Dates
mod Tests
use apc_modbus_snmp_ha.Prelude.{
  ℕ, zero, suc, ◌-◌, ◌*◌, ◌/◌, ◌%◌, String, Bool, true, false, not, ◌&&◌, Option, none, some, List,
  [], ◌∷◌, ltb, leb, ◌==◌, if◌then◌else◌,
}
use apc_modbus_snmp_ha.Prelude.Int.{ℤ, pos, negsuc}
use apc_modbus_snmp_ha.Prelude.Dict.{Dict}
use apc_modbus_snmp_ha.Prelude.Texts.{codes, same_text}
use apc_modbus_snmp_ha.Registers.{Scale, whole, one_over}
use apc_modbus_snmp_ha.Decode.{Value, int, quotient, text}
use apc_modbus_snmp_ha.Device.{ApcDeviceType, smt_ups, smartconnect_ups}
use apc_modbus_snmp_ha.Modbus.{Client, Outcome, returned, raised, type_error, value_error}
use apc_modbus_snmp_ha.Transport.{Action, plain_error}
use apc_modbus_snmp_ha.Transport
use apc_modbus_snmp_ha.Coordinator.Enrichment.{Text}
use apc_modbus_snmp_ha.Coordinator.Enrichment.Merging.{Data}
use apc_modbus_snmp_ha.Snmp.SelfTest.{int_of}
use apc_modbus_snmp_ha.Entities.Descriptions.{
  SensorDescription, BinaryDescription, DeviceClass, energy, Transform, battery_date,
  efficiency_percentage, efficiency_status, Labels,
}

-- `coordinator.data.get(register_key)`
unfoldable pub value_at : Text → Data → Option Value
value_at key [] = none
value_at key ((k, v) ∷ rest) = if same_text (codes k) key then v else value_at key rest

-- The quotient without its fraction, towards zero
abbrev truncated : ℤ → ℕ → ℤ
truncated (pos n) k = pos (n / k)
truncated (negsuc n) k = let q = suc n / k in if q == 0 then pos 0 else negsuc (q - 1)

abbrev times : ℤ → ℕ → ℤ
times (pos n) k = pos (n * k)
times (negsuc n) k = if k == 0 then pos 0 else negsuc (suc n * k - 1)

-- `int(value)`; none is a ValueError.
unfoldable pub as_int : Value → Option ℤ
as_int (int z) = some z
as_int (quotient z (whole n)) = some (truncated z n)
as_int (quotient z (one_over n)) = some (times z n)
as_int (text t) = int_of t

-- A value that a sensor shows
pub data Native : Type 0 where
  plain : Value → Native
  divided : Value → ℕ → Native
  label : String → Native
  unknown_code : ℤ → Native
  day : ℤ → Native

abbrev pub first_day : ℕ
first_day = 730119

abbrev pub last_day : ℕ
last_day = 2921939

-- `BATTERY_DATE_EPOCH + timedelta(days=days)`, which has the years 1 to 9999
abbrev pub date_at : ℤ → Option Native
date_at (pos n) = if leb n last_day then some (day (pos n)) else none
date_at (negsuc n) = if ltb n first_day then some (day (negsuc n)) else none

abbrev pub battery_date_of : Option Value → Option Native
battery_date_of none = none
battery_date_of (some value) = elim (as_int value) [ none ↦ none | some days ↦ date_at days ]

-- `value >= 0`; none is a TypeError.
abbrev is_natural : Value → Option Bool
is_natural (int (pos _)) = some true
is_natural (int (negsuc _)) = some false
is_natural (quotient (pos _) _) = some true
is_natural (quotient (negsuc _) _) = some false
is_natural (text _) = none

-- EFFICIENCY_STATUS, by the codes' absolute values
abbrev efficiency_statuses : Labels
efficiency_statuses =
    (1, "Not Available")
    ∷ (2, "Load Too Low")
    ∷ (3, "Output Off")
    ∷ (4, "On Battery")
    ∷ (5, "In Bypass")
    ∷ (6, "Battery Charging")
    ∷ (7, "Poor AC Input")
    ∷ (8, "Battery Disconnected")
    ∷ []

-- `labels.get(code, f"Unknown ({code})")`
unfoldable pub labelled : ℕ → ℤ → Labels → Native
labelled n code [] = unknown_code code
labelled n code ((m, name) ∷ rest) =
    let other = labelled n code rest in if m == n then label name else other

abbrev efficiency_status_of : Option ℤ → Outcome (Option Native)
efficiency_status_of none = raised (plain_error value_error)
efficiency_status_of (some (pos n)) = returned (some (unknown_code (pos n)))
efficiency_status_of (some (negsuc n)) =
    returned (some (labelled (suc n) (negsuc n) efficiency_statuses))

abbrev transformed : Transform → Value → Outcome (Option Native)
transformed battery_date value = returned (battery_date_of (some value))
transformed efficiency_percentage value = elim (is_natural value) [
  | none ↦ raised (plain_error type_error)
  | some true ↦ returned (some (divided value 128))
  | some false ↦ returned none
]
transformed efficiency_status value = elim (is_natural value) [
  | none ↦ raised (plain_error type_error)
  | some true ↦ returned (some (label "Available"))
  | some false ↦ efficiency_status_of (as_int value)
]

-- The label of a code; the codes of a table are natural numbers.
abbrev code_label : Option ℤ → Labels → Option Native
code_label none labels = none
code_label (some (pos n)) labels = some (labelled n (pos n) labels)
code_label (some (negsuc n)) labels = some (unknown_code (negsuc n))

-- `value / 1000`
abbrev kilo : Value → Outcome (Option Native)
kilo (text _) = raised (plain_error type_error)
kilo value = returned (some (divided value 1000))

abbrev by_class : DeviceClass → Value → Outcome (Option Native)
by_class energy value = kilo value
by_class _ value = returned (some (plain value))

abbrev shown_value : SensorDescription → Value → Outcome (Option Native)
shown_value d value = elim d.value_transform [
  | some transform ↦ transformed transform value
  | none ↦ elim d.value_map [
    | [] ↦ by_class d.device_class value
    | l ∷ labels ↦ returned (code_label (as_int value) (l ∷ labels))
  ]
]

-- `APCModbusSensor.native_value`
unfoldable pub native_value : SensorDescription → Data → Outcome (Option Native)
native_value d values = elim (value_at d.register_key values) [
  | none ↦ returned none
  | some value ↦ shown_value d value
]

-- A binary digit of a natural number
unfoldable pub bit_set : ℕ → ℕ → Bool
bit_set zero n = n % 2 == 1
bit_set (suc i) n = bit_set i (n / 2)

-- `value & (1 << bit_index)`, in two's complement of any width
abbrev pub has_bit : ℕ → ℤ → Bool
has_bit i (pos n) = bit_set i n
has_bit i (negsuc n) = not (bit_set i n)

-- `APCModbusBinarySensor.is_on`
unfoldable pub is_on : BinaryDescription → Data → Outcome (Option Bool)
is_on d values = elim (value_at d.register_key values) [
  | none ↦ returned none
  | some value ↦ elim (as_int value) [
    | none ↦ raised (plain_error value_error)
    | some z ↦ returned (some (has_bit d.bit_index z))
  ]
]

-- The families with an entity for the battery's installation date
abbrev pub has_date : ApcDeviceType → Bool
has_date smt_ups = true
has_date smartconnect_ups = true
has_date _ = false

abbrev pub battery_date_setting_address : ℕ
battery_date_setting_address = 0x0253

-- `APCModbusBatteryInstallationDate.native_value`
unfoldable pub installation_date : Data → Option Native
installation_date values =
    battery_date_of (value_at (codes "battery_installation_date_days") values)

-- `async_set_value`; none is the refusal of a date that is out of range. The refresh that it asks
-- for is not modelled.
unfoldable pub async_set_value : Client → ℤ → Option (Action (Unit {0}))
async_set_value client (pos days) =
    if leb days 0xFFFF
    then some (Transport.write client battery_date_setting_address (days ∷ []))
    else none
async_set_value client (negsuc n) = none
