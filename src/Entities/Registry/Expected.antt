-- ===== src/Entities/Registry/Expected.antt =====
-- The keys that the cleanup expects (custom_components/apc_modbus/__init__.py) against those that the
-- platforms show (sensor.py, binary_sensor.py and date.py).
use apc_modbus_snmp_ha.Prelude.{
  ◌≡◌, refl, sym, Bool, true, not, ◌&&◌, ◌||◌, some, List, [], ◌∷◌, ◌++◌, any, arith, inl, inr,
  Bool-cases, subst,
}
use apc_modbus_snmp_ha.Prelude.Texts.{codes, same_text, same_text-eq}
use apc_modbus_snmp_ha.Coordinator.Enrichment.{Text, Detection, is_available}
use apc_modbus_snmp_ha.Coordinator.Enrichment.Merging.{Data, has_self_test}
use apc_modbus_snmp_ha.Device.{
  ApcDeviceType, smt_ups, smart_ups, rack_pdu, smartconnect_ups, ups, unknown,
  is_concrete_device_type,
}
use apc_modbus_snmp_ha.Entities.Descriptions.{SensorDescription}
use apc_modbus_snmp_ha.Entities.Descriptions.Snmp.{snmp_external_sensor_descriptions}
use apc_modbus_snmp_ha.Entities.Descriptions.RackPdu
use apc_modbus_snmp_ha.Entities.Profiles.{
  supported, get_sensor_descriptions, get_binary_sensor_descriptions,
}
use apc_modbus_snmp_ha.Entities.Availability.{
  filter_available_external_probe_keys, is_external_probe_entity_available,
}
use apc_modbus_snmp_ha.Entities.Registry.{
  Shown, date_keys, sensor_keys, binary_keys, described_keys, expected_keys,
}
use apc_modbus_snmp_ha.Entities.Sensors.{
  created, has_energy, platform_descriptions, platform_sensors,
}
use apc_modbus_snmp_ha.Entities.States.{has_date}

-- The key is among these.
abbrev pub has_key : Text → List Text → Bool
has_key key keys = any (same_text key) keys

-- The key of the rollovers, whose sensor waits for the energy counter's first value
abbrev pub is_waiting : Shown → Text → Bool
is_waiting c key = same_text key (codes "output_energy_rollover") && not (has_energy c.values)

-- The sensor, binary sensor and date platforms create an entity of this key, or the sensor platform
-- will at the next setup behind the energy counter's first value.
abbrev pub is_shown : Shown → Text → Bool
is_shown c key =
    has_key key (sensor_keys (platform_sensors c))
    || (is_waiting c key && has_key key (sensor_keys (platform_descriptions c)))
    || (has_key key
          (binary_keys (get_binary_sensor_descriptions c.device_type c.device_capabilities))
        || (has_date c.device_type && same_text key (codes "battery_installation_date")))

has_key-append :
    (key : Text) (xs ys : List Text) → has_key key (xs ++ ys) ≡ (has_key key xs || has_key key ys)
has_key-append key [] ys = refl
has_key-append key (x ∷ xs) ys = ground (arith, has_key-append key xs ys)

sensor_keys-append :
    (xs ys : List SensorDescription) → sensor_keys (xs ++ ys) ≡ sensor_keys xs ++ sensor_keys ys
sensor_keys-append [] ys = refl
sensor_keys-append (x ∷ xs) ys = rw (sensor_keys-append xs ys) refl

-- The cleanup and the platform start from the same keys.
described_keys_lem : (c : Shown) → described_keys c ≡ sensor_keys (platform_descriptions c)
described_keys_lem c =
    elim (Bool-cases (is_available c.snmp_availability && has_self_test c.device_type)) [
      | inl h ↦ rw h (sym (sensor_keys-append _ _))
      | inr h ↦ rw h refl
    ]

waiting-available :
    (key : Text) (values : Data) (detection : Detection)
    → same_text key (codes "output_energy_rollover") ≡ true
    → is_external_probe_entity_available key values detection ≡ true
unfolding is_external_probe_entity_available
waiting-available key values detection h =
    subst (λ k. is_external_probe_entity_available k values detection ≡ true)
      (sym (same_text-eq key (codes "output_energy_rollover") h)) refl

-- The filter of the keys against the two filters of the platform
filter-created :
    (c : Shown) (key : Text) (ds : List SensorDescription)
    → has_key key (filter_available_external_probe_keys (sensor_keys ds) c.values c.probe_detection)
      ≡ (has_key key (sensor_keys (created c ds))
          || (is_waiting c key && has_key key (sensor_keys ds)))
unfolding created filter_available_external_probe_keys
filter-created c key [] = ground arith
filter-created c key (d ∷ ds) = elim (Bool-cases (same_text key d.key)) [
  | inl e ↦
      let same = same_text-eq key d.key e in
      let available = waiting-available key c.values c.probe_detection in
      ground (arith, filter-created c key ds)
  | inr e ↦ ground (arith, e, filter-created c key ds)
]

date_keys_lem :
    (c : Shown) (key : Text)
    → has_key key (date_keys c.device_type)
      ≡ (has_date c.device_type && same_text key (codes "battery_installation_date"))
date_keys_lem c key = ground arith

-- The cleanup expects exactly the keys that a platform shows.
pub expected-shown : (c : Shown) (key : Text) → has_key key (expected_keys c) ≡ is_shown c key
expected-shown c key =
    let sensors =
      filter_available_external_probe_keys (described_keys c) c.values c.probe_detection in
    let flags = binary_keys (get_binary_sensor_descriptions c.device_type c.device_capabilities) in
    let dates = date_keys c.device_type in
    let found : has_key key sensors ≡ (
        has_key key (sensor_keys (platform_sensors c))
        || (is_waiting c key && has_key key (sensor_keys (platform_descriptions c)))) =
      rw (described_keys_lem c) (filter-created c key (platform_descriptions c)) in
    rw (has_key-append key sensors (flags ++ dates), has_key-append key flags dates)
      (rw (found, date_keys_lem c key) refl)

-- Every concrete family shows some key.
abbrev first_key : ApcDeviceType → Text
first_key rack_pdu = codes "device_real_power"
first_key _ = codes "battery_state_of_charge"

first_described :
    (c : Shown)
    → is_concrete_device_type (some c.device_type) ≡ true
    → has_key
        (first_key c.device_type)
        (sensor_keys (get_sensor_descriptions c.device_type c.device_capabilities))
      ≡ true
unfolding is_concrete_device_type get_sensor_descriptions supported RackPdu.get_sensor_descriptions
first_described c concrete = by_family c.device_type concrete
  where
    by_family :
        (t : ApcDeviceType)
        → is_concrete_device_type (some t) ≡ true
        → has_key (first_key t) (sensor_keys (get_sensor_descriptions t c.device_capabilities))
          ≡ true
    by_family smart_ups h = refl
    by_family smt_ups h = refl
    by_family rack_pdu h = refl
    by_family smartconnect_ups h = refl
    by_family ups h = absurd (ground arith)
    by_family unknown h = absurd (ground arith)

filter_lem :
    (key : Text) (keys : List Text) (values : Data) (detection : Detection)
    → is_external_probe_entity_available key values detection ≡ true
    → has_key key keys ≡ true
    → has_key key (filter_available_external_probe_keys keys values detection) ≡ true
unfolding filter_available_external_probe_keys
filter_lem key [] values detection available h = h
filter_lem key (k ∷ keys) values detection available h = elim (Bool-cases (same_text key k)) [
  | inl e ↦ let same = same_text-eq key k e in ground arith
  | inr e ↦ ground (arith, filter_lem key keys values detection available (ground (arith, h, e)))
]

first_available :
    (t : ApcDeviceType) (values : Data) (detection : Detection)
    → is_external_probe_entity_available (first_key t) values detection ≡ true
unfolding is_external_probe_entity_available
first_available smart_ups values detection = refl
first_available smt_ups values detection = refl
first_available rack_pdu values detection = refl
first_available smartconnect_ups values detection = refl
first_available ups values detection = refl
first_available unknown values detection = refl

described_first :
    (c : Shown)
    → is_concrete_device_type (some c.device_type) ≡ true
    → has_key (first_key c.device_type) (described_keys c) ≡ true
described_first c concrete =
    let own = sensor_keys (get_sensor_descriptions c.device_type c.device_capabilities) in
    let key = first_key c.device_type in
    let there = first_described c concrete in
    let joined : has_key key (
          sensor_keys (
            get_sensor_descriptions c.device_type c.device_capabilities
            ++ snmp_external_sensor_descriptions))
        ≡ true =
      rw (sensor_keys-append, has_key-append, there) refl in
    elim (Bool-cases (is_available c.snmp_availability && has_self_test c.device_type)) [
      | inl h ↦ rw (h, has_key-append, joined) refl
      | inr h ↦ rw (h, joined) refl
    ]

pub expected_some :
    (c : Shown)
    → is_concrete_device_type (some c.device_type) ≡ true
    → (key : Text) × (keys : List Text) × (expected_keys c ≡ key ∷ keys)
expected_some c concrete =
    let found =
      filter_lem (first_key c.device_type) (described_keys c) c.values c.probe_detection
        (first_available c.device_type c.values c.probe_detection) (described_first c concrete) in
    first_of (expected_keys c) (rw (has_key-append, found) refl)
  where
    first_of :
        (ks : List Text)
        → has_key (first_key c.device_type) ks ≡ true
        → (key : Text) × (keys : List Text) × (ks ≡ key ∷ keys)
    first_of [] h = absurd (ground arith)
    first_of (k ∷ ks) h = (k, ks, refl)
