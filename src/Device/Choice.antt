-- ===== src/Device/Choice.antt =====
-- Which family an entry ends up with, and when it is probed again.
use apc_modbus_snmp_ha.Prelude.{ℕ, ◌≡◌, ◌≢◌, ◌↔◌, ◌⊎◌, true, false, Option, none, some, arith}
use apc_modbus_snmp_ha.Device.{
  ApcDeviceType, is_same, detection_version, is_concrete_device_type, choose_device_type,
  should_probe_device_type,
}

pub is_same-eq : (a b : ApcDeviceType) → (is_same a b ≡ true) ↔ (a ≡ b)
is_same-eq a b = ground arith

-- A concrete detected family wins, else a concrete stored one stays, else there is none; so the
-- choice is concrete or nothing, and a failed detection never changes a concrete stored family.
pub choose_device_type_lem :
    (stored detected : Option ApcDeviceType)
    → (is_concrete_device_type detected ≡ true → choose_device_type stored detected ≡ detected)
      × (is_concrete_device_type detected ≡ false
          → is_concrete_device_type stored ≡ true
          → choose_device_type stored detected ≡ stored)
      × ((choose_device_type stored detected ≡ none)
          ↔ ((is_concrete_device_type detected ≡ false) × (is_concrete_device_type stored ≡ false)))
      × ((choose_device_type stored detected ≢ none)
          → is_concrete_device_type (choose_device_type stored detected) ≡ true)
unfolding choose_device_type
choose_device_type_lem stored detected = ground arith

-- An entry is not probed exactly when its stored family is concrete, its stored detection version
-- is the current one, and the SNMP hint is no concrete family other than the stored one.
pub should_probe_exact :
    (stored : Option ApcDeviceType) (version : Option ℕ) (hint : Option ApcDeviceType)
    → (should_probe_device_type stored version hint ≡ false) ↔ (
        (is_concrete_device_type stored ≡ true)
        × (version ≡ some detection_version)
        × ((is_concrete_device_type hint ≡ false) ⊎ (hint ≡ stored)))
unfolding should_probe_device_type
should_probe_exact stored version hint = ground arith
