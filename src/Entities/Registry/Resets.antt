-- ===== src/Entities/Registry/Resets.antt =====
-- A reset of the monitors settles the registry, and disables every command button.
use apc_modbus_snmp_ha.Prelude.{
  ◌+◌, String, ◌≡◌, Bool, true, false, ◌||◌, Option, none, some, List, ◌++◌, any, all, ◌⊎◌,
}
use apc_modbus_snmp_ha.Prelude.Texts.{codes, same_text}
use apc_modbus_snmp_ha.Coordinator.Enrichment.{Text}
use apc_modbus_snmp_ha.Commands.{ModbusCommand}
use apc_modbus_snmp_ha.Snmp.Commands.{SnmpCommand}
use apc_modbus_snmp_ha.Device.{ApcDeviceType}
use apc_modbus_snmp_ha.Entities.Buttons.{command_buttons, snmp_command_buttons}
use apc_modbus_snmp_ha.Entities.Registry.{
  button, RegistryEntry, Reset, id_prefix, is_write_key, decision, target_disabled_by,
  async_reset_entry_monitors_to_defaults,
}

module _ (entry_id : Text) (device_family : String) where
  abbrev reset : List RegistryEntry → Reset
  reset = async_reset_entry_monitors_to_defaults entry_id device_family

  -- A second reset changes nothing, and counts as unchanged what the first decided.
  abbrev pub IsSettled : Reset → Type 0
  IsSettled r =
      (reset r.entries).entries ≡ r.entries
      × ((reset r.entries).enabled_count ≡ 0)
      × ((reset r.entries).disabled_count ≡ 0)
      × ((reset r.entries).unchanged_count ≡ r.enabled_count + r.disabled_count + r.unchanged_count)

  -- The entry is as the defaults say, where they say anything of it.
  abbrev pub IsDecided : RegistryEntry → Type 0
  IsDecided e =
      (decision entry_id device_family e ≡ none)
      ⊎ ((enable : Bool) × (decision entry_id device_family e ≡ some enable)
          × (e.disabled_by ≡ target_disabled_by enable))

abbrev has_write_key : Option String → Bool
has_write_key none = false
has_write_key (some key) = is_write_key (codes key)

abbrev modbus_key : Option ModbusCommand → Option String
modbus_key none = none
modbus_key (some m) = some m.key

abbrev snmp_key : Option SnmpCommand → Option String
snmp_key none = none
snmp_key (some m) = some m.key

abbrev is_named : Text → Option String → Bool
is_named key none = false
is_named key (some k) = same_text (codes k) key

-- A key of a button of the family
abbrev pub is_button_key : ApcDeviceType → Text → Bool
is_button_key device_type key =
    any (λ c. is_named key (modbus_key c)) (command_buttons device_type)
    || any (λ c. is_named key (snmp_key c)) (snmp_command_buttons device_type)

abbrev AllWrites : ApcDeviceType → Type 0
AllWrites d =
    (all (λ c. has_write_key (modbus_key c)) (command_buttons d) ≡ true)
    × (all (λ c. has_write_key (snmp_key c)) (snmp_command_buttons d) ≡ true)

-- The entry is the button of a command of the family.
abbrev pub IsCommandButton : Text → ApcDeviceType → RegistryEntry → Type 0
IsCommandButton entry_id device_type e =
    (key : Text) × (e.domain ≡ button)
    × (e.unique_id ≡ some (id_prefix entry_id ++ key))
    × (is_button_key device_type key ≡ true)
