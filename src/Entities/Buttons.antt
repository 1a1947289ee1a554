-- ===== src/Entities/Buttons.antt =====
-- The command buttons that custom_components/apc_modbus/button.py builds for a family, and what a press
-- of one sends.
use text.Mathlib.Text.{starts_with}
use Prim.Native.String.{◌++◌ as append}
use apc_modbus_snmp_ha.Prelude.{
  ℕ, String, Option, none, some, List, [], ◌∷◌, ◌++◌, map, if◌then◌else◌,
}
use apc_modbus_snmp_ha.Prelude.Dict.{Dict, lookup}
use apc_modbus_snmp_ha.Device.{ApcDeviceType}
use apc_modbus_snmp_ha.Modbus.{Client, Outcome}
use apc_modbus_snmp_ha.Transport.{Action}
use apc_modbus_snmp_ha.Transport
use apc_modbus_snmp_ha.Commands.{
  ModbusCommand, commands, outlet_action_bits, outlet_target_bits, get_command,
}
use apc_modbus_snmp_ha.Snmp.Commands.{
  SnmpCommand, SetAnswer, legacy_snmp_commands, async_set_snmp_integer,
}
use apc_modbus_snmp_ha.Entities.Profiles.{get_device_profile}

unfoldable pub keys_of {ℓ} : {V : Type ℓ} → Dict V → List String
keys_of [] = []
keys_of ((key, v) ∷ rest) = key ∷ keys_of rest

-- `OUTLET_TARGET_BITS if command_key.startswith("outlet_") else (None,)`
abbrev targets_of : String → List (Option String)
targets_of command_key =
    if starts_with command_key "outlet_" then map some (keys_of outlet_target_bits) else none ∷ []

-- The commands of the buttons in their order; `none` is the ValueError of `get_command`.
unfoldable pub commands_for : List String → List (Option ModbusCommand)
unfolding keys_of
commands_for [] = []
commands_for (command_key ∷ rest) =
    map (get_command command_key) (targets_of command_key) ++ commands_for rest

unfoldable pub command_buttons : ApcDeviceType → List (Option ModbusCommand)
command_buttons device_type = commands_for (get_device_profile device_type).command_operations

-- The SNMP buttons; `none` is a KeyError.
unfoldable pub snmp_command_buttons : ApcDeviceType → List (Option SnmpCommand)
snmp_command_buttons device_type =
    map (λ key. lookup key legacy_snmp_commands)
      (get_device_profile device_type).snmp_command_operations

-- `APCModbusCommandButton.async_press`
pub press : Client → ModbusCommand → Action (Unit {0})
press client command = Transport.write client command.address command.words

-- `APCSnmpCommandButton.async_press`
pub snmp_press : (String → ℕ → SetAnswer) → SnmpCommand → Outcome (Unit {0})
snmp_press agent command = async_set_snmp_integer agent command.oid command.value

-- f"{action}_{target}" for every action and target
unfoldable pub outlet_keys_for : String → List String → List String
outlet_keys_for action [] = []
outlet_keys_for action (target ∷ rest) =
    append (append action "_") target ∷ outlet_keys_for action rest

unfoldable pub outlet_keys : List String → List String
outlet_keys [] = []
outlet_keys (action ∷ rest) =
    outlet_keys_for action (keys_of outlet_target_bits) ++ outlet_keys rest

-- WRITE_ENTITY_KEYS
unfoldable pub write_entity_keys : List String
unfolding keys_of outlet_keys outlet_keys_for
write_entity_keys =
    keys_of commands
    ++ (keys_of legacy_snmp_commands
        ++ ("battery_installation_date" ∷ outlet_keys (keys_of outlet_action_bits)))
