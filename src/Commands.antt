-- ===== src/Commands.antt =====
-- custom_components/apc_modbus/modbus_commands.py: the fixed encodings of the commands that a button
-- sends through the transport. The display names are not modelled.
pub mod Encoding
mod Tests
use Prim.Native.Nat.{bit_or}
use Prim.Native.String.{◌++◌ as append}
use apc_modbus_snmp_ha.Prelude.{ℕ, String, Option, none, some, List, [], ◌∷◌, is_some}
use apc_modbus_snmp_ha.Prelude.Bits.{shl, shr, low_bits}
use apc_modbus_snmp_ha.Prelude.Dict.{Dict, lookup}

pub record ModbusCommand : Type 0 where
  pub key : String
  pub address : ℕ
  pub words : List ℕ

abbrev pub command : String → ℕ → List ℕ → ModbusCommand
command key address words = record { key = key; address = address; words = words }

-- COMMANDS
abbrev pub commands : Dict ModbusCommand
commands =
    ("bypass_enter", command "bypass_enter" 0x0600 (0 ∷ 16 ∷ []))
    ∷ ("bypass_exit", command "bypass_exit" 0x0600 (0 ∷ 32 ∷ []))
    ∷ ("battery_test_start", command "battery_test_start" 0x0605 (1 ∷ []))
    ∷ ("battery_test_abort", command "battery_test_abort" 0x0605 (2 ∷ []))
    ∷ ("calibration_start", command "calibration_start" 0x0606 (1 ∷ []))
    ∷ ("calibration_abort", command "calibration_abort" 0x0606 (2 ∷ []))
    ∷ ("alarm_mute", command "alarm_mute" 0x0607 (4 ∷ []))
    ∷ ("alarm_cancel_mute", command "alarm_cancel_mute" 0x0607 (8 ∷ []))
    ∷ ("battery_alarm_acknowledge", command "battery_alarm_acknowledge" 0x0607 (32 ∷ []))
    ∷ []

-- OUTLET_ACTION_BITS
abbrev pub outlet_action_bits : Dict ℕ
outlet_action_bits =
    ("outlet_cancel", 0)
    ∷ ("outlet_on", 1)
    ∷ ("outlet_off", 2)
    ∷ ("outlet_shutdown", 3)
    ∷ ("outlet_reboot", 4)
    ∷ []

-- OUTLET_TARGET_BITS
abbrev pub outlet_target_bits : Dict ℕ
outlet_target_bits =
    ("main_outlet_group", 8)
    ∷ ("switched_outlet_group_1", 9)
    ∷ ("switched_outlet_group_2", 10)
    ∷ ("switched_outlet_group_3", 11)
    ∷ []

-- The action's bit, the target's bit and bit 17
unfoldable pub outlet_value : ℕ → ℕ → ℕ
outlet_value action target = bit_or (bit_or (shl 1 action) (shl 1 target)) (shl 1 17)

abbrev pub outlet_command : String → String → ℕ → ℕ → ModbusCommand
outlet_command key target action bit =
    command (append (append key "_") target) 0x0602
      (low_bits (shr (outlet_value action bit) 16) 16 ∷ low_bits (outlet_value action bit) 16 ∷ [])

abbrev pub outlet_lookup : String → String → Option ModbusCommand
outlet_lookup key target = elim (lookup key outlet_action_bits) [
  | none ↦ none
  | some action ↦ elim (lookup target outlet_target_bits) [
    | none ↦ none
    | some bit ↦ some (outlet_command key target action bit)
  ]
]

-- `get_command`; `none` where it raises ValueError. A fixed command that is given a target is looked
-- up among the outlet commands.
unfoldable pub get_command : String → Option String → Option ModbusCommand
get_command key none = lookup key commands
get_command key (some target) = outlet_lookup key target
