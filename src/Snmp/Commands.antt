-- ===== src/Snmp/Commands.antt =====
-- custom_components/apc_modbus/snmp_commands.py, and the SET request that sends such a command
-- (snmp_helper.py). The display names are not modelled.
use apc_modbus_snmp_ha.Prelude.{ℕ, String, [], ◌∷◌}
use apc_modbus_snmp_ha.Prelude.Dict.{Dict}
use apc_modbus_snmp_ha.Modbus.{Raised, runtime_error, Outcome, returned, raised}
use apc_modbus_snmp_ha.Transport.{plain_error}

pub record SnmpCommand : Type 0 where
  pub key : String
  pub oid : String
  pub value : ℕ

abbrev snmp_command : String → String → SnmpCommand
snmp_command key oid = record { key = key; oid = oid; value = 2 }

abbrev pub legacy_snmp_commands : Dict SnmpCommand
legacy_snmp_commands =
    ("conserve_battery", snmp_command "conserve_battery" "1.3.6.1.4.1.318.1.1.1.6.1.1.0")
    ∷ ("ups_off", snmp_command "ups_off" "1.3.6.1.4.1.318.1.1.1.6.2.1.0")
    ∷ ("ups_reboot", snmp_command "ups_reboot" "1.3.6.1.4.1.318.1.1.1.6.2.2.0")
    ∷ ("ups_sleep", snmp_command "ups_sleep" "1.3.6.1.4.1.318.1.1.1.6.2.3.0")
    ∷ (
      "simulate_power_failure",
      snmp_command "simulate_power_failure" "1.3.6.1.4.1.318.1.1.1.6.2.4.0",
    )
    ∷ ("alarm_test", snmp_command "alarm_test" "1.3.6.1.4.1.318.1.1.1.6.2.5.0")
    ∷ ("ups_turn_on", snmp_command "ups_turn_on" "1.3.6.1.4.1.318.1.1.1.6.2.6.0")
    ∷ ("battery_self_test", snmp_command "battery_self_test" "1.3.6.1.4.1.318.1.1.1.7.2.2.0")
    ∷ []

-- What a SET yields: an exception, an indication or status of an error, or its success
pub data SetAnswer : Type 0 where
  set_raised : Raised → SetAnswer
  set_refused set_done : SetAnswer

-- `async_set_snmp_integer`, for an agent that is given the OID and the value
pub async_set_snmp_integer : (String → ℕ → SetAnswer) → String → ℕ → Outcome (Unit {0})
async_set_snmp_integer agent oid value = elim (agent oid value) [
  | set_raised e ↦ raised e
  | set_refused ↦ raised (plain_error runtime_error)
  | set_done ↦ returned tt
]
