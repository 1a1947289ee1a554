-- ===== src/Commands/Tests.antt =====
-- One fixed command and one outlet command.
use apc_modbus_snmp_ha.Prelude.{◌≡◌, refl, none, some, [], ◌∷◌}
use apc_modbus_snmp_ha.Prelude.Dict.{lookup}
use apc_modbus_snmp_ha.Commands.{ModbusCommand, command, get_command, outlet_value}

abbrev reboot_group_1 : ModbusCommand
reboot_group_1 = command "outlet_reboot_switched_outlet_group_1" 0x0602 (2 ∷ 0x0210 ∷ [])

reboot : get_command "outlet_reboot" (some "switched_outlet_group_1") ≡ some reboot_group_1
unfolding get_command lookup outlet_value
reboot = refl

mute : get_command "alarm_mute" none ≡ some (command "alarm_mute" 0x0607 (4 ∷ []))
unfolding get_command lookup
mute = refl
