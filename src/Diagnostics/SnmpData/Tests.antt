-- ===== src/Diagnostics/SnmpData/Tests.antt =====
-- An agent with a frequency in tenths under the second identifier.
use mathlib.Core.Option
use apc_modbus_snmp_ha.Prelude.{◌≡◌, some, [], ◌∷◌, str_eq, if◌then◌else◌}
use apc_modbus_snmp_ha.Prelude.Dict.{lookup}
use apc_modbus_snmp_ha.Prelude.Texts.{codes}
use apc_modbus_snmp_ha.Snmp.{Agent, error_status, var_binds}
use apc_modbus_snmp_ha.Snmp.Probes.{
  async_detect_external_probe_oids, get_oid, async_get_external_probe_data_detected,
}
use apc_modbus_snmp_ha.Diagnostics.SnmpData.{collect_snmp_data, decode_snmp_input_frequency}
use apc_modbus_snmp_ha.Diagnostics.SnmpData.Frequency.{
  source_oid, decode_snmp_input_frequency-agrees,
}

abbrev agent : Agent
agent oid =
    if str_eq oid "1.3.6.1.2.1.33.1.3.3.1.2.1" then var_binds (codes "599" ∷ []) else error_status

decode_snmp_input_frequency-agrees_example :
    (lookup "snmp_input_frequency"
        (async_get_external_probe_data_detected agent (async_detect_external_probe_oids agent))
      ≡ Option.map (λ found. some found.0) (decode_snmp_input_frequency (collect_snmp_data agent)))
    × (get_oid "frequency_oid" (async_detect_external_probe_oids agent)
        ≡ source_oid (decode_snmp_input_frequency (collect_snmp_data agent)))
decode_snmp_input_frequency-agrees_example = decode_snmp_input_frequency-agrees agent
