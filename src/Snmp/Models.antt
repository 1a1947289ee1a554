-- ===== src/Snmp/Models.antt =====
-- The metadata query of custom_components/apc_modbus/snmp_helper.py, and the family that a model name
-- suggests.
use apc_modbus_snmp_ha.Prelude.{
  ℕ, ◌-◌, String, Bool, not, ◌&&◌, ◌||◌, Option, none, some, [], ◌∷◌, ◌++◌, leb, ◌==◌,
  if◌then◌else◌,
}
use apc_modbus_snmp_ha.Prelude.Texts.{codes, starts, contains}
use apc_modbus_snmp_ha.Device.{ApcDeviceType, ups, smart_ups, smt_ups, rack_pdu, unknown}
use apc_modbus_snmp_ha.Coordinator.Enrichment.{Text, Metadata, is_truthy_text}
use apc_modbus_snmp_ha.Snmp.{Agent, gathered}

-- `query_metadata_for_type` with the OIDs of the model, the serial number, the firmware and its date
abbrev query_metadata : Agent → String → String → String → String → Metadata
query_metadata agent oid_model oid_serial oid_firmware oid_firmware_date = record {
  model = gathered (agent oid_model);
  serial_number = gathered (agent oid_serial);
  firmware_version = gathered (agent oid_firmware);
  firmware_date = gathered (agent oid_firmware_date);
}

unfoldable pub query_metadata_for_type : Agent → ApcDeviceType → Metadata
query_metadata_for_type agent rack_pdu =
    query_metadata agent "1.3.6.1.4.1.318.1.1.12.1.5.0" "1.3.6.1.4.1.318.1.1.12.1.6.0"
      "1.3.6.1.4.1.318.1.1.12.1.3.0" "1.3.6.1.4.1.318.1.1.12.1.4.0"
query_metadata_for_type agent _ =
    query_metadata agent "1.3.6.1.4.1.318.1.1.1.1.1.1.0" "1.3.6.1.4.1.318.1.1.1.1.2.3.0"
      "1.3.6.1.4.1.318.1.1.1.1.2.1.0" "1.3.6.1.4.1.318.1.1.1.1.2.2.0"

-- Both queries, where the family is not known
abbrev either_metadata : Agent → Metadata
either_metadata agent =
    let rackpdu_metadata = query_metadata_for_type agent rack_pdu in
    if is_truthy_text rackpdu_metadata.model
    then rackpdu_metadata
    else query_metadata_for_type agent smart_ups

-- `async_get_device_metadata`
unfoldable pub async_get_device_metadata : Agent → Option ApcDeviceType → Metadata
async_get_device_metadata agent none = either_metadata agent
async_get_device_metadata agent (some ups) = either_metadata agent
async_get_device_metadata agent (some unknown) = either_metadata agent
async_get_device_metadata agent (some device_type) = query_metadata_for_type agent device_type

-- `str.upper` on code points below 256: a sharp s becomes two letters, and the upper case of the
-- micro sign and of y with diaeresis lies above.
abbrev upper_char : ℕ → Text
upper_char c =
    if c == 223
    then 83 ∷ 83 ∷ []
    else if c == 181
    then 924 ∷ []
    else if c == 255
    then 376 ∷ []
    else if (leb b'a' c && leb c b'z') || (leb 224 c && leb c 254 && not (c == 247))
    then (c - 32) ∷ []
    else c ∷ []

unfoldable pub upper : Text → Text
upper [] = []
upper (c ∷ cs) = upper_char c ++ upper cs

abbrev is_rack_pdu_model : Text → Bool
is_rack_pdu_model model_upper =
    contains (codes "AP8") model_upper
    || starts (codes "APDU") model_upper
    || contains (codes "RACK PDU") model_upper

abbrev is_smt_model : Text → Bool
is_smt_model model_upper =
    starts (codes "SMT") model_upper
    || starts (codes "SMX") model_upper
    || starts (codes "SRT") model_upper
    || contains (codes "SMART-UPS X") model_upper
    || contains (codes "SMART UPS X") model_upper
    || contains (codes "SMART-UPS SMT") model_upper
    || contains (codes "SMART-UPS SMX") model_upper
    || contains (codes "SMART-UPS SRT") model_upper

abbrev pub family_of : Text → ApcDeviceType
family_of model_upper =
    if is_rack_pdu_model model_upper
    then rack_pdu
    else if is_smt_model model_upper
    then smt_ups
    else smart_ups

-- `detect_device_type`: the patterns of the legacy models and the default both give SMART_UPS.
unfoldable pub detect_device_type : Option Text → ApcDeviceType
detect_device_type none = smart_ups
detect_device_type (some []) = smart_ups
detect_device_type (some (c ∷ cs)) = family_of (upper (c ∷ cs))
