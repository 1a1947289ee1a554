-- ===== src/Coordinator/Identity.antt =====
-- What the coordinator learns of a device over Modbus (custom_components/apc_modbus/coordinator.py):
-- the capabilities of a rack PDU, the identity of an SMT or SmartConnect device, and the pacing
-- that a device family asks for. Times are milliseconds.
pub mod Capabilities
mod Tests
use Prim.Native.String.{◌++◌ as append}
use apc_modbus_snmp_ha.Prelude.{
  ℕ, ◌+◌, String, Bool, true, false, not, ◌&&◌, ◌||◌, Option, none, some, List, [], ◌∷◌, ◌++◌, take,
  drop, length, ◌==◌, if◌then◌else◌,
}
use apc_modbus_snmp_ha.Prelude.Dict.{Dict, insert}
use apc_modbus_snmp_ha.Decode.{decode_text}
use apc_modbus_snmp_ha.Device.{
  ApcDeviceType, smart_ups, smt_ups, smartconnect_ups, rack_pdu, is_same,
}
use apc_modbus_snmp_ha.Modbus.{
  Response, Outcome, returned, raised, Client, is_error_response, registers_of,
}
use apc_modbus_snmp_ha.Transport.{
  Transport, Action, ◌>>=◌, pure, branch, is_connection_failure, ensure_connection,
}
use apc_modbus_snmp_ha.Coordinator.Detection.{is_probe_failure, run_read_request}
use apc_modbus_snmp_ha.Coordinator.Enrichment.{
  Text, Enrichment, is_unavailable, is_truthy_text, set_device_metadata, clean_metadata_value,
}

-- `capability_regs`
abbrev pub capability_regs : List (String × ℕ)
capability_regs =
    ("num_phases", 0x009E)
    ∷ ("num_metered_phases", 0x009F)
    ∷ ("num_banks", 0x00A0)
    ∷ ("num_outlets", 0x00A1)
    ∷ ("num_metered_outlets", 0x00A2)
    ∷ []

-- The capability of a response, where it has one
abbrev pub capability_value : Response → Option ℕ
capability_value result =
    if is_error_response result
    then none
    else elim (registers_of result) [ [] ↦ none | r ∷ _ ↦ some r ]

abbrev pub take_capability : String → Response → Dict ℕ → Dict ℕ
take_capability name result capabilities = elim (capability_value result) [
  | none ↦ capabilities
  | some r ↦ insert name r capabilities
]

-- The family is stored with its pacing: `_post_connect_delay` and `_min_reconnect_delay` are the
-- transport's, and `device_type` and `_inter_block_delay` are beside it.
pub record Pacing : Type 0 where
  pub device_type : ApcDeviceType
  pub inter_block_delay : ℕ
  pub transport : Transport

abbrev pub set_device_type : ApcDeviceType → Pacing → Pacing
set_device_type device_type p =
    let stored = record p { device_type = device_type } in
    if is_same device_type rack_pdu
    then record stored {
      inter_block_delay = 100;
      transport = record p.transport { post_connect_delay = 100 };
    }
    else if is_same device_type smartconnect_ups
    then record stored { transport = record p.transport { min_reconnect_delay = 2000 } }
    else stored

-- `get_device_model_for_registry`; the texts are those of the source, for a model that is none or
-- empty.
pub data RegistryModel : Type 0 where
  model_of : Text → RegistryModel
  rack_pdu_model smart_ups_model smartconnect_ups_model apc_device_model : RegistryModel

unfoldable family_model : ApcDeviceType → RegistryModel
family_model rack_pdu = rack_pdu_model
family_model smart_ups = smart_ups_model
family_model smt_ups = smart_ups_model
family_model smartconnect_ups = smartconnect_ups_model
family_model _ = apc_device_model

abbrev get_device_model_for_registry : ApcDeviceType → Enrichment → RegistryModel
get_device_model_for_registry device_type e = elim e.hw_model [
  | some (c ∷ cs) ↦ model_of (c ∷ cs)
  | _ ↦ family_model device_type
]

-- The raw texts of the identity registers
pub record Identity : Type 0 where
  pub raw_modbus_firmware : Option Text
  pub raw_modbus_model : Option Text
  pub raw_modbus_sku : Option Text

-- `decode_ascii(offset, count)`: an empty slice gives the empty text.
abbrev decode_ascii : List ℕ → ℕ → ℕ → Text
decode_ascii registers offset count = decode_text 2 (take count (drop offset registers))

abbrev is_empty : Text → Bool
is_empty [] = true
is_empty (_ ∷ _) = false

-- `f"{model} ({sku})" if model and sku else model or sku`
abbrev hardware_model : Text → Text → Text
hardware_model [] sku = sku
hardware_model (m ∷ ms) [] = m ∷ ms
hardware_model (m ∷ ms) (s ∷ ss) = (m ∷ ms) ++ (32 ∷ 40 ∷ [] ++ ((s ∷ ss) ++ (41 ∷ [])))

-- `async_read_modbus_metadata` behind the read of its 56 registers
unfoldable pub take_identity : List ℕ → Identity × Enrichment → Bool × Identity × Enrichment
take_identity registers (identity, e) =
    let firmware = decode_ascii registers 0 8 in
    let model = decode_ascii registers 16 16 in
    let sku = decode_ascii registers 32 16 in
    let serial_number = decode_ascii registers 48 8 in
    let read : Identity = record {
      raw_modbus_firmware = clean_metadata_value (some firmware);
      raw_modbus_model = clean_metadata_value (some model);
      raw_modbus_sku = clean_metadata_value (some sku);
    } in
    if is_empty firmware && is_empty model && is_empty serial_number
    then (false, identity, e)
    else if not (is_unavailable e.snmp_availability)
    then (true, read, e)
    else (
      true,
      read,
      set_device_metadata (some (hardware_model model sku)) (some serial_number) (some firmware)
          none none e,
    )

abbrev identity_of : Response → Option (List ℕ)
identity_of result =
    if is_error_response result || not (length (registers_of result) == 56)
    then none
    else some (registers_of result)

module _ (client : Client) where
  -- The read of `async_read_modbus_metadata`, none where it returns False before it decodes
  pub read_identity : ApcDeviceType → Action (Option (List ℕ))
  read_identity device_type =
      branch (is_same device_type smt_ups || is_same device_type smartconnect_ups)
        (ensure_connection client >>= λ ok. branch ok attempt (pure none)) (pure none)
    where
      attempt : Action (Option (List ℕ))
      attempt t =
          let (r, t') = run_read_request client 0x0204 56 t in
          elim r [
            | returned result ↦ (returned (identity_of result), t')
            | raised e ↦ (if is_connection_failure e.kind then returned none else raised e, t')
          ]

  -- One round of the loop of `async_discover_capabilities`
  pub read_capability : String → ℕ → Dict ℕ → Action (Dict ℕ)
  read_capability name address capabilities t =
      let (r, t') = run_read_request client address 1 t in
      elim r [
        | returned result ↦ (returned (take_capability name result capabilities), t')
        | raised e ↦ (if is_probe_failure e.kind then returned capabilities else raised e, t')
      ]

  pub read_capabilities : List (String × ℕ) → Dict ℕ → Action (Dict ℕ)
  read_capabilities [] capabilities = pure capabilities
  read_capabilities ((name, address) ∷ rest) capabilities =
      read_capability name address capabilities >>= read_capabilities rest

  pub async_discover_capabilities : Action (Dict ℕ)
  async_discover_capabilities = read_capabilities capability_regs []
