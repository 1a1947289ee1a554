-- ===== src/Setup.antt =====
-- The setup of an entry (custom_components/apc_modbus/__init__.py, async_setup_entry) and the change of
-- its settings (config_flow.py), over the coordinator's state. The SNMP query and the first refresh are
-- arguments: the query by the stored family, the refresh by the registers that it polls. What the
-- code writes to an entry's data is the family, the detection version and the transport mode.
pub mod Steps
pub mod Keeping
pub mod Classified
pub mod Settings
mod Tests
use apc_modbus_snmp_ha.Prelude.{
  ℕ, ◌+◌, Bool, true, false, not, ◌&&◌, ◌||◌, Option, none, some, List, [], ◌∷◌, ltb, if◌then◌else◌,
}
use apc_modbus_snmp_ha.Prelude.Dict.{Dict}
use apc_modbus_snmp_ha.Device.{
  ApcDeviceType, smt_ups, rack_pdu, is_same, is_same_or_none, is_current, detection_version,
  is_concrete_device_type, should_probe_device_type, choose_device_type,
}
use apc_modbus_snmp_ha.Modbus.{
  ExceptionKind, os_error, timeout_error, runtime_error, value_error, Raised, Outcome, returned,
  raised, Client,
}
use apc_modbus_snmp_ha.Registers.Factory.{Profile, get_registers_for_device}
use apc_modbus_snmp_ha.Transport.{Transport, Mode, session, Action, client_connect, sleep}
use apc_modbus_snmp_ha.Poller.Tracking.{Keeper, restore_tracker}
use apc_modbus_snmp_ha.Coordinator.Enrichment.{
  Text, Metadata, MetadataAnswer, metadata_raised, metadata_returned, Enrichment, exception,
  no_metadata, is_truthy_text, set_device_metadata, set_available, set_unavailable,
}
use apc_modbus_snmp_ha.Coordinator.Enrichment.Merging.{Data}
use apc_modbus_snmp_ha.Coordinator.Detection.{async_detect_device_type}
use apc_modbus_snmp_ha.Coordinator.Identity.{
  Identity, Pacing, set_device_type, take_identity, read_identity, async_discover_capabilities,
}
use apc_modbus_snmp_ha.Snmp.Models.{detect_device_type}
use apc_modbus_snmp_ha.Entities.Registry.{RegistryEntry, Shown, async_cleanup_stale_entities}
use apc_modbus_snmp_ha.Setup.Steps.{
  EntryData, State, Setup, Ending, done, not_ready, failed, ◌>>=◌, ◌>>◌, give, refuse, get, change,
  when, on_transport,
}

-- The exceptions that the setup takes for an optional step's failure
abbrev pub is_optional_failure : ExceptionKind → Bool
is_optional_failure os_error = true
is_optional_failure timeout_error = true
is_optional_failure runtime_error = true
is_optional_failure value_error = true
is_optional_failure _ = false

abbrev pub has_identity : Metadata → Bool
has_identity m =
    is_truthy_text m.model || is_truthy_text m.serial_number || is_truthy_text m.firmware_version

abbrev hint_of : Metadata → Option ApcDeviceType
hint_of m = if is_truthy_text m.model then some (detect_device_type m.model) else none

abbrev take_found : Metadata → Enrichment → Enrichment
take_found m e =
    set_available
      (set_device_metadata m.model m.serial_number m.firmware_version m.firmware_date none e)

-- The SNMP query with its hint of a family
abbrev pub query_hint : MetadataAnswer → Setup (Option ApcDeviceType)
query_hint (metadata_raised kind) s =
    if is_optional_failure kind
    then (done none, record s { enrichment = set_unavailable (exception kind) s.enrichment })
    else (failed kind, s)
query_hint (metadata_returned m) s =
    if has_identity m
    then (done (hint_of m), record s { enrichment = take_found m s.enrichment })
    else (done none, record s { enrichment = set_unavailable no_metadata s.enrichment })

-- An optional step: its failures give the default.
abbrev pub or_default : {A : Type 0} → A → Setup A → Setup A
or_default default m s =
    let (r, s') = m s in
    elim r [
      | done a ↦ (done a, s')
      | not_ready ↦ (not_ready, s')
      | failed kind ↦ (if is_optional_failure kind then done default else failed kind, s')
    ]

abbrev pub select_family : Option ApcDeviceType → Option ApcDeviceType → Setup ApcDeviceType
select_family stored detected = elim (choose_device_type stored detected) [
  | none ↦ refuse
  | some device_type ↦ give device_type
]

-- The update of the entry's data, where it brings something new
abbrev pub persist_family : ApcDeviceType → EntryData → EntryData
persist_family device_type e =
    if is_concrete_device_type (some device_type)
      && (not (is_same_or_none (some device_type) e.device_type)
          || not (is_current e.detection_version))
    then record e { device_type = some device_type; detection_version = some detection_version }
    else e

abbrev pub store_family : ApcDeviceType → State → State
store_family device_type s = record s { entry = persist_family device_type s.entry }

abbrev take_pacing : Pacing → State → State
take_pacing p s = record s {
  device_type = p.device_type;
  inter_block_delay = p.inter_block_delay;
  transport = p.transport;
}

-- `coordinator.set_device_type`, the restored tracker of an SMT device, and the registers
abbrev pub adopt_family : ApcDeviceType → State → State
adopt_family device_type s =
    let paced =
      take_pacing
        (set_device_type device_type (record {
          device_type = s.device_type;
          inter_block_delay = s.inter_block_delay;
          transport = s.transport;
        }))
        s in
    record paced {
      keeper =
          if is_same device_type smt_ups then restore_tracker s.rollovers s.keeper else s.keeper;
      registers = get_registers_for_device device_type;
    }

abbrev pub take_registers : Option (List ℕ) → State → State
take_registers none s = s
take_registers (some registers) s =
    let (_, identity, enrichment) = take_identity registers (s.identity, s.enrichment) in
    record s { identity = identity; enrichment = enrichment }

-- `if capabilities: coordinator.set_capabilities(capabilities)`
abbrev pub set_capabilities : Dict ℕ → State → State
set_capabilities [] s = s
set_capabilities (c ∷ cs) s = record s { capabilities = c ∷ cs }

abbrev shown : State → Shown
shown s = record {
  device_type = s.device_type;
  device_capabilities = s.capabilities;
  snmp_availability = s.enrichment.snmp_availability;
  probe_detection = s.enrichment.snmp_probe_detection;
  values = s.values;
}

-- The first refresh: the data, or none where it fails; it may change the rest of the state that it
-- is given.
abbrev pub Refresh : Type 0
Refresh = Profile → Transport × Enrichment × Keeper → Option Data × Transport × Enrichment × Keeper

abbrev pub first_refresh : Refresh → Setup (Unit {0})
first_refresh refresh s =
    let (values, transport, enrichment, keeper) =
      refresh s.registers (s.transport, s.enrichment, s.keeper) in
    let s' = record s { transport = transport; enrichment = enrichment; keeper = keeper } in
    elim values [ none ↦ (not_ready, s') | some d ↦ (done tt, record s' { values = d }) ]

abbrev pub clean_up : Text → State → State
clean_up entry_id s = record s {
  registry = async_cleanup_stale_entities (shown s) entry_id s.registry;
}

-- The capabilities of a rack PDU
abbrev pub explore : Client → Setup (Unit {0})
explore client = do
  capabilities ← or_default [] (on_transport (async_discover_capabilities client))
  change (set_capabilities capabilities)

module _ (client : Client) (query : Option ApcDeviceType → MetadataAnswer) (refresh : Refresh)
    (entry_id : Text) (startup_stagger_delay : ℕ) where
  abbrev pub detect : Option ApcDeviceType → Setup (Option ApcDeviceType)
  detect hint s =
      let probe = should_probe_device_type s.entry.device_type s.entry.detection_version hint in
      when probe none
        (or_default none (on_transport (async_detect_device_type client s.inter_block_delay))) s

  -- Up to the choice of a family, which leaves the entry as it is
  pub find_family : Setup ApcDeviceType
  find_family = do
    connected ← on_transport (client_connect client)
    when (not connected) tt refuse
    stored ← get (λ s. s.entry.device_type)
    when (ltb 0 startup_stagger_delay) tt (on_transport (sleep startup_stagger_delay))
    hint ← query_hint (query stored)
    detected ← detect hint
    select_family stored detected

  -- Behind the choice
  pub finish_setup : ApcDeviceType → Setup (Unit {0})
  finish_setup device_type = do
    registers ← on_transport (read_identity client device_type)
    change (take_registers registers)
    when (is_same device_type rack_pdu) tt (explore client)
    first_refresh refresh
    change (clean_up entry_id)

  pub async_setup_entry : Setup (Unit {0})
  async_setup_entry = do
    device_type ← find_family
    change (store_family device_type)
    change (adopt_family device_type)
    finish_setup device_type
