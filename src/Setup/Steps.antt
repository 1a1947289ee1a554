-- ===== src/Setup/Steps.antt =====
-- The state of a setup and its steps, which may end it: not ready, for Home Assistant to try again, or
-- by an exception.
use apc_modbus_snmp_ha.Prelude.{ℕ, String, Bool, not, ◌&&◌, Option, some, List, if◌then◌else◌}
use apc_modbus_snmp_ha.Prelude.Dict.{Dict}
use apc_modbus_snmp_ha.Device.{ApcDeviceType}
use apc_modbus_snmp_ha.Modbus.{ExceptionKind, returned, raised}
use apc_modbus_snmp_ha.Registers.Factory.{Profile}
use apc_modbus_snmp_ha.Transport.{Transport, Mode, Action, is_session}
use apc_modbus_snmp_ha.Poller.Tracking.{Keeper}
use apc_modbus_snmp_ha.Coordinator.Enrichment.{Enrichment}
use apc_modbus_snmp_ha.Coordinator.Enrichment.Merging.{Data}
use apc_modbus_snmp_ha.Coordinator.Identity.{Identity}
use apc_modbus_snmp_ha.Entities.Registry.{RegistryEntry}

-- The data of a config entry: the endpoint and what the integration stores itself; the other
-- settings are not modelled.
pub record EntryData : Type 0 where
  pub host : String
  pub port : ℕ
  pub unit : ℕ
  pub device_type : Option ApcDeviceType
  pub detection_version : Option ℕ
  pub transport_mode : Option Mode

pub record State : Type 0 where
  pub entry : EntryData
  pub device_type : ApcDeviceType
  pub inter_block_delay : ℕ
  pub transport : Transport
  pub enrichment : Enrichment
  pub identity : Identity
  pub capabilities : Dict ℕ
  pub registers : Profile
  pub rollovers : ℕ
  pub keeper : Keeper
  pub values : Data
  pub registry : List RegistryEntry

pub data Ending (A : Type 0) : Type 0 where
  done : A → Ending A
  not_ready : Ending A
  failed : ExceptionKind → Ending A

abbrev pub Setup : Type 0 → Type 0
Setup A = State → Ending A × State

-- A promotion of the transport's mode is stored in the entry.
abbrev persist_mode : Transport → Transport → EntryData → EntryData
persist_mode t t' e = record e {
  transport_mode =
      if is_session t.mode && not (is_session t'.mode) then some t'.mode else e.transport_mode;
}

abbrev pub set_transport : Transport → State → State
set_transport t s = record s { transport = t; entry = persist_mode s.transport t s.entry }

infixl 5 ◌>>=◌ ◌>>◌
abbrev pub ◌>>=◌ : {A B : Type 0} → Setup A → (A → Setup B) → Setup B
◌>>=◌ m f s =
    let (r, s') = m s in
    elim r [ done a ↦ f a s' | not_ready ↦ (not_ready, s') | failed kind ↦ (failed kind, s') ]

abbrev pub ◌>>◌ : {A B : Type 0} → Setup A → Setup B → Setup B
m >> k = m >>= λ _. k

module _ {A : Type 0} where
  abbrev pub give : A → Setup A
  give a s = (done a, s)

  abbrev pub refuse : Setup A
  refuse s = (not_ready, s)

  abbrev pub get : (State → A) → Setup A
  get f s = (done (f s), s)

  -- The step where the test holds, and the default elsewhere
  abbrev pub when : Bool → A → Setup A → Setup A
  when b default m s = if b then m s else (done default, s)

  abbrev pub on_transport : Action A → Setup A
  on_transport m s =
      let (r, t) = m s.transport in
      elim r [
        | returned a ↦ (done a, set_transport t s)
        | raised e ↦ (failed e.kind, set_transport t s)
      ]

abbrev pub change : (State → State) → Setup (Unit {0})
change f s = (done tt, f s)
