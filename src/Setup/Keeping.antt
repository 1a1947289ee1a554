-- ===== src/Setup/Keeping.antt =====
-- The steps of a setup that leave the stored family, the coordinator's family and its registers as they
-- are.
use apc_modbus_snmp_ha.Prelude.{
  ℕ, ◌≡◌, refl, ap, ◌∙◌, inl, inr, Bool, true, false, Option, none, some, List, [], ◌∷◌, Bool-cases,
  Option-cases,
}
use apc_modbus_snmp_ha.Device.{ApcDeviceType, choose_device_type}
use apc_modbus_snmp_ha.Prelude.Dict.{Dict}
use apc_modbus_snmp_ha.Coordinator.Enrichment.Merging.{Data}
use apc_modbus_snmp_ha.Modbus.{returned, raised, Client, Outcome}
use apc_modbus_snmp_ha.Registers.Factory.{Profile}
use apc_modbus_snmp_ha.Transport.{Transport, Action}
use apc_modbus_snmp_ha.Coordinator.Enrichment.{
  Text, MetadataAnswer, metadata_raised, metadata_returned,
}
use apc_modbus_snmp_ha.Coordinator.Detection.{async_detect_device_type}
use apc_modbus_snmp_ha.Coordinator.Identity.{async_discover_capabilities}
use apc_modbus_snmp_ha.Setup.Steps.{
  EntryData, State, Setup, Ending, done, not_ready, failed, ◌>>=◌, change, when, on_transport,
  set_transport,
}
use apc_modbus_snmp_ha.Setup.{
  Refresh, is_optional_failure, has_identity, query_hint, or_default, select_family, explore,
  clean_up, take_registers, set_capabilities, first_refresh,
}

-- The stored family with its version, and the coordinator's family with its registers
pub record Has (stored : Option ApcDeviceType) (version : Option ℕ) (d : ApcDeviceType)
    (p : Profile) (s : State) : Type 0 where
  pub stored_is : s.entry.device_type ≡ stored
  pub version_is : s.entry.detection_version ≡ version
  pub family_is : s.device_type ≡ d
  pub registers_is : s.registers ≡ p

module _ (stored : Option ApcDeviceType) (version : Option ℕ) (d : ApcDeviceType)
    (p : Profile) where
  abbrev P : State → Type 0
  P = Has stored version d p

  -- The step keeps the families and the registers.
  pub record Keeps {A : Type 0} (m : Setup A) : Type 0 where
    pub at : (s : State) → P s → P (m s).1

  kept_on :
      {A B : Type 0} (f : A → Setup B) (x : Ending A × State) (s : State)
      → ((a : A) → Keeps (f a))
      → P x.1
      → P (((λ (_ : State). x) >>= f) s).1
  kept_on f (done a, s') s h k = (h a).at s' k
  kept_on f (not_ready, s') s h k = k
  kept_on f (failed e, s') s h k = k

  pub Keeps-bind :
      {A B : Type 0} (m : Setup A) (f : A → Setup B)
      → Keeps m
      → ((a : A) → Keeps (f a))
      → Keeps (m >>= f)
  Keeps-bind m f hm hf = record { at = λ s k. kept_on f (m s) s hf (hm.at s k) }

  pub Keeps-when : {A : Type 0} (b : Bool) (a : A) (m : Setup A) → Keeps m → Keeps (when b a m)
  Keeps-when true a m h = record { at = h.at }
  Keeps-when false a m h = record { at = λ s k. k }

  kept_transport : (t : Transport) (s : State) → P s → P (set_transport t s)
  kept_transport t s k = record {
    stored_is = k.stored_is;
    version_is = k.version_is;
    family_is = k.family_is;
    registers_is = k.registers_is;
  }

  on_transport_at :
      {A : Type 0} (x : Outcome A × Transport) (s : State) → P s → P (on_transport (λ _. x) s).1
  on_transport_at (returned a, t) s k = kept_transport t s k
  on_transport_at (raised e, t) s k = kept_transport t s k

  pub Keeps-on_transport : {A : Type 0} (m : Action A) → Keeps (on_transport m)
  Keeps-on_transport m = record { at = λ s k. on_transport_at (m s.transport) s k }

  or_default_at :
      {A : Type 0} (a : A) (x : Ending A × State) (s : State)
      → P x.1
      → P (or_default a (λ _. x) s).1
  or_default_at a (done b, s') s k = k
  or_default_at a (not_ready, s') s k = k
  or_default_at a (failed e, s') s k = k

  pub Keeps-or_default : {A : Type 0} (a : A) (m : Setup A) → Keeps m → Keeps (or_default a m)
  Keeps-or_default a m h = record { at = λ s k. or_default_at a (m s) s (h.at s k) }

  pub Keeps-change : (f : State → State) → ((s : State) → P s → P (f s)) → Keeps (change f)
  Keeps-change f h = record { at = h }

  -- The parts that the steps change hold no family.
  pub kept_parts :
      (s s' : State)
      → s'.entry ≡ s.entry
      → s'.device_type ≡ s.device_type
      → s'.registers ≡ s.registers
      → P s
      → P s'
  kept_parts s s' e f r k = record {
    stored_is = ap (λ (x : EntryData). x.device_type) e ∙ k.stored_is;
    version_is = ap (λ (x : EntryData). x.detection_version) e ∙ k.version_is;
    family_is = f ∙ k.family_is;
    registers_is = r ∙ k.registers_is;
  }

  pub Keeps-query : (m : MetadataAnswer) → Keeps (query_hint m)
  Keeps-query (metadata_raised kind) = record {
    at = λ s k. elim (Bool-cases (is_optional_failure kind)) [
      | inl e ↦ rw e (kept_parts s _ refl refl refl k)
      | inr e ↦ rw e k
    ];
  }
  Keeps-query (metadata_returned m) = record {
    at = λ s k. elim (Bool-cases (has_identity m)) [
      | inl e ↦ rw e (kept_parts s _ refl refl refl k)
      | inr e ↦ rw e (kept_parts s _ refl refl refl k)
    ];
  }

  pub Keeps-take_registers : (r : Option (List ℕ)) → Keeps (change (take_registers r))
  Keeps-take_registers none = record { at = λ s k. k }
  Keeps-take_registers (some rs) = record { at = λ s k. kept_parts s _ refl refl refl k }

  pub Keeps-set_capabilities : (c : Dict ℕ) → Keeps (change (set_capabilities c))
  Keeps-set_capabilities [] = record { at = λ s k. k }
  Keeps-set_capabilities (c ∷ cs) = record { at = λ s k. kept_parts s _ refl refl refl k }

  refresh_at :
      (values : Option Data) (s : State)
      → P s
      → P
          (elim values as (λ _. Ending (Unit {0}) × State) [
            | none ↦ (not_ready, s)
            | some v ↦ (done tt, record s { values = v })
          ]).1
  refresh_at none s k = k
  refresh_at (some v) s k = kept_parts s _ refl refl refl k

  pub Keeps-refresh : (refresh : Refresh) → Keeps (first_refresh refresh)
  Keeps-refresh refresh = record { at = λ s k. refresh_at _ _ (kept_parts s _ refl refl refl k) }

  pub Keeps-select : (a b : Option ApcDeviceType) → Keeps (select_family a b)
  Keeps-select a b = record {
    at = λ s k. elim (Option-cases (choose_device_type a b)) [
      | inl e ↦ rw (e, select_family) k
      | inr (f, e) ↦ rw (e, select_family) k
    ];
  }

  pub Keeps-clean_up : (entry_id : Text) → Keeps (change (clean_up entry_id))
  Keeps-clean_up entry_id = record { at = λ s k. kept_parts s _ refl refl refl k }

  pub Keeps-explore : (client : Client) → Keeps (explore client)
  Keeps-explore client =
      Keeps-bind (or_default [] (on_transport (async_discover_capabilities client))) _
        (Keeps-or_default [] (on_transport (async_discover_capabilities client))
          (Keeps-on_transport (async_discover_capabilities client)))
        Keeps-set_capabilities

  pub Keeps-detect :
      (client : Client) (probe : Bool) (delay : ℕ)
      → Keeps
          (when probe none (or_default none (on_transport (async_detect_device_type client delay))))
  Keeps-detect client probe delay =
      Keeps-when probe none _
        (Keeps-or_default none _ (Keeps-on_transport (async_detect_device_type client delay)))
