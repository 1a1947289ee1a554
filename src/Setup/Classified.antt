-- ===== src/Setup/Classified.antt =====
-- What a setup does to the stored family, on every ending.
use apc_modbus_snmp_ha.Prelude.{
  ℕ, ◌≡◌, ◌≢◌, refl, ◌⊎◌, inl, inr, true, not, Option, some, ltb, arith, Option-cases,
}
use apc_modbus_snmp_ha.Device.{
  ApcDeviceType, rack_pdu, is_same, detection_version, is_concrete_device_type, choose_device_type,
}
use apc_modbus_snmp_ha.Device.Choice.{choose_device_type_lem}
use apc_modbus_snmp_ha.Modbus.{Client}
use apc_modbus_snmp_ha.Registers.Factory.{Profile, get_registers_for_device}
use apc_modbus_snmp_ha.Transport.{client_connect, sleep}
use apc_modbus_snmp_ha.Coordinator.Enrichment.{Text, MetadataAnswer}
use apc_modbus_snmp_ha.Coordinator.Identity.{read_identity}
use apc_modbus_snmp_ha.Setup.Steps.{
  EntryData, State, Setup, Ending, done, not_ready, failed, ◌>>=◌, ◌>>◌, refuse, get, change, when,
  on_transport,
}
use apc_modbus_snmp_ha.Setup.{
  Refresh, query_hint, select_family, persist_family, adopt_family, explore, store_family,
  take_registers, first_refresh, detect, find_family, finish_setup, async_setup_entry,
}
use apc_modbus_snmp_ha.Setup.Keeping.{
  Has, Keeps, Keeps-bind, Keeps-when, Keeps-on_transport, Keeps-query, Keeps-take_registers,
  Keeps-refresh, Keeps-select, Keeps-clean_up, Keeps-explore, Keeps-detect,
}

module _ (client : Client) (query : Option ApcDeviceType → MetadataAnswer) (refresh : Refresh)
    (entry_id : Text) (startup_stagger_delay : ℕ) where
  abbrev find : Setup ApcDeviceType
  find = find_family client query refresh entry_id startup_stagger_delay

  abbrev finish : ApcDeviceType → Setup (Unit {0})
  finish = finish_setup client query refresh entry_id startup_stagger_delay

  abbrev setup : Setup (Unit {0})
  setup = async_setup_entry client query refresh entry_id startup_stagger_delay

  module _ (stored : Option ApcDeviceType) (version : Option ℕ) (d : ApcDeviceType)
      (p : Profile) where
    finish-Keeps : (f : ApcDeviceType) → Keeps stored version d p (finish f)
    unfolding finish_setup
    finish-Keeps f =
        Keeps-bind stored version d p (on_transport (read_identity client f)) _
          (Keeps-on_transport stored version d p (read_identity client f))
          (λ r.
            Keeps-bind stored version d p (change (take_registers r)) _
              (Keeps-take_registers stored version d p r)
              (λ _.
                Keeps-bind stored version d p (when (is_same f rack_pdu) tt (explore client)) _
                  (Keeps-when stored version d p (is_same f rack_pdu) tt (explore client)
                    (Keeps-explore stored version d p client))
                  (λ _.
                    Keeps-bind stored version d p (first_refresh refresh) _
                      (Keeps-refresh stored version d p refresh)
                      (λ _. Keeps-clean_up stored version d p entry_id))))

    find-Keeps : Keeps stored version d p find
    unfolding find_family
    find-Keeps =
        Keeps-bind stored version d p (on_transport (client_connect client)) _
          (Keeps-on_transport stored version d p (client_connect client))
          (λ connected.
            Keeps-bind stored version d p (when (not connected) tt refuse) _
              (Keeps-when stored version d p (not connected) tt refuse (record { at = λ s k. k }))
              (λ _.
                Keeps-bind stored version d p (get (λ s. s.entry.device_type)) _
                  (record { at = λ s k. k })
                  (λ st.
                    Keeps-bind stored version d p
                      (when (ltb 0 startup_stagger_delay) tt
                        (on_transport (sleep startup_stagger_delay)))
                      _
                      (Keeps-when stored version d p (ltb 0 startup_stagger_delay) tt _
                        (Keeps-on_transport stored version d p (sleep startup_stagger_delay)))
                      (λ _.
                        Keeps-bind stored version d p (query_hint (query st)) _
                          (Keeps-query stored version d p (query st))
                          (λ hint.
                            Keeps-bind stored version d p
                              (detect client query refresh entry_id startup_stagger_delay hint) _
                              (record {
                                at = λ s k.
                                    (Keeps-detect stored version d p client _
                                        s.inter_block_delay).at
                                      s k;
                              })
                              (λ found. Keeps-select stored version d p st found))))))

-- A family that is found is concrete.
select-concrete :
    (a b : Option ApcDeviceType) (s : State) (f : ApcDeviceType)
    → (select_family a b s).0 ≡ done f
    → is_concrete_device_type (some f) ≡ true
select-concrete a b s f h = elim (Option-cases (choose_device_type a b)) [
  | inl e ↦ absurd (ground (arith, e, h))
  | inr (g, e) ↦ ground (arith, e, h, choose_device_type_lem a b)
]

-- What a step that ends well returns satisfies the predicate.
record Yields {A : Type 0} (Q : A → Type 0) (m : Setup A) : Type 0 where
  yields : (s : State) (a : A) → (m s).0 ≡ done a → Q a

yields_on :
    {A B : Type 0} (Q : B → Type 0) (f : A → Setup B) (x : Ending A × State) (s : State) (b : B)
    → ((a : A) → Yields Q (f a))
    → (((λ (_ : State). x) >>= f) s).0 ≡ done b
    → Q b
yields_on Q f (done a, s') s b h e = (h a).yields s' b e
yields_on Q f (not_ready, s') s b h e = absurd (ground (arith, e))
yields_on Q f (failed k, s') s b h e = absurd (ground (arith, e))

Yields-bind :
    {A B : Type 0} (Q : B → Type 0) (m : Setup A) (f : A → Setup B)
    → ((a : A) → Yields Q (f a))
    → Yields Q (m >>= f)
Yields-bind Q m f h = record { yields = λ s b e. yields_on Q f (m s) s b h e }

stored_family :
    (f : ApcDeviceType) (e : EntryData)
    → is_concrete_device_type (some f) ≡ true
    → ((persist_family f e).device_type ≡ some f)
      × ((persist_family f e).detection_version ≡ some detection_version)
unfolding is_concrete_device_type
stored_family f e h = (ground (arith, h), ground (arith, h))

adopted-Has :
    (f : ApcDeviceType) (s : State)
    → is_concrete_device_type (some f) ≡ true
    → Has
        (some f)
        (some detection_version)
        f
        (get_registers_for_device f)
        (adopt_family f (store_family f s))
adopted-Has f s h = record {
  stored_is = (stored_family f s.entry h).0;
  version_is = (stored_family f s.entry h).1;
  family_is = ground arith;
  registers_is = refl;
}

-- What is stored of the family is as before, and the setup did not end well.
abbrev pub IsUnclassified : State → Ending (Unit {0}) × State → Type 0
IsUnclassified s x =
    (x.0 ≢ done tt)
    × (x.1.entry.device_type ≡ s.entry.device_type)
    × (x.1.entry.detection_version ≡ s.entry.detection_version)

-- A concrete family is stored with the current version, and is the coordinator's with its registers.
abbrev pub IsClassified : State → Type 0
IsClassified s =
    (d : ApcDeviceType) × (is_concrete_device_type (some d) ≡ true)
    × Has (some d) (some detection_version) d (get_registers_for_device d) s

module _ (client : Client) (query : Option ApcDeviceType → MetadataAnswer) (refresh : Refresh)
    (entry_id : Text) (startup_stagger_delay : ℕ) where
  abbrev find_it : Setup ApcDeviceType
  find_it = find_family client query refresh entry_id startup_stagger_delay

  abbrev finish_it : ApcDeviceType → Setup (Unit {0})
  finish_it f =
      change (store_family f)
      >> (change (adopt_family f)
          >> finish_setup client query refresh entry_id startup_stagger_delay f)

  abbrev IsConcrete : ApcDeviceType → Type 0
  IsConcrete f = is_concrete_device_type (some f) ≡ true

  find-Yields : Yields IsConcrete find_it
  unfolding find_family
  find-Yields = Yields-bind IsConcrete (on_transport (client_connect client)) _ (λ connected.
      Yields-bind IsConcrete (when (not connected) tt refuse) _ (λ _.
        Yields-bind IsConcrete (get (λ s. s.entry.device_type)) _ (λ st.
          Yields-bind IsConcrete
            (when (ltb 0 startup_stagger_delay) tt (on_transport (sleep startup_stagger_delay))) _
            (λ _. Yields-bind IsConcrete (query_hint (query st)) _ (λ hint.
              Yields-bind IsConcrete
                (detect client query refresh entry_id startup_stagger_delay hint) (select_family st)
                (λ found. record { yields = λ s f e. select-concrete st found s f e }))))))

  ends-IsClassified :
      (s : State) (x : Ending ApcDeviceType × State)
      → (x.1.entry.device_type ≡ s.entry.device_type)
      → (x.1.entry.detection_version ≡ s.entry.detection_version)
      → ((f : ApcDeviceType) → x.0 ≡ done f → IsConcrete f)
      → IsUnclassified s (((λ (_ : State). x) >>= finish_it) s)
        ⊎ IsClassified (((λ (_ : State). x) >>= finish_it) s).1
  ends-IsClassified s (done f, s') e v c = inr (
    f,
    c f refl,
    (finish-Keeps client query refresh entry_id startup_stagger_delay (some f)
          (some detection_version) f (get_registers_for_device f) f).at
        _ (adopted-Has f s' (c f refl)),
  )
  ends-IsClassified s (not_ready, s') e v c = inl (cc, e, v)
  ends-IsClassified s (failed k, s') e v c = inl (cc, e, v)

  -- For any client, SNMP answers and first refresh: a setup either does not end well and leaves the
  -- stored family and detection version as they were, or stores a concrete family with the current
  -- version, and the coordinator has that family and its registers, also where a later step ends
  -- the setup. So no setup that ends well leaves a family that is not concrete.
  pub async_setup_entry-IsClassified :
      (s : State)
      → IsUnclassified s (async_setup_entry client query refresh entry_id startup_stagger_delay s)
        ⊎ IsClassified (async_setup_entry client query refresh entry_id startup_stagger_delay s).1
  unfolding async_setup_entry
  async_setup_entry-IsClassified s =
      let k =
        (find-Keeps client query refresh entry_id startup_stagger_delay s.entry.device_type
            s.entry.detection_version s.device_type s.registers).at
          s
          (record { stored_is = refl; version_is = refl; family_is = refl; registers_is = refl }) in
      ends-IsClassified s (find_it s) k.stored_is k.version_is (λ f e. find-Yields.yields s f e)
