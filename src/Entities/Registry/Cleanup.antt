-- ===== src/Entities/Registry/Cleanup.antt =====
-- The cleanup against the platforms: what stands in the registry behind it.
use apc_modbus_snmp_ha.Prelude.{
  ◌≡◌, refl, ap, ◌∙◌, Bool, true, not, none, some, Option-cases, is_some, List, [], ◌∷◌, ◌++◌, map,
  arith, inl, inr, Bool-cases, if◌then◌else◌,
}
use apc_modbus_snmp_ha.Prelude.Texts.{same_text, starts, after_prefix}
use apc_modbus_snmp_ha.Coordinator.Enrichment.{Text}
use apc_modbus_snmp_ha.Device.{is_concrete_device_type}
use apc_modbus_snmp_ha.Entities.Registry.{
  RegistryEntry, button, switch, other_domain, Shown, id_prefix, id_of, expected_keys,
  get_expected_entity_unique_ids, is_expected, is_stale, without_stale,
  async_cleanup_stale_entities,
}
use apc_modbus_snmp_ha.Entities.Registry.Expected.{has_key, is_shown, expected-shown, expected_some}

-- A button, a switch or an entity of another domain, one whose identifier is not of this entry, or
-- one of a key that a platform shows
abbrev pub is_kept : Shown → Text → RegistryEntry → Bool
is_kept c entry_id e = elim e.domain [
  | button ↦ true
  | switch ↦ true
  | other_domain ↦ true
  | _ ↦ elim (after_prefix (id_prefix entry_id) (id_of e.unique_id)) [
    | none ↦ true
    | some key ↦ is_shown c key
  ]
]

unfoldable pub kept : Shown → Text → List RegistryEntry → List RegistryEntry
kept c entry_id [] = []
kept c entry_id (e ∷ es) =
    let rest = kept c entry_id es in if is_kept c entry_id e then e ∷ rest else rest

same_text-append : (p xs ys : Text) → same_text (p ++ xs) (p ++ ys) ≡ same_text xs ys
same_text-append [] xs ys = refl
same_text-append (c ∷ p) xs ys = ground (arith, same_text-append p xs ys)

has_key-map :
    (prefix key : Text) (keys : List Text)
    → has_key (prefix ++ key) (map (λ k. prefix ++ k) keys) ≡ has_key key keys
has_key-map prefix key [] = refl
has_key-map prefix key (k ∷ keys) =
    rw (same_text-append prefix key k, has_key-map prefix key keys) refl

starts_lem : (ps text : Text) → starts ps text ≡ is_some (after_prefix ps text)
starts_lem [] text = refl
starts_lem (p ∷ ps) [] = refl
starts_lem (p ∷ ps) (c ∷ cs) = ground (arith, starts_lem ps cs)

prefix_lem : (ps text key : Text) → after_prefix ps text ≡ some key → text ≡ ps ++ key
prefix_lem [] text key h = ground arith
prefix_lem (p ∷ ps) [] key h = absurd (ground arith)
prefix_lem (p ∷ ps) (c ∷ cs) key h = ground (arith, h, prefix_lem ps cs key)

stale_lem :
    (c : Shown) (entry_id : Text) (e : RegistryEntry)
    → is_stale entry_id (map (λ k. id_prefix entry_id ++ k) (expected_keys c)) e
      ≡ not (is_kept c entry_id e)
stale_lem c entry_id e =
    let prefix = id_prefix entry_id in
    let id = id_of e.unique_id in
    let begins = starts_lem prefix id in
    elim (Option-cases (after_prefix prefix id)) [
      | inl foreign ↦ ground (arith, begins, foreign)
      | inr (key, own) ↦
          let found : is_expected id (map (λ k. prefix ++ k) (expected_keys c)) ≡ is_shown c key =
            rw (prefix_lem prefix id key own)
              (has_key-map prefix key (expected_keys c) ∙ expected-shown c key) in
          ground (arith, begins, own, found)
    ]

without_stale-kept :
    (c : Shown) (entry_id : Text) (es : List RegistryEntry)
    → without_stale entry_id (map (λ k. id_prefix entry_id ++ k) (expected_keys c)) es
      ≡ kept c entry_id es
unfolding without_stale kept
without_stale-kept c entry_id [] = refl
without_stale-kept c entry_id (e ∷ es) =
    let stale = stale_lem c entry_id e in
    elim (Bool-cases (is_kept c entry_id e)) [
      | inl h ↦ rw (stale, h, without_stale-kept c entry_id es) refl
      | inr h ↦ rw (stale, h, without_stale-kept c entry_id es) refl
    ]

-- By what is expected: nothing, or something
cleanup_of : Text → List Text → List RegistryEntry → List RegistryEntry
cleanup_of entry_id [] es = es
cleanup_of entry_id (id ∷ ids) es = without_stale entry_id (id ∷ ids) es

cleanup_eq :
    (c : Shown) (entry_id : Text) (es : List RegistryEntry)
    → async_cleanup_stale_entities c entry_id es
      ≡ cleanup_of entry_id (get_expected_entity_unique_ids c entry_id) es
unfolding async_cleanup_stale_entities cleanup_of
cleanup_eq c entry_id es = ground arith

expected_ids :
    (c : Shown) (entry_id : Text)
    → is_concrete_device_type (some c.device_type) ≡ true
    → get_expected_entity_unique_ids c entry_id
      ≡ map (λ k. id_prefix entry_id ++ k) (expected_keys c)
unfolding get_expected_entity_unique_ids
expected_ids c entry_id concrete = rw (concrete, get_expected_entity_unique_ids) refl

cleanup_of_some :
    (entry_id : Text) (es : List RegistryEntry) (ks keys : List Text) (key : Text)
    → ks ≡ key ∷ keys
    → cleanup_of entry_id (map (λ k. id_prefix entry_id ++ k) ks) es
      ≡ without_stale entry_id (map (λ k. id_prefix entry_id ++ k) ks) es
unfolding cleanup_of
cleanup_of_some entry_id es ks keys key h = rw h refl

-- For a concrete family: behind the cleanup the registry holds, in their order, exactly those
-- entities that are a button, a switch or of another domain, that have an identifier of another
-- entry or none, or that have the key of a sensor, flag or date which the platforms create, where
-- the sensor of the rollovers counts also before the energy counter has a value.
pub async_cleanup_stale_entities-kept :
    (c : Shown) (entry_id : Text) (es : List RegistryEntry)
    → is_concrete_device_type (some c.device_type) ≡ true
    → async_cleanup_stale_entities c entry_id es ≡ kept c entry_id es
async_cleanup_stale_entities-kept c entry_id es concrete =
    let (key, keys, h) = expected_some c concrete in
    cleanup_eq c entry_id es
    ∙ ap (λ ids. cleanup_of entry_id ids es) (expected_ids c entry_id concrete)
    ∙ cleanup_of_some entry_id es (expected_keys c) keys key h
    ∙ without_stale-kept c entry_id es
