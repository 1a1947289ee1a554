-- ===== src/Diagnostics/Sanitizing/Dumps.antt =====
-- A sanitized dump has neither its host nor its community in a text that it redacts.
use apc_modbus_snmp_ha.Prelude.{◌≡◌, refl, ap, Bool, true, false, []}
use apc_modbus_snmp_ha.Coordinator.Enrichment.{Text}
use apc_modbus_snmp_ha.Diagnostics.Sanitizing.{
  Json, other, string, list, dict, Items, no_items, item, Fields, no_fields, field, is_oid_key,
  kept_under, sanitize_data, sanitize_items, sanitize_fields,
}
use apc_modbus_snmp_ha.Diagnostics.Sanitizing.Redacted.{
  IsSecret, IsRedacted, sanitize_text-IsRedacted,
}

abbrev pub Unless : Bool → Type 0 → Type 0
Unless true A = Unit
Unless false A = A

-- Every text of a dump but those under the keys of identifiers
mutual
  pub AllTexts : (Text → Type 0) → Json → Type 0
  AllTexts P other = Unit
  AllTexts P (string t) = P t
  AllTexts P (list xs) = AllItems P xs
  AllTexts P (dict fs) = AllFields P fs

  AllItems : (Text → Type 0) → Items → Type 0
  AllItems P no_items = Unit
  AllItems P (item x xs) = AllTexts P x × AllItems P xs

  AllFields : (Text → Type 0) → Fields → Type 0
  AllFields P no_fields = Unit
  AllFields P (field key x fs) = Unless (is_oid_key key) (AllTexts P x) × AllFields P fs

-- A dump without those texts
unfoldable mutual
  pub blanked : Json → Json
  blanked other = other
  blanked (string t) = string []
  blanked (list xs) = list (blanked_items xs)
  blanked (dict fs) = dict (blanked_fields fs)

  blanked_items : Items → Items
  blanked_items no_items = no_items
  blanked_items (item x xs) = item (blanked x) (blanked_items xs)

  blanked_fields : Fields → Fields
  blanked_fields no_fields = no_fields
  blanked_fields (field key x fs) =
      field key (kept_under (is_oid_key key) x (blanked x)) (blanked_fields fs)

-- A field of a key that is an identifier's or not
one_field :
    (P : Text → Type 0) (b : Bool) (x y : Json)
    → AllTexts P y
    → blanked y ≡ blanked x
    → Unless b (AllTexts P (kept_under b x y))
      × (kept_under b (kept_under b x y) (blanked (kept_under b x y)) ≡ kept_under b x (blanked x))
one_field P true x y h e = (tt, refl)
one_field P false x y h e = (h, e)

module _ (host community : Text) (h : IsSecret host) (c : IsSecret community) where
  abbrev IsClean : Text → Type 0
  IsClean = IsRedacted host community

  mutual
    unfolding sanitize_data blanked AllTexts

    data-IsClean :
        (x : Json)
        → AllTexts IsClean (sanitize_data host community x)
          × (blanked (sanitize_data host community x) ≡ blanked x)
    data-IsClean other = (tt, refl)
    data-IsClean (string t) = (sanitize_text-IsRedacted host community t h c, refl)
    data-IsClean (list xs) = let k = items-IsClean xs in (k.0, ap list k.1)
    data-IsClean (dict fs) = let k = fields-IsClean fs in (k.0, ap dict k.1)

    items-IsClean :
        (xs : Items)
        → AllItems IsClean (sanitize_items host community xs)
          × (blanked_items (sanitize_items host community xs) ≡ blanked_items xs)
    items-IsClean no_items = (tt, refl)
    items-IsClean (item x xs) =
        let k = data-IsClean x in let ks = items-IsClean xs in ((k.0, ks.0), cc (k.1, ks.1))

    fields-IsClean :
        (fs : Fields)
        → AllFields IsClean (sanitize_fields host community fs)
          × (blanked_fields (sanitize_fields host community fs) ≡ blanked_fields fs)
    fields-IsClean no_fields = (tt, refl)
    fields-IsClean (field key x fs) =
        let k = data-IsClean x in
        let ks = fields-IsClean fs in
        let one = one_field IsClean (is_oid_key key) x (sanitize_data host community x) k.0 k.1 in
        ((one.0, ks.0), cc (one.1, ks.1))

  -- For a host and a community without the marks [, ] and :, which are part of no placeholder: a
  -- sanitized dump has neither in any of its texts, but for those under the keys of object
  -- identifiers; and it differs from the dump in these texts alone.
  pub sanitize_data-IsRedacted :
      (x : Json)
      → AllTexts (IsRedacted host community) (sanitize_data host community x)
        × (blanked (sanitize_data host community x) ≡ blanked x)
  sanitize_data-IsRedacted x = data-IsClean x
