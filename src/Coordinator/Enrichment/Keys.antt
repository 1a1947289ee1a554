-- ===== src/Coordinator/Enrichment/Keys.antt =====
-- What the steps of the enrichment do to one key of the data.
use apc_modbus_snmp_ha.Prelude.{
  String, ◌≡◌, refl, sym, ap, ◌∙◌, inl, inr, Bool, true, false, Option, none, some, List, [], ◌∷◌,
  All, if◌then◌else◌, is_some, str_eq, Bool-cases, Option-cases,
}
use apc_modbus_snmp_ha.Prelude.Dict.{lookup, insert, lookup-insert}
use apc_modbus_snmp_ha.Decode.{Value, text}
use apc_modbus_snmp_ha.Coordinator.Enrichment.{Text, Enrichment}
use apc_modbus_snmp_ha.Coordinator.Enrichment.Merging.{
  Data, get, set_default, update_with, set_truthy, default_truthy, merge_device_metadata,
  merge_value, merge_values,
}

-- SNMP values, under keys that are neither frequency of the data
abbrev pub AreForeign : Data → Type 0
AreForeign = All (λ entry.
    (str_eq entry.0 "input_frequency" ≡ false) × (str_eq entry.0 "output_frequency" ≡ false))

-- `a` if it is there, and otherwise `b`
abbrev pub or_else : Option Value → Option Value → Option Value
or_else (some v) b = some v
or_else none b = b

pub or_nothing : (a : Option Value) → or_else a none ≡ a
or_nothing none = refl
or_nothing (some v) = refl

-- `if b: None else: None`
abbrev neither : Bool → Option Value
neither b = if b then none else none

nothing : (b : Bool) → neither b ≡ none
nothing true = refl
nothing false = refl

pub or_assoc : (a b c : Option Value) → or_else (or_else a b) c ≡ or_else a (or_else b c)
or_assoc none b c = refl
or_assoc (some v) b c = refl

-- The first frequency among SNMP values
abbrev pub snmp_frequency : Data → Option Value
snmp_frequency [] = none
snmp_frequency ((key, value) ∷ rest) =
    or_else (if str_eq key "snmp_input_frequency" then value else none) (snmp_frequency rest)

pub get-insert :
    (k j : String) (v : Option Value) (d : Data)
    → get j (insert k v d) ≡ (if str_eq k j then v else get j d)
get-insert k j v d = elim (Bool-cases (str_eq k j)) [
  | inl e ↦ rw (lookup-insert k j v d, get) (rw e refl)
  | inr e ↦ rw (lookup-insert k j v d, get) (rw e refl)
]

pub get-other :
    (k j : String) (v : Option Value) (d : Data)
    → str_eq k j ≡ false
    → get j (insert k v d) ≡ get j d
get-other k j v d e = rw (get-insert k j v d) (rw e refl)

pub get-set_default :
    (k j : String) (v : Option Value) (d : Data)
    → str_eq k j ≡ false
    → get j (set_default k v d) ≡ get j d
get-set_default k j v d e = elim (Bool-cases (is_some (lookup k d))) [
  | inl there ↦ rw there refl
  | inr missing ↦ rw missing (get-other k j v d e)
]

pub get-set_truthy :
    (k j : String) (v : Option Text) (d : Data)
    → str_eq k j ≡ false
    → get j (set_truthy k v d) ≡ get j d
get-set_truthy k j none d e = refl
get-set_truthy k j (some []) d e = refl
get-set_truthy k j (some (c ∷ cs)) d e = get-other k j (some (text (c ∷ cs))) d e

pub get-default_truthy :
    (k j : String) (v : Option Text) (d : Data)
    → str_eq k j ≡ false
    → get j (default_truthy k v d) ≡ get j d
get-default_truthy k j none d e = refl
get-default_truthy k j (some []) d e = refl
get-default_truthy k j (some (c ∷ cs)) d e = get-set_default k j (some (text (c ∷ cs))) d e

pub get-update_with-input :
    (vs d : Data)
    → AreForeign vs
    → get "input_frequency" (update_with vs d) ≡ get "input_frequency" d
get-update_with-input [] d h = refl
get-update_with-input ((k, v) ∷ vs) d h =
    get-update_with-input vs (insert k v d) h.1 ∙ get-other k "input_frequency" v d h.0.0

pub get-update_with-output :
    (vs d : Data)
    → AreForeign vs
    → get "output_frequency" (update_with vs d) ≡ get "output_frequency" d
get-update_with-output [] d h = refl
get-update_with-output ((k, v) ∷ vs) d h =
    get-update_with-output vs (insert k v d) h.1 ∙ get-other k "output_frequency" v d h.0.1

merge_value-output :
    (k : String) (v : Option Value) (d : Data)
    → str_eq k "output_frequency" ≡ false
    → get "output_frequency" (merge_value k v d) ≡ get "output_frequency" d
merge_value-output k none d e = refl
merge_value-output k (some v) d e = elim (Bool-cases (str_eq k "snmp_input_frequency")) [
  | inl f ↦ elim (Bool-cases (is_some (get "input_frequency" d))) [
    | inl there ↦ rw f (rw there refl)
    | inr missing ↦
        rw f (rw missing (get-other "input_frequency" "output_frequency" (some v) d refl))
  ]
  | inr f ↦ rw f (get-other k "output_frequency" (some v) d e)
]

merge_value-input :
    (k : String) (v : Option Value) (d : Data)
    → str_eq k "input_frequency" ≡ false
    → get "input_frequency" (merge_value k v d)
      ≡ or_else (get "input_frequency" d) (if str_eq k "snmp_input_frequency" then v else none)
merge_value-input k none d e =
    sym (or_nothing (get "input_frequency" d))
    ∙ ap (or_else (get "input_frequency" d)) (sym (nothing (str_eq k "snmp_input_frequency")))
merge_value-input k (some v) d e = elim (Bool-cases (str_eq k "snmp_input_frequency")) [
  | inl f ↦ elim (Option-cases (get "input_frequency" d)) [
    | inl missing ↦
        let filled : merge_value k (some v) d ≡ insert "input_frequency" (some v) d =
          rw (f, missing) refl in
        let rest : get "input_frequency" (insert "input_frequency" (some v) d) ≡ some v =
          get-insert "input_frequency" "input_frequency" (some v) d in
        ap (get "input_frequency") filled ∙ rest ∙ sym (filled_by f missing)
    | inr (w, there) ↦
        let kept : merge_value k (some v) d ≡ d = rw (f, there) refl in
        ap (get "input_frequency") kept ∙ kept_by there
  ]
  | inr f ↦
      let other : merge_value k (some v) d ≡ insert k (some v) d = rw f refl in
      ap (get "input_frequency") other ∙ get-other k "input_frequency" (some v) d e ∙ none_by f
]
  where
    filled_by :
        str_eq k "snmp_input_frequency" ≡ true
        → get "input_frequency" d ≡ none
        → or_else
            (get "input_frequency" d)
            (if str_eq k "snmp_input_frequency" then some v else none)
          ≡ some v
    filled_by f missing =
        ap (λ b. or_else (get "input_frequency" d) (if b then some v else none)) f
        ∙ ap (λ y. or_else y (some v)) missing

    kept_by :
        {w : Value}
        → get "input_frequency" d ≡ some w
        → get "input_frequency" d
          ≡ or_else
              (get "input_frequency" d)
              (if str_eq k "snmp_input_frequency" then some v else none)
    kept_by there =
        there
        ∙ ap (λ y. or_else y (if str_eq k "snmp_input_frequency" then some v else none)) (sym there)

    none_by :
        str_eq k "snmp_input_frequency" ≡ false
        → get "input_frequency" d
          ≡ or_else
              (get "input_frequency" d)
              (if str_eq k "snmp_input_frequency" then some v else none)
    none_by f =
        sym (or_nothing (get "input_frequency" d))
        ∙ ap (λ b. or_else (get "input_frequency" d) (if b then some v else none)) (sym f)

pub merge_values-input :
    (vs d : Data)
    → AreForeign vs
    → get "input_frequency" (merge_values vs d)
      ≡ or_else (get "input_frequency" d) (snmp_frequency vs)
unfolding merge_values
merge_values-input [] d h = sym (or_nothing (get "input_frequency" d))
merge_values-input ((k, v) ∷ vs) d h =
    merge_values-input vs (merge_value k v d) h.1
    ∙ ap (λ y. or_else y (snmp_frequency vs)) (merge_value-input k v d h.0.0)
    ∙ or_assoc (get "input_frequency" d) _ (snmp_frequency vs)

pub merge_values-output :
    (vs d : Data)
    → AreForeign vs
    → get "output_frequency" (merge_values vs d) ≡ get "output_frequency" d
unfolding merge_values
merge_values-output [] d h = refl
merge_values-output ((k, v) ∷ vs) d h =
    merge_values-output vs (merge_value k v d) h.1 ∙ merge_value-output k v d h.0.1

abbrev pub metadata_keys : List String
metadata_keys =
    "hw_version" ∷ "firmware_date" ∷ "firmware" ∷ "firmware_version" ∷ "serial_number" ∷ "model"
    ∷ "host" ∷ "manufacturer" ∷ []

-- The metadata leave every key but their own.
pub get-merge_device_metadata :
    (j : String) (host : Text) (e : Enrichment) (d : Data)
    → All (λ k. str_eq k j ≡ false) metadata_keys
    → get j (merge_device_metadata host e d) ≡ get j d
unfolding merge_device_metadata
get-merge_device_metadata j host e d (h1, (h2, (h3, (h4, (h5, (h6, (h7, (h8, h9)))))))) =
    get-default_truthy "hw_version" j e.fw_date _ h1
    ∙ get-set_truthy "firmware_date" j e.fw_date _ h2
    ∙ get-default_truthy "firmware" j e.fw_version _ h3
    ∙ get-set_truthy "firmware_version" j e.fw_version _ h4
    ∙ get-set_truthy "serial_number" j e.serial_number _ h5
    ∙ get-set_truthy "model" j e.hw_model _ h6
    ∙ get-set_default "host" j (some (text host)) _ h7
    ∙ get-set_default "manufacturer" j (some (text (65 ∷ 80 ∷ 67 ∷ []))) d h8
