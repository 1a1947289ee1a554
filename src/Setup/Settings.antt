-- ===== src/Setup/Settings.antt =====
-- The change of an entry's settings (config_flow.py, APCModbusOptionsFlow) and the button that detects
-- the family again (button.py, APCModbusRedetectDeviceTypeButton), on the entry's data.
use apc_modbus_snmp_ha.Prelude.{
  ℕ, String, ◌≡◌, refl, sym, ◌∙◌, inl, inr, Bool-cases, Option-cases, Bool, true, false, not, ◌||◌,
  Option, none, some, ◌==◌, str_eq, arith, if◌then◌else◌,
}
use apc_modbus_snmp_ha.Device.{
  ApcDeviceType, is_same_or_none, is_current, detection_version, is_concrete_device_type,
  should_probe_device_type, choose_device_type,
}
use apc_modbus_snmp_ha.Device.Choice.{choose_device_type_lem}
use apc_modbus_snmp_ha.Setup.Steps.{EntryData}

-- What the user enters of the endpoint
pub record Endpoint : Type 0 where
  pub host : String
  pub port : ℕ
  pub unit : ℕ

unfoldable pub endpoint_changed : Endpoint → EntryData → Bool
endpoint_changed user_input e =
    not (str_eq user_input.host e.host)
    || not (user_input.port == e.port)
    || not (user_input.unit == e.unit)

abbrev forget_device : EntryData → EntryData
forget_device e = record e { device_type = none; detection_version = none; transport_mode = none }

-- `async_step_init` with the user's input
unfoldable pub async_step_init : Endpoint → EntryData → EntryData
async_step_init user_input e =
    let updated_data = record e {
      host = user_input.host;
      port = user_input.port;
      unit = user_input.unit;
    } in
    if endpoint_changed user_input e then forget_device updated_data else updated_data

-- `config_changed` of the button
unfoldable pub config_changed : ApcDeviceType → EntryData → Bool
config_changed selected e =
    not (is_same_or_none e.device_type (some selected)) || not (is_current e.detection_version)

-- The entry behind a press, and whether it is reloaded; none where no family can be chosen.
unfoldable pub redetect :
    ApcDeviceType → Option ApcDeviceType → EntryData → Option (EntryData × Bool)
redetect stored detected e = elim (choose_device_type (some stored) detected) [
  | none ↦ none
  | some selected ↦
      if config_changed selected e
      then some (
        record e { device_type = some selected; detection_version = some detection_version },
        true,
      )
      else some (e, false)
]

-- The next setup probes the device, whatever SNMP hints, exactly if the host, port or unit is new or
-- it would have probed with the old settings; with a new one the stored family and the stored mode
-- of the transport are gone, with the old ones they stay.
pub async_step_init-probes :
    (user_input : Endpoint) (e : EntryData) (hint : Option ApcDeviceType)
    → (should_probe_device_type
          (async_step_init user_input e).device_type
          (async_step_init user_input e).detection_version
          hint
        ≡ (endpoint_changed user_input e
            || should_probe_device_type e.device_type e.detection_version hint))
      × ((async_step_init user_input e).transport_mode
          ≡ (if endpoint_changed user_input e then none else e.transport_mode))
      × ((async_step_init user_input e).device_type
          ≡ (if endpoint_changed user_input e then none else e.device_type))
unfolding async_step_init should_probe_device_type
async_step_init-probes user_input e hint = elim (Bool-cases (endpoint_changed user_input e)) [
  | inl h ↦ rw h (refl, refl, refl)
  | inr h ↦ rw h (refl, refl, refl)
]

-- The entry has this family and was classified with the current version.
abbrev pub IsStored : ApcDeviceType → EntryData → Type 0
IsStored selected e =
    (e.device_type ≡ some selected) × (e.detection_version ≡ some detection_version)

is_same_refl : (d : ApcDeviceType) → is_same_or_none (some d) (some d) ≡ true
is_same_refl d = ground arith

config_changed-IsStored :
    (selected : ApcDeviceType) (e : EntryData)
    → (config_changed selected e ≡ false → IsStored selected e)
      × (IsStored selected e → config_changed selected e ≡ false)
unfolding config_changed
config_changed-IsStored selected e = (
  λ h. (ground (arith, h), ground (arith, h)),
  λ (family, version). rw (family, version, is_same_refl selected) refl,
)

-- Behind a press that chooses `selected`: what becomes of the entry, and whether it is reloaded.
abbrev pub IsPressed : ApcDeviceType → EntryData → EntryData → Bool → Type 0
IsPressed selected e e' reloaded =
    IsStored selected e'
    × (reloaded ≡ false → IsStored selected e × (e' ≡ e))
    × (IsStored selected e → reloaded ≡ false)

redetect_chosen :
    (stored selected : ApcDeviceType) (detected : Option ApcDeviceType) (e : EntryData)
    → choose_device_type (some stored) detected ≡ some selected
    → (e' : EntryData) × (reloaded : Bool) × (redetect stored detected e ≡ some (e', reloaded))
      × IsPressed selected e e' reloaded
unfolding redetect
redetect_chosen stored selected detected e h =
    let (changed, same) = config_changed-IsStored selected e in
    elim (Bool-cases (config_changed selected e)) [
      | inl c ↦ (
        record e { device_type = some selected; detection_version = some detection_version },
        true,
        ground (arith, h, c),
        ((refl, refl), (λ f. absurd (ground (arith, f))), λ before. sym c ∙ same before),
      )
      | inr c ↦
          (e, false, ground (arith, h, c), (changed c, (λ f. (changed c, refl)), λ before. refl))
    ]

chosen_family :
    (stored : ApcDeviceType) (detected : Option ApcDeviceType)
    → is_concrete_device_type (some stored) ≡ true
    → choose_device_type (some stored) detected
      ≡ (if is_concrete_device_type detected then detected else some stored)
unfolding choose_device_type
chosen_family stored detected h = ground (arith, h)

-- For a coordinator with a concrete family: a press chooses a family, which is the detected one if
-- that is concrete and the coordinator's otherwise, and behind it the entry has that family and the
-- current version. It is not reloaded exactly if it had both before, and then it is left as it was.
pub redetect-stored :
    (stored : ApcDeviceType) (detected : Option ApcDeviceType) (e : EntryData)
    → is_concrete_device_type (some stored) ≡ true
    → (selected : ApcDeviceType) × (e' : EntryData) × (reloaded : Bool) × (redetect stored detected
          e
        ≡ some (e', reloaded))
      × IsPressed selected e e' reloaded
      × (some selected ≡ (if is_concrete_device_type detected then detected else some stored))
redetect-stored stored detected e h =
    elim (Option-cases (choose_device_type (some stored) detected)) [
      | inl none_chosen ↦
          absurd (ground (arith, none_chosen, choose_device_type_lem (some stored) detected, h))
      | inr (selected, chosen) ↦
          let (e', reloaded, pressed, after) = redetect_chosen stored selected detected e chosen in
          (selected, e', reloaded, pressed, after, sym chosen ∙ chosen_family stored detected h)
    ]
