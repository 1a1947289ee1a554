-- ===== src/Energy/Continuity.antt =====
-- The reported total never falls while the device stays the same.
use apc_modbus_snmp_ha.Prelude.{
  ℕ, ◌+◌, ◌≤◌, ◌<◌, String, ◌≡◌, ◌⊎◌, Option, none, some, false, List, [], ◌∷◌, All, arith, is_some,
  eq_iff,
}
use apc_modbus_snmp_ha.Energy.{
  OutputEnergyTracker, output_energy_wrap_wh, is_truthy, serial_changed, update,
}

abbrev pub or_zero : Option ℕ → ℕ
or_zero none = 0
or_zero (some n) = n

-- The total that the tracker reported last.
abbrev pub total : OutputEnergyTracker → ℕ
total t = t.offset_wh + or_zero t.previous_raw_wh

-- The last accepted reading is a uint32, and a stored serial number is not empty.
abbrev pub IsValid : OutputEnergyTracker → Type 0
IsValid t =
    (or_zero t.previous_raw_wh < output_energy_wrap_wh)
    × (is_some t.serial_number ≡ is_truthy t.serial_number)

-- One reading of the same device: the state stays valid, the report is the new total, and it is no
-- lower than the old one.
pub update_continues :
    (t : OutputEnergyTracker) (raw : ℕ) (serial : Option String)
    → IsValid t
    → raw < output_energy_wrap_wh
    → serial_changed t.serial_number serial ≡ false
    → let (t', reported, _) = update t raw serial in
      IsValid t' × (total t' ≡ reported) × (total t ≤ reported)
unfolding update
update_continues t raw serial v h same = ground arith

-- A serial number that is missing, or that of the device `s`.
abbrev pub OfDevice : String → Option String → Type 0
OfDevice s x = (x ≡ none) ⊎ (x ≡ some s)

-- Readings of one device never count as a change of device.
pub OfDevice-serial_changed :
    (s : String) (a b : Option String) → OfDevice s a → OfDevice s b → serial_changed a b ≡ false
OfDevice-serial_changed s a b ha hb = ground (arith, eq_iff s s)

pub OfDevice-update :
    (s : String) (t : OutputEnergyTracker) (raw : ℕ) (serial : Option String)
    → OfDevice s t.serial_number
    → OfDevice s serial
    → OfDevice s (update t raw serial).0.serial_number
unfolding update
OfDevice-update s t raw serial ht hs = ground (arith, eq_iff s s)

-- The totals that successive polls report.
unfoldable pub reports : OutputEnergyTracker → List (ℕ × Option String) → List ℕ
reports t [] = []
reports t ((raw, serial) ∷ rest) =
    let (t', reported, _) = update t raw serial in reported ∷ reports t' rest

-- Each item is at least the one before it, and the first at least `low`.
abbrev pub IsNondecreasing : ℕ → List ℕ → Type 0
IsNondecreasing low [] = Unit
IsNondecreasing low (x ∷ xs) = (low ≤ x) × IsNondecreasing x xs

-- uint32 readings of the device `s`
abbrev pub ReadingsOf : String → List (ℕ × Option String) → Type 0
ReadingsOf s = All (λ r. (r.0 < output_energy_wrap_wh) × OfDevice s r.1)

-- Over any sequence of uint32 readings of one device, wraps, resets and rejected decreases
-- included, no reported total is lower than the one before it or than the stored total.
pub reports-IsNondecreasing :
    (s : String) (t : OutputEnergyTracker) (readings : List (ℕ × Option String))
    → IsValid t
    → OfDevice s t.serial_number
    → ReadingsOf s readings
    → IsNondecreasing (total t) (reports t readings)
unfolding reports
reports-IsNondecreasing s t [] v d h = tt
reports-IsNondecreasing s t ((raw, serial) ∷ rest) v d h =
    let same = OfDevice-serial_changed s t.serial_number serial d h.0.1 in
    let (t', reported, reason) = update t raw serial in
    let step = update_continues t raw serial v h.0.0 same in
    let rest_rises =
      reports-IsNondecreasing s t' rest step.0 (OfDevice-update s t raw serial d h.0.1) h.1 in
    (step.2, rw step.1 at rest_rises)
