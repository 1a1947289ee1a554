-- ===== src/Energy/Meter.antt =====
-- The meter that the tracker stands for: a count of watt-hours with no bound, of which the device
-- shows the last 32 bits.
use apc_modbus_snmp_ha.Prelude.{
  ℕ, ◌+◌, ◌*◌, ◌/◌, ◌%◌, ◌≤◌, String, ◌≡◌, refl, inl, Option, some, false, List, [], ◌∷◌, All,
  arith,
}
use apc_modbus_snmp_ha.Energy.{
  OutputEnergyTracker, output_energy_wrap_wh, wrap_low_watermark, serial_changed, update,
}
use apc_modbus_snmp_ha.Energy.Storage.{seed}
use apc_modbus_snmp_ha.Energy.Continuity.{
  OfDevice, OfDevice-serial_changed, OfDevice-update, reports,
}

-- The tracker's state after a reading taken when the meter stood at `energy`.
abbrev pub Tracks : ℕ → OutputEnergyTracker → Type 0
Tracks energy t =
    (t.previous_raw_wh ≡ some (energy % output_energy_wrap_wh))
    × (t.offset_wh ≡ energy / output_energy_wrap_wh * output_energy_wrap_wh)
    × (t.rollover_count ≡ energy / output_energy_wrap_wh)

-- A step of at most 1 % of the counter's range is followed exactly, over a wrap too.
pub update-Tracks :
    (energy step : ℕ) (t : OutputEnergyTracker) (serial : Option String)
    → Tracks energy t
    → step ≤ wrap_low_watermark
    → serial_changed t.serial_number serial ≡ false
    → let (t', reported, _) = update t ((energy + step) % output_energy_wrap_wh) serial in
      Tracks (energy + step) t' × (reported ≡ energy + step)
unfolding update
update-Tracks energy step t serial tracks small same = ground arith

-- Steps of the meter and the serial number read with each: the device's readings, and the true
-- counts.
abbrev pub Steps : Type 0
Steps = List (ℕ × Option String)

abbrev pub readings : ℕ → Steps → List (ℕ × Option String)
readings energy [] = []
readings energy ((step, serial) ∷ rest) =
    ((energy + step) % output_energy_wrap_wh, serial) ∷ readings (energy + step) rest

abbrev pub counts : ℕ → Steps → List ℕ
counts energy [] = []
counts energy ((step, _) ∷ rest) = (energy + step) ∷ counts (energy + step) rest

abbrev pub SmallSteps : String → Steps → Type 0
SmallSteps s = All (λ x. (x.0 ≤ wrap_low_watermark) × OfDevice s x.1)

reports-Tracks :
    (s : String) (energy : ℕ) (steps : Steps) (t : OutputEnergyTracker)
    → Tracks energy t
    → OfDevice s t.serial_number
    → SmallSteps s steps
    → reports t (readings energy steps) ≡ counts energy steps
unfolding reports
reports-Tracks s energy [] t tracks d h = refl
reports-Tracks s energy ((step, serial) ∷ rest) t tracks d h =
    let raw = (energy + step) % output_energy_wrap_wh in
    let same = OfDevice-serial_changed s t.serial_number serial d h.0.1 in
    let next = update-Tracks energy step t serial tracks h.0.0 same in
    cc (
      next.1,
      reports-Tracks s (energy + step) rest (update t raw serial).0 next.0
          (OfDevice-update s t raw serial d h.0.1) h.1,
    )

seed-Tracks :
    (energy : ℕ) (first : Option String)
    → let raw = energy % output_energy_wrap_wh in
      let (t', reported, _) = update (seed (energy / output_energy_wrap_wh)) raw first in
      Tracks energy t' × (reported ≡ energy)
unfolding update seed
seed-Tracks energy first = ground arith

OfDevice-seed : (s : String) (rollovers : ℕ) → OfDevice s (seed rollovers).serial_number
unfolding seed
OfDevice-seed s rollovers = inl refl

-- A tracker seeded with the rollovers that the device's counter has completed reports the meter's
-- true count at every reading of that device, as long as no step between readings is above 1 % of
-- the counter's range.
pub reports-meter :
    (s : String) (energy : ℕ) (first : Option String) (steps : Steps)
    → OfDevice s first
    → SmallSteps s steps
    → reports
        (seed (energy / output_energy_wrap_wh))
        ((energy % output_energy_wrap_wh, first) ∷ readings energy steps)
      ≡ energy ∷ counts energy steps
unfolding reports
reports-meter s energy first steps d h =
    let raw = energy % output_energy_wrap_wh in
    let fresh = seed (energy / output_energy_wrap_wh) in
    let start = seed-Tracks energy first in
    cc (
      start.1,
      reports-Tracks s energy steps (update fresh raw first).0 start.0
          (OfDevice-update s fresh raw first (OfDevice-seed s (energy / output_energy_wrap_wh)) d)
          h,
    )
