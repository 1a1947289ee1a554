-- ===== src/Poller/Tracking/Restarts.antt =====
-- The reported totals over restarts of Home Assistant.
use apc_modbus_snmp_ha.Prelude.{
  ℕ, ◌≤◌, ◌<◌, String, ◌≡◌, refl, sym, subst, ◌⊎◌, inl, inr, true, Option, none, some, List, [],
  ◌∷◌, All, Bool-cases, Option-cases,
}
use apc_modbus_snmp_ha.Prelude.Dict.{Dict, lookup, erase, lookup-erase}
use apc_modbus_snmp_ha.Decode.{Value}
use apc_modbus_snmp_ha.Device.{ApcDeviceType}
use apc_modbus_snmp_ha.Energy.{output_energy_wrap_wh}
use apc_modbus_snmp_ha.Energy.Storage.{
  Stored, from_storage, from_storage-IsValid, from_storage_settled,
}
use apc_modbus_snmp_ha.Energy.Continuity.{total, OfDevice, IsNondecreasing}
use apc_modbus_snmp_ha.Poller.Tracking.Standing.{
  Stands, restart-Stands, save-Stands, ready-Holds, Holds-Stands, track_reading-Holds,
}
use apc_modbus_snmp_ha.Poller.Tracking.{
  Keeper, new_keeper, raw_reading, is_counted, is_missing, track_reading, ready,
  async_track_output_energy, save, restart,
}

-- What happens to the keeper: a refresh with its data and serial number, a save, and a restart.
pub data Event : Type 0 where
  refreshed : Dict Value → Option String → Event
  saved restarted : Event

abbrev pub reported : Option ℕ → List ℕ → List ℕ
reported none rest = rest
reported (some n) rest = n ∷ rest

-- The totals in the data behind each refresh.
unfoldable pub totals : ApcDeviceType → ℕ → Keeper → List Event → List ℕ
totals device_type completed k [] = []
totals device_type completed k (refreshed values serial ∷ rest) =
    let (values', k') = async_track_output_energy values device_type serial completed k in
    reported (raw_reading (lookup "output_energy" values')) (totals device_type completed k' rest)
totals device_type completed k (saved ∷ rest) = totals device_type completed (save k) rest
totals device_type completed k (restarted ∷ rest) =
    totals device_type completed (restart completed k) rest

-- A refresh reports nothing and leaves the total, or reports a total that is no lower.
abbrev Steps : String → ℕ → ℕ → Dict Value × Keeper → Type 0
Steps s completed low (values, k) =
    ((raw_reading (lookup "output_energy" values) ≡ none) × Stands s completed low k)
    ⊎ ((n : ℕ) × (raw_reading (lookup "output_energy" values) ≡ some n)
        × (low ≤ n)
        × Stands s completed n k)

-- A refresh of the device: its serial number is missing or `s`, and the reading, where there is
-- one, is a uint32.
abbrev pub FitsWord : Option ℕ → Type 0
FitsWord none = Unit
FitsWord (some raw_wh) = raw_wh < output_energy_wrap_wh

abbrev pub OfOne : String → Event → Type 0
OfOne s (refreshed values serial) =
    OfDevice s serial × FitsWord (raw_reading (lookup "output_energy" values))
OfOne s saved = Unit
OfOne s restarted = Unit

erased :
    (values : Dict Value)
    → raw_reading
        (lookup "output_energy" (erase "output_energy_rollover" (erase "output_energy" values)))
      ≡ none
erased values =
    rw (lookup-erase "output_energy_rollover" "output_energy" (erase "output_energy" values))
      (rw (lookup-erase "output_energy" "output_energy" values) refl)

refresh-Steps :
    (s : String) (device_type : ApcDeviceType) (completed low : ℕ) (k : Keeper)
    (values : Dict Value) (serial : Option String)
    → is_counted device_type ≡ true
    → Stands s completed low k
    → OfOne s (refreshed values serial)
    → Steps s completed low (async_track_output_energy values device_type serial completed k)
unfolding async_track_output_energy
refresh-Steps s device_type completed low k values serial counted h of_one =
    let result = async_track_output_energy values device_type serial completed k in
    elim (Option-cases (raw_reading (lookup "output_energy" values))) [
      | inl e ↦
          let same : result ≡ (values, k) = rw (e, async_track_output_energy) refl in
          subst (Steps s completed low) (sym same) (inl (e, h))
      | inr (raw, e) ↦ elim (Bool-cases (is_missing device_type raw)) [
        | inl missing ↦
            let same : result ≡ (erase "output_energy_rollover" (erase "output_energy" values), k) =
              rw (e, counted, missing, async_track_output_energy) refl in
            subst (Steps s completed low) (sym same) (inl (erased values, h))
        | inr there ↦
            let same : result ≡ track_reading raw values serial (ready completed k) =
              rw (e, counted, there, async_track_output_energy) refl in
            let fits : raw < output_energy_wrap_wh = rw e at of_one.1 in
            let (n, out, above, held) =
              track_reading-Holds s completed low (ready completed k) raw values serial
                (ready-Holds s completed low k h) fits of_one.0 in
            subst (Steps s completed low) (sym same)
              (inr (n, out, above, Holds-Stands s completed n _ held))
      ]
    ]

rises :
    (s : String) (device_type : ApcDeviceType) (completed low : ℕ) (k : Keeper)
    (events : List Event)
    → is_counted device_type ≡ true
    → Stands s completed low k
    → All (OfOne s) events
    → IsNondecreasing low (totals device_type completed k events)
unfolding totals
rises s device_type completed low k [] counted h hs = tt
rises s device_type completed low k (refreshed values serial ∷ rest) counted h hs =
    let (values', k') = async_track_output_energy values device_type serial completed k in
    elim (refresh-Steps s device_type completed low k values serial counted h hs.0) [
      | inl (e, next) ↦ rw e (rises s device_type completed low k' rest counted next hs.1)
      | inr (n, e, above, next) ↦
          rw e (above, rises s device_type completed n k' rest counted next hs.1)
    ]
rises s device_type completed low k (saved ∷ rest) counted h hs =
    rises s device_type completed low (save k) rest counted (save-Stands s completed low k h) hs.1
rises s device_type completed low k (restarted ∷ rest) counted h hs =
    rises s device_type completed low (restart completed k) rest counted
      (restart-Stands s completed low k h) hs.1

-- For an SMT or a SmartConnect device, whatever the store holds for it: over any sequence of
-- refreshes with uint32 readings of that device or with none, saves, and restarts of Home Assistant
-- that save what is asked for, no total in the data is lower than the one before it or than the
-- stored one.
pub totals-IsNondecreasing :
    (s : String) (device_type : ApcDeviceType) (completed : ℕ) (stored : Option (Dict Stored))
    (events : List Event)
    → is_counted device_type ≡ true
    → OfDevice s (from_storage stored completed).serial_number
    → All (OfOne s) events
    → IsNondecreasing
        (total (from_storage stored completed))
        (totals device_type completed (new_keeper completed stored) events)
totals-IsNondecreasing s device_type completed stored events counted device of_one =
    rises s device_type completed _ (new_keeper completed stored) events counted
      (
        from_storage-IsValid stored completed,
        device,
        refl,
        inr (refl, from_storage_settled stored completed),
      )
      of_one
