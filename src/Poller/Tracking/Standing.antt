-- ===== src/Poller/Tracking/Standing.antt =====
-- What the keeper of the tracker stands at, through saves, restarts and one reading.
use apc_modbus_snmp_ha.Prelude.{
  ℕ, ◌≤◌, ◌<◌, String, ◌≡◌, refl, sym, ap, subst, ◌∙◌, ◌⊎◌, inl, inr, true, false, Option, none,
  some, arith, Bool-cases, if◌then◌else◌,
}
use apc_modbus_snmp_ha.Prelude.Dict.{Dict, lookup, insert, lookup-insert}
use apc_modbus_snmp_ha.Prelude.Int.{pos}
use apc_modbus_snmp_ha.Decode.{Value, int}
use apc_modbus_snmp_ha.Energy.{
  OutputEnergyTracker, Reason, pending_reset, update, output_energy_wrap_wh,
}
use apc_modbus_snmp_ha.Energy.Storage.{
  from_storage, from_storage-IsValid, from_storage-as_dict, from_storage_settled,
}
use apc_modbus_snmp_ha.Energy.Continuity.{
  IsValid, total, OfDevice, OfDevice-serial_changed, OfDevice-update, update_continues,
}
use apc_modbus_snmp_ha.Energy.Resets.{update_pending}
use apc_modbus_snmp_ha.Poller.Tracking.{
  Keeper, restore_tracker, raw_reading, is_pending, track_reading, ready, save, restart,
}

abbrev pub settled : OutputEnergyTracker → OutputEnergyTracker
settled t = record t { pending_reset_raw_wh = none }

-- The tracker that the next reading meets
abbrev pub current : ℕ → Keeper → OutputEnergyTracker
current completed k =
    if k.energy_restored then k.energy_tracker else from_storage k.stored completed

-- The tracker is valid and of the device, stands at the total, and the store has it but for a
-- pending reset, or a save is asked for.
abbrev pub Stands : String → ℕ → ℕ → Keeper → Type 0
Stands s completed low k =
    IsValid (current completed k)
    × OfDevice s (current completed k).serial_number
    × (total (current completed k) ≡ low)
    × (((k.save_scheduled ≡ true) × (k.energy_restored ≡ true))
        ⊎ ((k.save_scheduled ≡ false)
            × (from_storage k.stored completed ≡ settled (current completed k))))

saved-settled :
    (s : String) (completed low : ℕ) (k : Keeper)
    → Stands s completed low k
    → from_storage (save k).stored completed ≡ settled (current completed k)
saved-settled s completed low k (valid, device, at_low, inl (asked, restored)) =
    rw asked (rw restored (from_storage-as_dict k.energy_tracker completed (rw restored at valid)))
saved-settled s completed low k (valid, device, at_low, inr (quiet, same)) = rw quiet same

pub restart-Stands :
    (s : String) (completed low : ℕ) (k : Keeper)
    → Stands s completed low k
    → Stands s completed low (restart completed k)
restart-Stands s completed low k h =
    let e = saved-settled s completed low k h in
    (
      from_storage-IsValid (save k).stored completed,
      subst (λ t. OfDevice s t.serial_number) (sym e) h.1,
      ap total e ∙ h.2,
      inr (refl, from_storage_settled (save k).stored completed),
    )

current-save :
    (s : String) (completed low : ℕ) (k : Keeper)
    → Stands s completed low k
    → current completed (save k) ≡ current completed k
current-save s completed low k (valid, device, at_low, inl (asked, restored)) = rw restored refl
current-save s completed low k (valid, device, at_low, inr (quiet, same)) = rw quiet refl

pub save-Stands :
    (s : String) (completed low : ℕ) (k : Keeper)
    → Stands s completed low k
    → Stands s completed low (save k)
save-Stands s completed low k h =
    let e = current-save s completed low k h in
    (
      subst IsValid (sym e) h.0,
      subst (λ t. OfDevice s t.serial_number) (sym e) h.1,
      ap total e ∙ h.2,
      inr (refl, saved-settled s completed low k h ∙ ap settled (sym e)),
    )

-- The same of a keeper whose tracker is restored.
abbrev pub Holds : String → ℕ → ℕ → Keeper → Type 0
Holds s completed low k =
    (k.energy_restored ≡ true)
    × IsValid k.energy_tracker
    × OfDevice s k.energy_tracker.serial_number
    × (total k.energy_tracker ≡ low)
    × ((k.save_scheduled ≡ true)
        ⊎ ((k.save_scheduled ≡ false)
            × (from_storage k.stored completed ≡ settled k.energy_tracker)))

pub ready-Holds :
    (s : String) (completed low : ℕ) (k : Keeper)
    → Stands s completed low k
    → Holds s completed low (ready completed k)
ready-Holds s completed low k h = elim (Bool-cases k.energy_restored) [
  | inl e ↦
      let cur : current completed k ≡ k.energy_tracker = rw e refl in
      let same : k ≡ ready completed k = rw e refl in
      subst (Holds s completed low) same (
        e,
        subst IsValid cur h.0,
        subst (λ t. OfDevice s t.serial_number) cur h.1,
        ap total (sym cur) ∙ h.2,
        elim h.3 [
          | inl (asked, restored) ↦ inl asked
          | inr (quiet, stored) ↦ inr (quiet, stored ∙ ap settled cur)
        ],
      )
  | inr e ↦
      let cur : current completed k ≡ from_storage k.stored completed = rw e refl in
      let same : restore_tracker completed k ≡ ready completed k = rw e refl in
      subst (Holds s completed low) same (
        refl,
        subst IsValid cur h.0,
        subst (λ t. OfDevice s t.serial_number) cur h.1,
        ap total (sym cur) ∙ h.2,
        elim h.3 [
          | inl (asked, restored) ↦ absurd (ground arith)
          | inr (quiet, stored) ↦ inr (quiet, stored ∙ ap settled cur)
        ],
      )
]

pub Holds-Stands :
    (s : String) (completed low : ℕ) (k : Keeper)
    → Holds s completed low k
    → Stands s completed low k
Holds-Stands s completed low k h =
    let cur : k.energy_tracker ≡ current completed k = rw h.0 refl in
    (
      subst IsValid cur h.1,
      subst (λ t. OfDevice s t.serial_number) cur h.2,
      ap total (sym cur) ∙ h.3,
      elim h.4 [
        | inl asked ↦ inl (asked, h.0)
        | inr (quiet, stored) ↦ inr (quiet, stored ∙ ap settled cur)
      ],
    )

output_looked_up :
    (values : Dict Value) (n m : ℕ)
    → raw_reading (
        lookup "output_energy" (
          insert "output_energy_rollover"
            (int (pos m))
            (insert "output_energy" (int (pos n)) values)))
      ≡ some n
output_looked_up values n m =
    rw
      (lookup-insert "output_energy_rollover" "output_energy" (int (pos m))
        (insert "output_energy" (int (pos n)) values))
      (rw (lookup-insert "output_energy" "output_energy" (int (pos n)) values) refl)

pending_of : (reason : Option Reason) → is_pending reason ≡ true → reason ≡ some pending_reset
pending_of reason h = ground arith

-- One reading of the device
pub track_reading-Holds :
    (s : String) (completed low : ℕ) (k : Keeper) (raw : ℕ) (values : Dict Value)
    (serial : Option String)
    → Holds s completed low k
    → raw < output_energy_wrap_wh
    → OfDevice s serial
    → let (values', k') = track_reading raw values serial k in
      (n : ℕ) × (raw_reading (lookup "output_energy" values') ≡ some n)
      × (low ≤ n)
      × Holds s completed n k'
unfolding track_reading
track_reading-Holds s completed low k raw values serial h fits same_device =
    let t = k.energy_tracker in
    let same = OfDevice-serial_changed s t.serial_number serial h.2 same_device in
    let step = update_continues t raw serial h.1 fits same in
    let (t', total_wh, reason) = update t raw serial in
    (
      total_wh,
      output_looked_up values total_wh t'.rollover_count,
      rw h.3 at step.2,
      (
        h.0,
        step.0,
        OfDevice-update s t raw serial h.2 same_device,
        step.1,
        elim (Bool-cases (is_pending reason)) [
          | inl e ↦
              let kept = update_pending t raw serial same (pending_of reason e) in
              elim h.4 [
                | inl asked ↦ inl (rw (e, asked) refl)
                | inr (quiet, stored) ↦ inr (rw (e, quiet) refl, stored ∙ sym kept)
              ]
          | inr e ↦ inl (rw e refl)
        ],
      ),
    )
