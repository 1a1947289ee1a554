-- ===== src/Poller/Tracking.antt =====
-- The poller's use of the output energy tracker: `async_restore_output_energy_tracker` and
-- `async_track_output_energy` of custom_components/apc_modbus/modbus_poller.py.
-- `stored` is what the store's `async_load` returns, none where it is no dict. `async_delay_save`
-- asks for a later save, which Home Assistant performs after the delay or when it stops: `save`
-- writes the tracker's dict if a save is asked for, and `restart` is a stop with a new start. A
-- negative number is no reading, as in the tracker.
pub mod Standing
pub mod Restarts
use apc_modbus_snmp_ha.Prelude.{
  ℕ, ◌-◌, ◌^◌, String, Bool, true, false, not, ◌&&◌, ◌||◌, Option, none, some, List, [], ◌∷◌, ◌==◌,
  if◌then◌else◌,
}
use apc_modbus_snmp_ha.Prelude.Dict.{Dict, lookup, insert, erase}
use apc_modbus_snmp_ha.Prelude.Int.{pos}
use apc_modbus_snmp_ha.Decode.{Value, int}
use apc_modbus_snmp_ha.Device.{ApcDeviceType, smt_ups, smartconnect_ups, is_same}
use apc_modbus_snmp_ha.Energy.{OutputEnergyTracker, Reason, pending_reset, update}
use apc_modbus_snmp_ha.Energy.Storage.{Stored, from_storage, as_dict}

pub record Keeper : Type 0 where
  pub energy_tracker : OutputEnergyTracker
  pub energy_restored : Bool
  pub stored : Option (Dict Stored)
  pub save_scheduled : Bool

-- `ModbusPoller.__init__`, for what the store holds
abbrev pub new_keeper : ℕ → Option (Dict Stored) → Keeper
new_keeper completed_rollovers stored = record {
  energy_tracker = from_storage none completed_rollovers;
  energy_restored = false;
  stored = stored;
  save_scheduled = false;
}

abbrev pub restore_tracker : ℕ → Keeper → Keeper
restore_tracker completed_rollovers k = record k {
  energy_tracker = from_storage k.stored completed_rollovers;
  energy_restored = true;
}

-- `isinstance(raw_wh, int)`
abbrev pub raw_reading : Option Value → Option ℕ
raw_reading (some (int (pos n))) = some n
raw_reading _ = none

abbrev pub is_counted : ApcDeviceType → Bool
is_counted device_type = is_same device_type smt_ups || is_same device_type smartconnect_ups

-- A SmartConnect device that has no reading answers with ones.
abbrev pub is_missing : ApcDeviceType → ℕ → Bool
is_missing device_type raw_wh = is_same device_type smartconnect_ups && raw_wh == 2 ^ 32 - 1

abbrev pub is_pending : Option Reason → Bool
is_pending (some pending_reset) = true
is_pending _ = false

-- The end of `async_track_output_energy`, with the tracker restored
unfoldable pub track_reading : ℕ → Dict Value → Option String → Keeper → Dict Value × Keeper
track_reading raw_wh values serial_number k =
    let (tracker, total_wh, reason) = update k.energy_tracker raw_wh serial_number in
    (
      insert "output_energy_rollover" (int (pos tracker.rollover_count))
          (insert "output_energy" (int (pos total_wh)) values),
      record k {
        energy_tracker = tracker;
        save_scheduled = not (is_pending reason) || k.save_scheduled;
      },
    )

abbrev pub ready : ℕ → Keeper → Keeper
ready completed_rollovers k = if k.energy_restored then k else restore_tracker completed_rollovers k

unfoldable pub async_track_output_energy :
    Dict Value → ApcDeviceType → Option String → ℕ → Keeper → Dict Value × Keeper
async_track_output_energy values device_type serial_number completed_rollovers k =
    elim (raw_reading (lookup "output_energy" values)) [
      | none ↦ (values, k)
      | some raw_wh ↦
          if not (is_counted device_type)
          then (values, k)
          else if is_missing device_type raw_wh
          then (erase "output_energy_rollover" (erase "output_energy" values), k)
          else track_reading raw_wh values serial_number (ready completed_rollovers k)
    ]

-- The delayed save, and a stop of Home Assistant, which saves, with a new start
abbrev pub save : Keeper → Keeper
save k = record k {
  stored = if k.save_scheduled then some (as_dict k.energy_tracker) else k.stored;
  save_scheduled = false;
}

abbrev pub restart : ℕ → Keeper → Keeper
restart completed_rollovers k = new_keeper completed_rollovers (save k).stored
