-- ===== src/Energy/Resets.antt =====
-- What a decrease of the counter does that is neither a wrap nor a change of device.
use apc_modbus_snmp_ha.Prelude.{
  ℕ, false, ◌+◌, ◌≤◌, ◌<◌, String, ◌≡◌, Option, none, some, true, List, [], ◌∷◌, arith,
}
use apc_modbus_snmp_ha.Energy.{
  OutputEnergyTracker, reset, pending_reset, wrap_high_watermark, reset_confirmation_max_advance_wh,
  serial_changed, update,
}
use apc_modbus_snmp_ha.Energy.Continuity.{total, reports}

-- For two readings that come with the same serial number or both without one, the first of which is
-- held back as a pending reset: it reports the old total, and if the second is at the last accepted
-- reading or above, state and report are those of a tracker that never saw the first.
pub isolated_decrease :
    (t : OutputEnergyTracker) (low raw previous : ℕ) (serial : Option String)
    → t.previous_raw_wh ≡ some previous
    → (update t low serial).2 ≡ some pending_reset
    → previous ≤ raw
    → ((update t low serial).1 ≡ total t)
      × (update (update t low serial).0 raw serial ≡ update t raw serial)
unfolding update
isolated_decrease t low raw previous serial e pending back = ground arith

-- For two readings that come with the same serial number or both without one, the first of which is
-- held back as a pending reset, and a last accepted reading below the mark from which a fall counts
-- as a wrap: a second reading below the last accepted one, and from the first up to 50 Wh above it,
-- confirms the reset. The report is the old total and the second reading, which becomes the last
-- accepted one, and no rollover is counted.
pub confirmed_reset :
    (t : OutputEnergyTracker) (low raw previous : ℕ) (serial : Option String)
    → t.previous_raw_wh ≡ some previous
    → (update t low serial).2 ≡ some pending_reset
    → low ≤ raw
    → raw ≤ low + reset_confirmation_max_advance_wh
    → raw < previous
    → previous < wrap_high_watermark
    → let (t', reported, reason) = update (update t low serial).0 raw serial in
      (reported ≡ total t + raw)
      × (reason ≡ some reset)
      × (t'.previous_raw_wh ≡ some raw)
      × (t'.rollover_count ≡ t.rollover_count)
unfolding update
confirmed_reset t low raw previous serial e pending from upto below not_high = ground arith

-- Readings below `previous`, each more than 50 Wh above the one before it.
abbrev pub AdvancesFast : ℕ → ℕ → List ℕ → Type 0
AdvancesFast previous low [] = Unit
AdvancesFast previous low (raw ∷ rest) =
    (low + reset_confirmation_max_advance_wh < raw)
    × (raw < previous)
    × AdvancesFast previous raw rest

abbrev pub without_serial : List ℕ → List (ℕ × Option String)
without_serial [] = []
without_serial (raw ∷ rest) = (raw, none) ∷ without_serial rest

abbrev pub repeated : ℕ → List ℕ → List ℕ
repeated n [] = []
repeated n (_ ∷ rest) = n ∷ repeated n rest

-- For readings without a serial number, a last accepted reading below the mark from which a fall
-- counts as a wrap, and a pending reset to `low`: a counter that gains more than 50 Wh from `low` and
-- from each reading to the next, and stays below the last accepted reading, confirms nothing, and
-- each of these readings reports the old total.
pub fast_reset_stalls :
    (t : OutputEnergyTracker) (previous low : ℕ) (readings : List ℕ)
    → t.previous_raw_wh ≡ some previous
    → t.pending_reset_raw_wh ≡ some low
    → previous < wrap_high_watermark
    → AdvancesFast previous low readings
    → reports t (without_serial readings) ≡ repeated (total t) readings
unfolding reports update
fast_reset_stalls t previous low [] e p not_high fast = ground arith
fast_reset_stalls t previous low (raw ∷ rest) e p not_high fast =
    ground
      (arith, fast_reset_stalls (record t { pending_reset_raw_wh = some raw }) previous raw rest e)

-- A reading under another serial number starts afresh: offset, rollovers and pending reset go, and
-- the report is the new device's own counter.
pub device_replaced :
    (t : OutputEnergyTracker) (raw : ℕ) (old new : String)
    → t.serial_number ≡ some old
    → serial_changed (some old) (some new) ≡ true
    → update t raw (some new) ≡ (
      record {
        offset_wh = 0;
        previous_raw_wh = some raw;
        serial_number = some new;
        pending_reset_raw_wh = none;
        rollover_count = 0;
      },
      raw,
      none,
    )
unfolding update
device_replaced t raw old new e changed = ground arith

-- A reading that is held back as a pending reset changes nothing else.
pub update_pending :
    (t : OutputEnergyTracker) (raw : ℕ) (serial : Option String)
    → serial_changed t.serial_number serial ≡ false
    → (update t raw serial).2 ≡ some pending_reset
    → record (update t raw serial).0 { pending_reset_raw_wh = none }
      ≡ record t { pending_reset_raw_wh = none }
unfolding update
update_pending t raw serial same pending = ground arith
