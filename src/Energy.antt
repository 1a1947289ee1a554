-- ===== src/Energy.antt =====
-- custom_components/apc_modbus/output_energy_tracker.py: the uint32 watt-hour counter of the
-- SMT families, made continuous over resets and wraps. Readings are natural numbers, since a
-- decoded uint32 register is never negative; the serial number is an optional text, and Python's
-- truth test on it is `is_truthy`.
pub mod Storage
pub mod Continuity
pub mod Resets
pub mod Meter
mod Tests
use apc_modbus_snmp_ha.Prelude.{
  ℕ, ◌+◌, ◌*◌, ◌/◌, ◌^◌, String, Bool, false, not, ◌&&◌, Option, none, some, str_eq, ltb, leb,
  if◌then◌else◌,
}

-- OUTPUT_ENERGY_WRAP_WH, _WRAP_HIGH_WATERMARK, _WRAP_LOW_WATERMARK and
-- _RESET_CONFIRMATION_MAX_ADVANCE_WH
abbrev pub output_energy_wrap_wh : ℕ
output_energy_wrap_wh = 2 ^ 32

abbrev pub wrap_high_watermark : ℕ
wrap_high_watermark = output_energy_wrap_wh * 99 / 100

abbrev pub wrap_low_watermark : ℕ
wrap_low_watermark = output_energy_wrap_wh / 100

abbrev pub reset_confirmation_max_advance_wh : ℕ
reset_confirmation_max_advance_wh = 50

pub record OutputEnergyTracker : Type 0 where
  pub offset_wh : ℕ
  pub previous_raw_wh : Option ℕ
  pub serial_number : Option String
  pub pending_reset_raw_wh : Option ℕ
  pub rollover_count : ℕ

-- The reason that `update` returns beside the total.
pub data Reason : Type 0 where
  wrap reset pending_reset : Reason

abbrev pub is_truthy : Option String → Bool
is_truthy none = false
is_truthy (some s) = not (str_eq s "")

-- `a and b and a != b`
abbrev pub serial_changed : Option String → Option String → Bool
serial_changed (some a) (some b) = not (str_eq a "") && not (str_eq b "") && not (str_eq a b)
serial_changed _ _ = false

abbrev pub forget : OutputEnergyTracker → OutputEnergyTracker
forget t = record t {
  offset_wh = 0;
  previous_raw_wh = none;
  pending_reset_raw_wh = none;
  rollover_count = 0;
}

-- The end of `update`, which the branches that accept the reading share.
abbrev pub settle :
    OutputEnergyTracker
    → ℕ
    → Option String
    → Option Reason
    → OutputEnergyTracker × ℕ × Option Reason
settle t raw serial reason = (
  record t {
    previous_raw_wh = some raw;
    pending_reset_raw_wh = none;
    serial_number = if is_truthy serial then serial else t.serial_number;
  },
  t.offset_wh + raw,
  reason,
)

-- A second reading near the first lower one confirms a reset.
abbrev pub confirms : Option ℕ → ℕ → Bool
confirms none raw = false
confirms (some p) raw = leb p raw && leb raw (p + reset_confirmation_max_advance_wh)

-- `update` behind the serial check, by the previous reading.
abbrev pub observe :
    Option ℕ → OutputEnergyTracker → ℕ → Option String → OutputEnergyTracker × ℕ × Option Reason
observe none t raw serial = settle t raw serial none
observe (some previous) t raw serial =
    if ltb raw previous
    then if leb wrap_high_watermark previous && leb raw wrap_low_watermark
      then settle
          (record t {
            offset_wh = t.offset_wh + output_energy_wrap_wh;
            rollover_count = t.rollover_count + 1;
          })
          raw serial (some wrap)
      else if confirms t.pending_reset_raw_wh raw
      then settle (record t { offset_wh = t.offset_wh + previous }) raw serial (some reset)
      else (
        record t { pending_reset_raw_wh = some raw },
        t.offset_wh + previous,
        some pending_reset,
      )
    else settle t raw serial none

unfoldable pub update :
    OutputEnergyTracker → ℕ → Option String → OutputEnergyTracker × ℕ × Option Reason
update t raw serial =
    let current = if serial_changed t.serial_number serial then forget t else t in
    observe current.previous_raw_wh current raw serial
