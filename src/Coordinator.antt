-- ===== src/Coordinator.antt =====
-- The polling loop of custom_components/apc_modbus/coordinator.py: the backoff after failures and
-- the reports of communication episodes. Times are milliseconds of the monotonic clock, of which
-- Python takes 0.0 for "no backoff". A poll's own answer is a parameter: it raised, it read nothing,
-- or it read something. The enrichment that follows a usable poll is not modelled.
pub mod Backoff
pub mod Episodes
pub mod Detection
pub mod Enrichment
pub mod Identity
mod Tests
use apc_modbus_snmp_ha.Prelude.{
  ℕ, ◌+◌, ◌-◌, ◌*◌, min, Bool, true, false, not, Option, none, some, List, ◌∷◌, ltb, leb, ◌==◌,
  if◌then◌else◌, is_some, [],
}

-- What is logged at the ends of an episode.
pub data Report : Type 0 where
  unavailable : Report
  recovered : ℕ → Report

pub record Monitor : Type 0 where
  pub backoff_until : Option ℕ
  pub modbus_failure_started : Option ℕ
  pub modbus_failure_warning_emitted : Bool
  pub reports : List Report

abbrev pub backoff_base : ℕ
backoff_base = 2

abbrev pub backoff_max : ℕ
backoff_max = 60000

-- `self._backoff_until or now`
abbrev pub previous_until : ℕ → Option ℕ → ℕ
previous_until now none = now
previous_until now (some until) = if until == 0 then now else until

abbrev pub next_until : ℕ → ℕ → ℕ
next_until now prev =
    if ltb prev now
    then now + backoff_base * 1000
    else now + min backoff_max ((prev - now) * backoff_base)

-- `_register_failure`
abbrev pub register_failure : ℕ → Monitor → Monitor
register_failure now m = record m {
  backoff_until = some (next_until now (previous_until now m.backoff_until));
}

-- `_reset_backoff`
abbrev pub reset_backoff : Monitor → Monitor
reset_backoff m = record m { backoff_until = none }

-- `_should_run_now`
abbrev pub should_run_now : ℕ → Monitor → Bool
should_run_now now m = elim m.backoff_until [ none ↦ true | some until ↦ leb until now ]

-- `_record_modbus_failure`
abbrev pub record_modbus_failure : ℕ → Monitor → Monitor
record_modbus_failure now m = record m {
  modbus_failure_started = elim m.modbus_failure_started [
    | none ↦ some now
    | some started ↦ some started
  ];
  modbus_failure_warning_emitted = true;
  reports = if m.modbus_failure_warning_emitted then m.reports else unavailable ∷ m.reports;
}

-- `_record_modbus_recovery`
abbrev pub record_modbus_recovery : ℕ → Monitor → Monitor
record_modbus_recovery now m = elim m.modbus_failure_started [
  | none ↦ m
  | some started ↦ record m {
    modbus_failure_started = none;
    modbus_failure_warning_emitted = false;
    reports = recovered (now - started) ∷ m.reports;
  }
]

-- The answer of `async_poll`.
pub data Poll : Type 0 where
  poll_raised no_data usable : Poll

-- What a refresh gives: `refused` and `failed` are exceptions.
pub data Update : Type 0 where
  refused failed updated : Update

abbrev pub fail : ℕ → Monitor → Monitor
fail now m = record_modbus_failure now (register_failure now m)

-- `_async_update_data`: it starts at the time `start`, and the poll answers at the time `finish`.
pub async_update_data : ℕ → ℕ → Poll → Monitor → Update × Monitor
async_update_data start finish answer m =
    if not (should_run_now start m) then (refused, fail start m) else elim answer [
      | poll_raised ↦ (failed, fail finish m)
      | no_data ↦ (failed, fail finish m)
      | usable ↦ (updated, record_modbus_recovery finish (reset_backoff m))
    ]

-- A refresh of a sequence: how long after the previous attempt it starts, how long its poll takes
-- and what the poll answers. Between the end of a refresh and the start of the next one some time
-- `pause` passes.
pub record Refresh : Type 0 where
  pub pause : ℕ
  pub elapsed : ℕ
  pub answer : Poll

-- The time at the end of a refresh that started at `start`.
abbrev pub finished_at : ℕ → Refresh → Monitor → ℕ
finished_at start r m = if should_run_now start m then start + r.elapsed else start

-- A sequence of refreshes from the time at which the one before ended, and their outcomes.
unfoldable pub refreshes : ℕ → List Refresh → Monitor → List Update × Monitor
unfolding async_update_data
refreshes time [] m = ([], m)
refreshes time (r ∷ rest) m =
    let start = time + r.pause in
    let out = async_update_data start (start + r.elapsed) r.answer m in
    let later = refreshes (finished_at start r m) rest out.1 in (out.0 ∷ later.0, later.1)
