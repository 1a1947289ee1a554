-- ===== src/Fleet.antt =====
-- custom_components/apc_modbus/scan_interval_guard.py and startup_stagger.py: spreading the load of
-- many entries. A delay is the fraction of its numerator and denominator; the float division is not
-- modelled, and neither is Python's order of texts, which is the parameter `text_le`.
pub mod Intervals
pub mod Slots
mod Tests
use apc_modbus_snmp_ha.Prelude.{
  ℕ, ◌+◌, ◌*◌, min, max, String, Bool, Option, none, some, List, [], ◌∷◌, length, leb, str_eq,
  if◌then◌else◌,
}
use apc_modbus_snmp_ha.Prelude.Int.{ℤ, pos, negsuc}
use apc_modbus_snmp_ha.Prelude.Sorting.{sorted}

-- `max(n, 1)`
abbrev pub at_least_one : ℤ → ℕ
at_least_one (pos n) = max n 1
at_least_one (negsuc n) = 1

pub compute_effective_scan_interval : ℤ → ℤ → ℕ
compute_effective_scan_interval configured_seconds total_entries =
    let configured = at_least_one configured_seconds in
    let entries = at_least_one total_entries in
    if leb entries 8 then configured else max configured (min (max (entries * 2) 20) 120)

pub record Delay : Type 0 where
  pub numerator : ℕ
  pub denominator : ℕ

abbrev pub no_delay : Delay
no_delay = record { numerator = 0; denominator = 1 }

-- `ids.index(id)`; `none` where Python raises ValueError
unfoldable pub index_of : List String → String → Option ℕ
index_of [] id = none
index_of (x ∷ rest) id = elim (index_of rest id) [
  | none ↦ if str_eq x id then some 0 else none
  | some i ↦ if str_eq x id then some 0 else some (i + 1)
]

abbrev pub window_seconds : ℕ → ℕ → ℕ
window_seconds scan_interval total_entries = min (max scan_interval total_entries) 60

-- The delay of a slot among so many entries
abbrev pub delay_of : ℕ → ℕ → Option ℕ → Delay
delay_of scan_interval total none = no_delay
delay_of scan_interval total (some slot) =
    if leb total 1
    then no_delay
    else record { numerator = slot * window_seconds scan_interval total; denominator = total }

pub compute_startup_stagger_delay : (String → String → Bool) → List String → String → ℕ → Delay
compute_startup_stagger_delay text_le entry_ids current_entry_id scan_interval =
    let ordered = sorted text_le entry_ids in
    delay_of scan_interval (length ordered) (index_of ordered current_entry_id)
