-- ===== src/Energy/Storage.antt =====
-- `OutputEnergyTracker.from_storage` and `as_dict`: what Home Assistant's storage returns is a
-- dict of JSON values or something else, and Python's `isinstance(x, int)` also takes a bool.
use apc_modbus_snmp_ha.Prelude.{
  ℕ, ◌*◌, String, ◌≡◌, Bool, true, false, Option, none, some, [], ◌∷◌, arith, str_eq, ltb,
  if◌then◌else◌,
}
use apc_modbus_snmp_ha.Prelude.Int.{ℤ, pos}
use apc_modbus_snmp_ha.Prelude.Dict.{Dict, lookup}
use apc_modbus_snmp_ha.Energy.{OutputEnergyTracker, output_energy_wrap_wh}
use apc_modbus_snmp_ha.Energy.Continuity.{IsValid}

-- A stored value; `other` is a float, a list or a dict.
pub data Stored : Type 0 where
  null other : Stored
  bool : Bool → Stored
  int : ℤ → Stored
  text : String → Stored

-- The value as an int, where `isinstance(value, int)`.
abbrev pub as_int : Stored → Option ℤ
as_int (bool true) = some (pos 1)
as_int (bool false) = some (pos 0)
as_int (int z) = some z
as_int _ = none

-- The value where it is an int of 0 or more.
abbrev pub as_count : Stored → Option ℕ
as_count v = elim (as_int v) [ some (pos n) ↦ some n | _ ↦ none ]

-- `state.get(key)`: a missing key gives None.
abbrev pub get : String → Dict Stored → Stored
get key state = elim (lookup key state) [ none ↦ null | some v ↦ v ]

unfoldable pub seed : ℕ → OutputEnergyTracker
seed initial_rollovers = record {
  offset_wh = initial_rollovers * output_energy_wrap_wh;
  previous_raw_wh = none;
  serial_number = none;
  pending_reset_raw_wh = none;
  rollover_count = initial_rollovers;
}

-- The stored previous reading: `none` where it is refused.
abbrev pub stored_previous : Stored → Option (Option ℕ)
stored_previous null = some none
stored_previous v = elim (as_count v) [
  | none ↦ none
  | some n ↦ if ltb n output_energy_wrap_wh then some (some n) else none
]

abbrev pub stored_serial : Stored → Option String
stored_serial (text s) = if str_eq s "" then none else some s
stored_serial _ = none

-- `state.get("rollover_count", initial_rollovers)`, or the initial count where it is no count
abbrev pub stored_rollovers : ℕ → Dict Stored → ℕ
stored_rollovers initial_rollovers state = elim (lookup "rollover_count" state) [
  | none ↦ initial_rollovers
  | some v ↦ elim (as_count v) [ none ↦ initial_rollovers | some n ↦ n ]
]

abbrev pub restore : Option ℕ → Option (Option ℕ) → Dict Stored → ℕ → OutputEnergyTracker
restore (some offset) (some previous) state initial_rollovers = record {
  offset_wh = offset;
  previous_raw_wh = previous;
  serial_number = stored_serial (get "serial_number" state);
  pending_reset_raw_wh = none;
  rollover_count = stored_rollovers initial_rollovers state;
}
restore _ _ state initial_rollovers = seed initial_rollovers

-- `none` stands for a state that is no dict.
unfoldable pub from_storage : Option (Dict Stored) → ℕ → OutputEnergyTracker
unfolding seed
from_storage none initial_rollovers = seed initial_rollovers
from_storage (some state) initial_rollovers =
    restore (as_count (get "offset_wh" state)) (stored_previous (get "previous_raw_wh" state)) state
      initial_rollovers

abbrev pub or_null : {A : Type 0} → (A → Stored) → Option A → Stored
or_null f none = null
or_null f (some a) = f a

unfoldable pub as_dict : OutputEnergyTracker → Dict Stored
as_dict t =
    ("offset_wh", int (pos t.offset_wh))
    ∷ ("previous_raw_wh", or_null (λ n. int (pos n)) t.previous_raw_wh)
    ∷ ("serial_number", or_null text t.serial_number)
    ∷ ("rollover_count", int (pos t.rollover_count))
    ∷ []

-- Whatever the storage holds, the restored state is valid.
pub from_storage-IsValid :
    (state : Option (Dict Stored)) (initial_rollovers : ℕ)
    → IsValid (from_storage state initial_rollovers)
unfolding from_storage
from_storage-IsValid none k = ground arith
from_storage-IsValid (some state) k = ground arith

-- A saved valid state is restored as it was, but for a pending reset, which is not saved.
pub from_storage-as_dict :
    (t : OutputEnergyTracker) (initial_rollovers : ℕ)
    → IsValid t
    → from_storage (some (as_dict t)) initial_rollovers ≡ record t { pending_reset_raw_wh = none }
unfolding from_storage as_dict lookup
from_storage-as_dict t k v = ground arith

-- A restored state has no pending reset.
pub from_storage_settled :
    (state : Option (Dict Stored)) (initial_rollovers : ℕ)
    → from_storage state initial_rollovers
      ≡ record (from_storage state initial_rollovers) { pending_reset_raw_wh = none }
unfolding from_storage
from_storage_settled none k = ground arith
from_storage_settled (some state) k = ground arith
