-- ===== src/Snmp.antt =====
-- The SNMP queries of custom_components/apc_modbus/snmp_helper.py: one value, and a map of values.
-- The SNMP library is a parameter: `Agent` gives what its `get_cmd` yields for each OID. The
-- queries of one map run at the same time, so all of them are given one agent.
pub mod Numbers
mod Tests
pub mod Fetching
pub mod Detected
pub mod Printed
pub mod SelfTest
pub mod Dates
pub mod Times
pub mod Models
pub mod Commands
pub mod Probes
use apc_modbus_snmp_ha.Prelude.{
  ℕ, String, Bool, true, false, Option, none, some, List, [], ◌∷◌, any, str_eq, if◌then◌else◌,
}
use apc_modbus_snmp_ha.Prelude.Dict.{Dict, lookup, insert}
use apc_modbus_snmp_ha.Coordinator.Enrichment.{Text}
use apc_modbus_snmp_ha.Modbus.{
  ExceptionKind, os_error, timeout_error, value_error, runtime_error, Raised, Outcome, returned,
  raised,
}

-- What a GET yields: an exception, an indication or status of an error, or the values of its
-- bindings as texts.
pub data GetAnswer : Type 0 where
  get_raised : Raised → GetAnswer
  error_indication error_status : GetAnswer
  var_binds : List Text → GetAnswer

abbrev pub Agent : Type 0
Agent = String → GetAnswer

-- The exceptions that `async_get_snmp_value` handles
abbrev is_query_failure : ExceptionKind → Bool
is_query_failure os_error = true
is_query_failure timeout_error = true
is_query_failure runtime_error = true
is_query_failure value_error = true
is_query_failure _ = false

unfoldable pub async_get_snmp_value : GetAnswer → Outcome (Option Text)
async_get_snmp_value (get_raised e) = if is_query_failure e.kind then returned none else raised e
async_get_snmp_value error_indication = returned none
async_get_snmp_value error_status = returned none
async_get_snmp_value (var_binds []) = returned none
async_get_snmp_value (var_binds (value ∷ _)) = returned (some value)

-- `raw if not isinstance(raw, Exception) else None`, behind `gather` with `return_exceptions`
abbrev pub or_missing : Outcome (Option Text) → Option Text
or_missing (returned value) = value
or_missing (raised _) = none

unfoldable pub gathered : GetAnswer → Option Text
unfolding async_get_snmp_value
gathered answer = or_missing (async_get_snmp_value answer)

-- The loop of `_dedupe_oids_preserve_order`
unfoldable pub dedupe_loop : List String → List String → List String
dedupe_loop seen [] = []
dedupe_loop seen (oid ∷ oids) = elim (any (str_eq oid) seen) [
  | true ↦ dedupe_loop seen oids
  | false ↦ oid ∷ dedupe_loop (oid ∷ seen) oids
]

unfoldable pub dedupe_oids_preserve_order : List String → List String
unfolding dedupe_loop
dedupe_oids_preserve_order oids = dedupe_loop [] oids

abbrev pub ValueMap : Type 0
ValueMap = Dict (Option Text)

-- The loop that fills the map, in the order of the OIDs
unfoldable pub fill_map : Agent → List String → ValueMap → ValueMap
fill_map agent [] map = map
fill_map agent (oid ∷ oids) map = fill_map agent oids (insert oid (gathered (agent oid)) map)

-- `_fetch_snmp_value_map`
unfoldable pub fetch_snmp_value_map : Agent → List String → ValueMap
fetch_snmp_value_map agent oids = fill_map agent (dedupe_oids_preserve_order oids) []

-- `value_map.get(oid)`
abbrev pub get_value : String → ValueMap → Option Text
get_value oid map = elim (lookup oid map) [ none ↦ none | some value ↦ value ]

-- `_select_first_present_candidate_from_map`
unfoldable pub select_first_present : List String → ValueMap → Option String
select_first_present [] map = none
select_first_present (oid ∷ oids) map =
    let rest = select_first_present oids map in
    elim (get_value oid map) [ some _ ↦ some oid | none ↦ rest ]

-- `_select_first_usable_candidate_from_map`
unfoldable pub select_first_usable {ℓ} :
    {A : Type ℓ} → List String → ValueMap → (Option Text → Option A) → Option String
select_first_usable [] map parser = none
select_first_usable (oid ∷ oids) map parser =
    let rest = select_first_usable oids map parser in
    elim (parser (get_value oid map)) [ some _ ↦ some oid | none ↦ rest ]
