-- ===== src/Diagnostics/Dump.antt =====
-- The order in which a diagnostic dump opens its connections, its idle probe, and the identities that
-- it decodes (custom_components/apc_modbus/diagnostic_collector.py). Idle times are whole seconds.
pub mod Spacing
mod Tests
use apc_modbus_snmp_ha.Prelude.{
  ℕ, zero, suc, ◌+◌, String, Bool, true, false, not, ◌&&◌, Option, none, some, List, [], ◌∷◌, ◌++◌,
  any, take, drop, ◌==◌, if◌then◌else◌,
}
use apc_modbus_snmp_ha.Prelude.Int.{ℤ, pos, negsuc}
use apc_modbus_snmp_ha.Coordinator.Enrichment.{Text}
use apc_modbus_snmp_ha.Device.{SchemaProbe, schema_probes}
use apc_modbus_snmp_ha.Transport.{Mode, session, one_request_per_connection}
use apc_modbus_snmp_ha.Wire.{
  Arrival, WireError, os_error, Result, ok, err, ◌>>=◌, read_holding_registers_on_connection,
}
use apc_modbus_snmp_ha.Diagnostics.{
  BlockReport, collected, Parsed, parsed_error, parsed_registers, parse_modbus_response,
  modbus_blocks,
}
use apc_modbus_snmp_ha.Diagnostics.Decodes.{decode_ascii_registers}

-- A connection for one range, or the sleep before one
pub data Step : Type 0 where
  pause : Step
  connect : (start count : ℕ) → Step

abbrev pub is_one_request : Mode → Bool
is_one_request session = false
is_one_request one_request_per_connection = true

-- A connection behind a sleep where the mode asks for one
abbrev pub spaced : Bool → ℕ → ℕ → List Step → List Step
spaced true start count rest = pause ∷ connect start count ∷ rest
spaced false start count rest = connect start count ∷ rest

-- The loop over MODBUS_BLOCKS, from its second block on and as a whole
unfoldable pub later_blocks : Bool → List (ℕ × ℕ) → List Step
later_blocks one [] = []
later_blocks one ((start, count) ∷ blocks) = spaced one start count (later_blocks one blocks)

unfoldable pub block_steps : Bool → List (ℕ × ℕ) → List Step
block_steps one [] = []
block_steps one ((start, count) ∷ blocks) = connect start count ∷ later_blocks one blocks

-- `blocks_by_range.get((start, count)) is not None`
abbrev pub is_block : List (ℕ × ℕ) → ℕ → ℕ → Bool
is_block blocks start count = any (λ b. b.0 == start && b.1 == count) blocks

-- The loop over MODBUS_PROBES, by their ranges
unfoldable pub probe_steps : Bool → List (ℕ × ℕ) → List (ℕ × ℕ) → List Step
probe_steps one blocks [] = []
probe_steps one blocks ((start, count) ∷ probes) =
    let rest = probe_steps one blocks probes in
    if is_block blocks start count then rest else spaced one start count rest

-- The connections of `collect_diagnostic_dump` behind its idle probe
unfoldable pub dump_steps : Mode → List (ℕ × ℕ) → List (ℕ × ℕ) → List Step
dump_steps mode blocks probes =
    block_steps (is_one_request mode) blocks ++ probe_steps (is_one_request mode) blocks probes

-- `_run_modbus_tcp_idle_probe_once`: whether each read was answered with registers, and the code of
-- an invalid time
pub record IdleReport : Type 0 where
  pub enabled : Bool
  pub idle_seconds_tested : Option ℤ
  pub error_code : Option String
  pub first_read : Option Bool
  pub second_read : Option Bool
  pub socket_survived_idle : Option Bool

abbrev untested : Option ℤ → IdleReport
untested idle_seconds = record {
  enabled = true;
  idle_seconds_tested = idle_seconds;
  error_code = none;
  first_read = none;
  second_read = none;
  socket_survived_idle = none;
}

abbrev broken_off : IdleReport → IdleReport
broken_off r = record r { second_read = some false; socket_survived_idle = some false }

abbrev has_registers : Parsed → Bool
has_registers (parsed_error _) = false
has_registers (parsed_registers _ _) = true

-- A read of the idle probe: whether it gave registers, and what has arrived behind it
abbrev idle_read : (List ℕ → List Arrival) → List Arrival → ℕ → Result (Bool × List Arrival)
idle_read peer arrived unit_id = do
  (raw, s) ← read_holding_registers_on_connection peer arrived unit_id 0x0000 1
  parsed ← parse_modbus_response raw
  ok (has_registers parsed, s)

abbrev second_report : IdleReport → Result (Bool × List Arrival) → IdleReport
second_report r (err e) = broken_off r
second_report r (ok (b, s)) = record r { second_read = some b; socket_survived_idle = some b }

-- The peer may answer otherwise behind the sleep.
module _ (connects : Bool) (peer later_peer : List ℕ → List Arrival) (unit_id : ℕ) where
  abbrev first_report : IdleReport → Result (Bool × List Arrival) → IdleReport
  first_report r (err e) = broken_off r
  first_report r (ok (b, s)) =
      second_report (record r { first_read = some b }) (idle_read later_peer s unit_id)

  unfoldable pub run_idle_probe_once : Option ℤ → IdleReport
  run_idle_probe_once none = record (untested none) { enabled = false }
  run_idle_probe_once (some (negsuc n)) = record (untested (some (negsuc n))) {
    error_code = some "invalid_idle_seconds";
  }
  run_idle_probe_once (some (pos n)) =
      first_report (untested (some (pos n)))
        (if connects then idle_read peer [] unit_id else err os_error)

-- `_build_modbus_tcp_idle_probe`; none where the mode skips it.
pub record IdleProbe : Type 0 where
  pub short_idle : IdleReport
  pub configured_idle : IdleReport
  pub risk : Bool

abbrev is_false : Option Bool → Bool
is_false (some b) = not b
is_false none = false

unfoldable pub build_modbus_tcp_idle_probe :
    Mode → Option Bool → (Option ℤ → IdleReport) → Option ℤ → Option IdleProbe
build_modbus_tcp_idle_probe one_request_per_connection keep_connection_open run idle_seconds = none
build_modbus_tcp_idle_probe session keep_connection_open run idle_seconds =
    let configured = run idle_seconds in
    some (record {
      short_idle = run (some (pos 3));
      configured_idle = configured;
      risk =
          (elim keep_connection_open [ none ↦ false | some b ↦ b ])
          && is_false configured.socket_survived_idle;
    })

-- `_add_decodes`: the registers of a block, as far as it has any
abbrev block_registers : BlockReport → List ℕ
block_registers (collected _ _ _ (parsed_registers _ registers)) = registers
block_registers _ = []

-- "legacy_ups_id", where it is not empty
abbrev pub legacy_identity : BlockReport → Text
legacy_identity block = decode_ascii_registers (take 8 (drop 1 (block_registers block)))

-- "ascii_chunks": the texts of eight registers each that are not empty, by their addresses; so many
-- registers belong to the last one still.
unfoldable pub ascii_chunks : ℕ → ℕ → List ℕ → List (ℕ × Text)
ascii_chunks skip address [] = []
ascii_chunks (suc skip) address (r ∷ registers) = ascii_chunks skip (address + 1) registers
ascii_chunks zero address (r ∷ registers) =
    let chunks = ascii_chunks 7 (address + 1) registers in
    elim (decode_ascii_registers (take 8 (r ∷ registers))) [
      | [] ↦ chunks
      | c ∷ decoded ↦ (address, c ∷ decoded) ∷ chunks
    ]

abbrev pub modern_identity : BlockReport → List (ℕ × Text)
modern_identity block = ascii_chunks 0 0x023C (block_registers block)
