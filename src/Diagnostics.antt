-- ===== src/Diagnostics.antt =====
-- custom_components/apc_modbus/diagnostic_collector.py: the parsing of Modbus responses,
-- and the summary of the detection from the diagnostic probes. The texts of the exceptions are not
-- modelled.
pub mod Frames
pub mod Summary
pub mod Quick
pub mod Sanitizing
pub mod SnmpData
pub mod Dump
pub mod Decodes
mod Tests
use Prim.Native.Nat.{bit_or}
use Prim.Native.String.{◌++◌ as append}
use apc_modbus_snmp_ha.Prelude.{
  ℕ, ◌+◌, ◌-◌, ◌*◌, ◌/◌, ◌%◌, String, Bool, true, false, not, ◌&&◌, Option, none, some, List, [],
  ◌∷◌, ◌++◌, take, drop, length, get_elem?, leb, ltb, ◌==◌, str_eq, if◌then◌else◌,
}
use apc_modbus_snmp_ha.Prelude.Bits.{shl, low_bits}
use apc_modbus_snmp_ha.Prelude.Decimal.{decimal}
use apc_modbus_snmp_ha.Prelude.Int.{ℤ, pos, ◌-ℤ◌}
use apc_modbus_snmp_ha.Decode.{Value, int, quotient, strip, is_printable}
use apc_modbus_snmp_ha.Registers.{whole}
use apc_modbus_snmp_ha.Device.{
  ProbeOutcome, ProbeName, SchemaProbe, ApcDeviceType, Probes, response, modbus_exception,
  short_response, transport_failure, rack_pdu_capabilities, rack_pdu_measurements, legacy_ups_id,
  smt_status, smt_measurements, classify_device_type, by_name, schema_probes, is_same_name,
}
use apc_modbus_snmp_ha.Wire.{
  Arrival, WireError, struct_error, Result, ok, err, ◌>>=◌, read_holding_registers, or_struct_error,
}

-- The "error" of a parsed response
pub record ParsedError : Type 0 where
  pub code : String
  pub message : String
  pub exception_code : Option ℕ
  pub exception_name : Option String

pub data Parsed : Type 0 where
  parsed_error : ParsedError → Parsed
  parsed_registers : ℕ → List ℕ → Parsed

abbrev pub min_modbus_response_length : ℕ
min_modbus_response_length = 9

-- MODBUS_EXCEPTION_NAMES, and the name of an exception that it does not have
unfoldable pub exception_name : ℕ → String
exception_name code =
    if code == 1
    then "Illegal Function"
    else if code == 2
    then "Illegal Data Address"
    else if code == 3
    then "Illegal Data Value"
    else if code == 4
    then "Slave Device Failure"
    else if code == 5
    then "Acknowledge"
    else if code == 6
    then "Slave Device Busy"
    else if code == 8
    then "Memory Parity Error"
    else if code == 10
    then "Gateway Path Unavailable"
    else if code == 11
    then "Gateway Target Device Failed to Respond"
    else "Unknown Modbus Exception"

abbrev pub too_short : ParsedError
too_short = record {
  code = "modbus_response_too_short";
  message = "response too short";
  exception_code = none;
  exception_name = none;
}

unfoldable pub exception_error : ℕ → ParsedError
exception_error code = record {
  code = "modbus_exception";
  message = append "Modbus exception " (append (decimal code) (append ": " (exception_name code)));
  exception_code = some code;
  exception_name = some (exception_name code);
}

-- `struct.unpack(">H", …)` of each pair of bytes; an odd byte at the end is a `struct.error`.
unfoldable pub unpack_words : List ℕ → Option (List ℕ)
unpack_words [] = some []
unpack_words (b ∷ []) = none
unpack_words (high ∷ low ∷ rest) = elim (unpack_words rest) [
  | none ↦ none
  | some words ↦ some ((high * 256 + low) ∷ words)
]

-- A response of nine bytes at least: its unit, function code, next byte, and the bytes after it
unfoldable pub parse_fields : ℕ → ℕ → ℕ → List ℕ → Result Parsed
parse_fields unit_id function_code next rest =
    if function_code / 128 % 2 == 1 then ok (parsed_error (exception_error next)) else (do
      words ← or_struct_error (unpack_words (take next rest))
      ok (parsed_registers unit_id words))

unfoldable pub parse_modbus_response : List ℕ → Result Parsed
parse_modbus_response (_ ∷ _ ∷ _ ∷ _ ∷ _ ∷ _ ∷ unit_id ∷ function_code ∷ next ∷ rest) =
    parse_fields unit_id function_code next rest
parse_modbus_response _ = ok (parsed_error too_short)

-- `_collect_modbus_block`: the report of a block, whose "error" is that of the exception.
pub data BlockReport : Type 0 where
  collected : (start count : ℕ) (raw : List ℕ) (parsed : Parsed) → BlockReport
  block_error : WireError → BlockReport

abbrev pub report_of : ℕ → ℕ → List ℕ → Result Parsed → BlockReport
report_of start count raw (ok parsed) = collected start count raw parsed
report_of start count raw (err e) = block_error e

unfoldable pub collect_modbus_block : Bool → (List ℕ → List Arrival) → ℕ → ℕ → ℕ → BlockReport
collect_modbus_block connects peer unit_id start count =
    elim (read_holding_registers connects peer unit_id start count) [
      | err e ↦ block_error e
      | ok raw ↦ report_of start count raw (parse_modbus_response raw)
    ]

abbrev outcome_of_error : ParsedError → ProbeOutcome
outcome_of_error error =
    if str_eq error.code "modbus_exception"
    then record { kind = modbus_exception; registers = []; exception_code = error.exception_code }
    else record { kind = short_response; registers = []; exception_code = none }

abbrev outcome_of_registers : List ℕ → ℕ → ProbeOutcome
outcome_of_registers registers count =
    if length registers == count
    then record { kind = response; registers = registers; exception_code = none }
    else record { kind = short_response; registers = []; exception_code = none }

-- `_probe_outcome`
unfoldable pub probe_outcome : Option BlockReport → ℕ → ProbeOutcome
probe_outcome none count = record {
  kind = transport_failure;
  registers = [];
  exception_code = none;
}
probe_outcome (some (block_error _)) count = record {
  kind = transport_failure;
  registers = [];
  exception_code = none;
}
probe_outcome (some (collected _ _ _ (parsed_registers _ registers))) count =
    outcome_of_registers registers count
probe_outcome (some (collected _ _ _ (parsed_error error))) count = outcome_of_error error

-- MODBUS_BLOCKS: the start and the count of each block that is always read
abbrev pub modbus_blocks : List (ℕ × ℕ)
modbus_blocks =
    (0x0000, 23) ∷ (0x0080, 26) ∷ (0x0021, 10) ∷ (0x009E, 5) ∷ (0x00CF, 6) ∷ (0x023C, 21) ∷ []

-- `blocks_by_range.get((start, count))`, for blocks of different ranges
unfoldable pub block_of_range : (ℕ → ℕ → BlockReport) → List (ℕ × ℕ) → ℕ → ℕ → Option BlockReport
block_of_range collect [] start count = none
block_of_range collect ((s, c) ∷ rest) start count =
    let later = block_of_range collect rest start count in
    if s == start && c == count then some (collect s c) else later

-- A probe of a range that was read as a block is not sent again.
abbrev pub collect_probe : (ℕ → ℕ → BlockReport) → SchemaProbe → BlockReport
collect_probe collect probe =
    elim (block_of_range collect modbus_blocks probe.address probe.count) [
      | some block ↦ block
      | none ↦ collect probe.address probe.count
    ]

-- `dump["modbus_probes"]`, filled from MODBUS_PROBES
unfoldable pub collect_probes :
    (ℕ → ℕ → BlockReport) → List SchemaProbe → ProbeName → Option BlockReport
collect_probes collect [] name = none
collect_probes collect (probe ∷ rest) name =
    let later = collect_probes collect rest name in
    if is_same_name probe.name name then some (collect_probe collect probe) else later

-- The outcomes of all probes, by name
abbrev pub probe_outcomes : (ProbeName → Option BlockReport) → Probes
probe_outcomes modbus_probes =
    by_name (λ probe. probe_outcome (modbus_probes probe.name) probe.count) schema_probes

-- "detected_device_type" of `_build_detection_summary`, as the family; "decision" says whether it
-- is there.
abbrev pub detected_device_type : (ProbeName → Option BlockReport) → Option (Option ApcDeviceType)
detected_device_type modbus_probes = classify_device_type (probe_outcomes modbus_probes)
