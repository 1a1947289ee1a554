-- ===== src/Coordinator/Enrichment.antt =====
-- The SNMP enrichment of a refresh (custom_components/apc_modbus/coordinator.py and snmp_state.py):
-- metadata, availability, the hourly metadata query, and the merging of SNMP values into the data.
-- SNMP queries are answers, arguments of the steps that send them. A text is its code points, below
-- 256 as in the decoder. Times are milliseconds of the monotonic clock. `queries` lists the times
-- of the metadata queries that routine refreshes send, the newest first.
pub mod Hourly
pub mod Merging
pub mod Keys
pub mod Precedence
mod Tests
use apc_modbus_snmp_ha.Prelude.{
  ℕ, ◌+◌, ◌-◌, ◌*◌, String, Bool, true, false, not, ◌&&◌, ◌||◌, Option, none, some, List, [], ◌∷◌,
  any, ltb, leb, ◌==◌, if◌then◌else◌, is_some, ◌⊎◌, inl, inr, str_eq,
}
use apc_modbus_snmp_ha.Prelude.Dict.{Dict, lookup, insert}
use apc_modbus_snmp_ha.Prelude.Texts.{same_text}
use apc_modbus_snmp_ha.Decode.{Value, text, strip}
use apc_modbus_snmp_ha.Device.{ApcDeviceType, smart_ups, smt_ups, is_same}
use apc_modbus_snmp_ha.Modbus.{ExceptionKind, os_error, timeout_error, runtime_error, value_error}

abbrev pub Text : Type 0
Text = List ℕ

-- METADATA_REFRESH_INTERVAL_SECONDS and SELF_TEST_REFRESH_INTERVAL_SECONDS
abbrev pub metadata_refresh_interval : ℕ
metadata_refresh_interval = 3600 * 1000

abbrev pub self_test_refresh_interval : ℕ
self_test_refresh_interval = 60 * 1000

pub data Availability : Type 0 where
  snmp_unknown snmp_available snmp_unavailable : Availability

-- The type of an exception, or "no_metadata"
pub data FailureCategory : Type 0 where
  exception : ExceptionKind → FailureCategory
  no_metadata : FailureCategory

-- What a metadata query returns: the four keys of `async_get_device_metadata`.
pub record Metadata : Type 0 where
  pub model : Option Text
  pub serial_number : Option Text
  pub firmware_version : Option Text
  pub firmware_date : Option Text

pub data MetadataAnswer : Type 0 where
  metadata_raised : ExceptionKind → MetadataAnswer
  metadata_returned : Metadata → MetadataAnswer

abbrev pub Detection : Type 0
Detection = Dict (Option String)

pub data DetectionAnswer : Type 0 where
  detection_raised : ExceptionKind → DetectionAnswer
  detected : Detection → DetectionAnswer

pub record Enrichment : Type 0 where
  pub hw_model : Option Text
  pub serial_number : Option Text
  pub fw_version : Option Text
  pub fw_date : Option Text
  pub metadata_needs_refresh : Bool
  pub metadata_last_refresh_monotonic : ℕ
  pub snmp_availability : Availability
  pub snmp_failure_category : Option FailureCategory
  pub snmp_probe_detection : Detection
  pub snmp_self_test_data : Dict (Option Value)
  pub self_test_last_refresh_monotonic : ℕ
  pub queries : List ℕ

abbrev pub is_available : Availability → Bool
is_available snmp_available = true
is_available _ = false

abbrev pub is_unavailable : Availability → Bool
is_unavailable snmp_unavailable = true
is_unavailable _ = false

-- `str.lower` on code points below 256
abbrev lower_char : ℕ → ℕ
lower_char c =
    if (leb 65 c && leb c 90) || (leb 192 c && leb c 222 && not (c == 215)) then c + 32 else c

abbrev pub lower : Text → Text
lower [] = []
lower (c ∷ cs) = lower_char c ∷ lower cs

-- "unknown", "unavailable", "n/a", "na", "none" and "null"
abbrev pub empty_words : List Text
empty_words =
    (117 ∷ 110 ∷ 107 ∷ 110 ∷ 111 ∷ 119 ∷ 110 ∷ [])
    ∷ (117 ∷ 110 ∷ 97 ∷ 118 ∷ 97 ∷ 105 ∷ 108 ∷ 97 ∷ 98 ∷ 108 ∷ 101 ∷ [])
    ∷ (110 ∷ 47 ∷ 97 ∷ [])
    ∷ (110 ∷ 97 ∷ [])
    ∷ (110 ∷ 111 ∷ 110 ∷ 101 ∷ [])
    ∷ (110 ∷ 117 ∷ 108 ∷ 108 ∷ [])
    ∷ []

abbrev meaningful : Text → Option Text
meaningful [] = none
meaningful (c ∷ cs) = if any (same_text (lower (c ∷ cs))) empty_words then none else some (c ∷ cs)

-- `_clean_metadata_value`
unfoldable pub clean_metadata_value : Option Text → Option Text
clean_metadata_value none = none
clean_metadata_value (some value) = meaningful (strip value)

-- `set_device_metadata`; `done` is the time at which it is called, where it notes the refresh.
unfoldable pub set_device_metadata :
    Option Text → Option Text → Option Text → Option Text → Option ℕ → Enrichment → Enrichment
set_device_metadata hw_model serial_number fw_version fw_date mark_refresh_complete e = record e {
  hw_model = clean_metadata_value hw_model;
  serial_number = clean_metadata_value serial_number;
  fw_version = clean_metadata_value fw_version;
  fw_date = clean_metadata_value fw_date;
  metadata_needs_refresh = not (is_some mark_refresh_complete) && e.metadata_needs_refresh;
  metadata_last_refresh_monotonic = elim mark_refresh_complete [
    | some done ↦ done
    | none ↦ e.metadata_last_refresh_monotonic
  ];
}

-- `set_snmp_availability(True)` and `set_snmp_availability(False, reason)`
abbrev pub set_available : Enrichment → Enrichment
set_available e = record e { snmp_availability = snmp_available; snmp_failure_category = none }

abbrev pub set_unavailable : FailureCategory → Enrichment → Enrichment
set_unavailable reason e = record e {
  snmp_availability = snmp_unavailable;
  snmp_failure_category = some reason;
  snmp_probe_detection = [];
}

abbrev pub is_truthy_text : Option Text → Bool
is_truthy_text (some (_ ∷ _)) = true
is_truthy_text _ = false

-- `has_usable_metadata`
unfoldable pub has_usable_metadata : Metadata → Bool
has_usable_metadata m =
    is_truthy_text m.model
    || is_truthy_text m.serial_number
    || is_truthy_text m.firmware_version
    || is_truthy_text m.firmware_date

-- `metadata.get("firmware_version") or metadata.get("firmware")`, and the like: there is no second
-- key.
abbrev or_none : Option Text → Option Text
or_none value = if is_truthy_text value then value else none

abbrev pub take_metadata : ℕ → Metadata → Enrichment → Enrichment
take_metadata done m e =
    set_device_metadata m.model m.serial_number (or_none m.firmware_version)
      (or_none m.firmware_date) (some done) e

-- The exceptions of an SNMP query that the coordinator catches
abbrev pub is_refresh_failure : ExceptionKind → Bool
is_refresh_failure os_error = true
is_refresh_failure timeout_error = true
is_refresh_failure runtime_error = true
is_refresh_failure value_error = true
is_refresh_failure _ = false

-- The exception that leaves a refresh, if one does, and the state behind it
abbrev pub Refreshed : Type 0
Refreshed = Option ExceptionKind × Enrichment

abbrev pub take_detection : DetectionAnswer → Enrichment → Refreshed
take_detection (detection_raised kind) e = (if is_refresh_failure kind then none else some kind, e)
take_detection (detected detection) e = (none, record e { snmp_probe_detection = detection })

-- The test whether a routine refresh sends the query
abbrev pub is_due : ℕ → Enrichment → Bool
is_due now e =
    e.metadata_needs_refresh
    || not (ltb (now - e.metadata_last_refresh_monotonic) metadata_refresh_interval)

-- The metadata query at the time `now`, its answer at the time `done`, and the detection query. An
-- exception that is not caught leaves the refresh with the state as it is by then.
unfoldable pub take_answer : ℕ → ℕ → MetadataAnswer → DetectionAnswer → Enrichment → Refreshed
take_answer now done (metadata_raised kind) detection e =
    let asked = record e { queries = now ∷ e.queries } in
    if is_refresh_failure kind
    then (none, set_unavailable (exception kind) asked)
    else (some kind, asked)
take_answer now done (metadata_returned m) detection e =
    let asked = record e { queries = now ∷ e.queries } in
    if has_usable_metadata m
    then take_detection detection (take_metadata done m (set_available asked))
    else (none, set_unavailable no_metadata asked)

-- `_maybe_refresh_snmp_metadata`
unfoldable pub maybe_refresh_snmp_metadata :
    ℕ → ℕ → MetadataAnswer → DetectionAnswer → Enrichment → Refreshed
maybe_refresh_snmp_metadata now done answer detection e =
    if is_unavailable e.snmp_availability || not (is_due now e)
    then (none, e)
    else take_answer now done answer detection e

-- `mark_snmp_metadata_refresh_needed`
unfoldable pub mark_snmp_metadata_refresh_needed : Enrichment → Enrichment
mark_snmp_metadata_refresh_needed e =
    if is_unavailable e.snmp_availability then e else record e { metadata_needs_refresh = true }

-- `async_retry_snmp_metadata`: the exception that leaves it, or what it returns
unfoldable pub async_retry_snmp_metadata :
    ℕ → MetadataAnswer → Enrichment → (ExceptionKind ⊎ Bool) × Enrichment
async_retry_snmp_metadata done (metadata_raised kind) e =
    if is_refresh_failure kind
    then (inr false, set_unavailable (exception kind) e)
    else (inl kind, e)
async_retry_snmp_metadata done (metadata_returned m) e =
    if has_usable_metadata m
    then (
      inr true,
      record (set_available (take_metadata done m e)) { metadata_needs_refresh = true },
    )
    else (inr false, set_unavailable no_metadata e)
