-- ===== src/Device.antt =====
-- custom_components/apc_modbus/device_types.py: the device families, the outcomes of the schema
-- probes, and the classification of a device from them.
-- A probe's name is a constructor of `ProbeName`, and the mapping from names to outcomes is a
-- function into `Option`: `none` is a key that is not there, which Python reports by a KeyError.
pub mod Classification
pub mod Choice
mod Tests
use apc_modbus_snmp_ha.Prelude.{
  ℕ, ◌^◌, String, Bool, true, false, not, ◌&&◌, ◌||◌, Option, none, some, List, [], ◌∷◌, all, any,
  length, ltb, leb, ◌==◌, if◌then◌else◌,
}

abbrev pub detection_version : ℕ
detection_version = 5

pub data ApcDeviceType : Type 0 where
  ups smart_ups smt_ups rack_pdu smartconnect_ups unknown : ApcDeviceType

-- `==` on the enum
abbrev pub is_same : ApcDeviceType → ApcDeviceType → Bool
is_same ups ups = true
is_same smart_ups smart_ups = true
is_same smt_ups smt_ups = true
is_same rack_pdu rack_pdu = true
is_same smartconnect_ups smartconnect_ups = true
is_same unknown unknown = true
is_same _ _ = false

-- the enum's values
abbrev pub value : ApcDeviceType → String
value ups = "ups"
value smart_ups = "smart_ups"
value smt_ups = "smt_ups"
value rack_pdu = "rack_pdu"
value smartconnect_ups = "smartconnect_ups"
value unknown = "unknown"

-- DEVICE_TYPE_LABELS
abbrev pub label : ApcDeviceType → String
label ups = "UPS"
label smart_ups = "Smart-UPS"
label smt_ups = "SMT/SMX UPS"
label rack_pdu = "Rack PDU"
label smartconnect_ups = "SmartConnect UPS"
label unknown = "Unknown APC device"

abbrev pub device_type_label : Option ApcDeviceType → String
device_type_label none = label unknown
device_type_label (some d) = label d

pub data ProbeKind : Type 0 where
  response modbus_exception short_response transport_failure : ProbeKind

pub record ProbeOutcome : Type 0 where
  pub kind : ProbeKind
  pub registers : List ℕ
  pub exception_code : Option ℕ

abbrev pub is_response : ProbeKind → Bool
is_response response = true
is_response _ = false

abbrev pub is_modbus_exception : ProbeKind → Bool
is_modbus_exception modbus_exception = true
is_modbus_exception _ = false

abbrev pub is_illegal_address : Option ℕ → Bool
is_illegal_address none = false
is_illegal_address (some code) = code == 2

unfoldable pub completed : ProbeOutcome → Bool
completed o = is_response o.kind || is_modbus_exception o.kind

unfoldable pub unsupported : ProbeOutcome → Bool
unsupported o = is_modbus_exception o.kind && is_illegal_address o.exception_code

pub data ProbeName : Type 0 where
  rack_pdu_capabilities rack_pdu_measurements legacy_ups_id smt_status smt_measurements : ProbeName

abbrev pub is_same_name : ProbeName → ProbeName → Bool
is_same_name rack_pdu_capabilities rack_pdu_capabilities = true
is_same_name rack_pdu_measurements rack_pdu_measurements = true
is_same_name legacy_ups_id legacy_ups_id = true
is_same_name smt_status smt_status = true
is_same_name smt_measurements smt_measurements = true
is_same_name _ _ = false

pub record SchemaProbe : Type 0 where
  pub name : ProbeName
  pub address : ℕ
  pub count : ℕ

abbrev pub schema_probes : List SchemaProbe
schema_probes =
    record { name = rack_pdu_capabilities; address = 0x009E; count = 5 }
    ∷ record { name = rack_pdu_measurements; address = 0x00CF; count = 6 }
    ∷ record { name = legacy_ups_id; address = 0x0021; count = 1 }
    ∷ record { name = smt_status; address = 0x0000; count = 23 }
    ∷ record { name = smt_measurements; address = 0x0080; count = 26 }
    ∷ []

unfoldable pub is_concrete_device_type : Option ApcDeviceType → Bool
is_concrete_device_type none = false
is_concrete_device_type (some ups) = false
is_concrete_device_type (some unknown) = false
is_concrete_device_type (some _) = true

-- Comparison of two optional families, as Python's `!=` compares them.
abbrev pub is_same_or_none : Option ApcDeviceType → Option ApcDeviceType → Bool
is_same_or_none none none = true
is_same_or_none (some a) (some b) = is_same a b
is_same_or_none _ _ = false

-- `stored_detection_version != DETECTION_VERSION`; a version that is no number is `none`.
abbrev pub is_current : Option ℕ → Bool
is_current none = false
is_current (some v) = v == detection_version

unfoldable pub should_probe_device_type :
    Option ApcDeviceType → Option ℕ → Option ApcDeviceType → Bool
unfolding is_concrete_device_type
should_probe_device_type none version hint = true
should_probe_device_type (some unknown) version hint = true
should_probe_device_type (some ups) version hint = true
should_probe_device_type (some d) version hint =
    if not (is_current version)
    then true
    else is_concrete_device_type hint && not (is_same_or_none hint (some d))

-- The argument `snmp_hint_device_type` is deleted at once, and is left out.
unfoldable pub choose_device_type :
    Option ApcDeviceType → Option ApcDeviceType → Option ApcDeviceType
unfolding is_concrete_device_type
choose_device_type stored detected =
    if is_concrete_device_type detected
    then detected
    else if is_concrete_device_type stored
    then stored
    else none

-- The unpacking of the five capability registers and the sixth measurement; any other number of
-- registers has been refused by then.
abbrev pub coherent_registers : List ℕ → List ℕ → Bool
coherent_registers (phases ∷ metered_phases ∷ banks ∷ outlets ∷ metered_outlets ∷ [])
      (_ ∷ _ ∷ _ ∷ _ ∷ _ ∷ load_state ∷ []) =
    leb metered_phases phases
    && leb metered_outlets outlets
    && (ltb 0 phases || ltb 0 banks || ltb 0 outlets)
    && leb load_state 4
coherent_registers _ _ = false

unfoldable pub coherent_rack_pdu : ProbeOutcome → ProbeOutcome → Bool
coherent_rack_pdu capabilities measurements =
    if not (is_response capabilities.kind) || not (is_response measurements.kind)
    then false
    else if not (length capabilities.registers == 5) || not (length measurements.registers == 6)
    then false
    else coherent_registers capabilities.registers measurements.registers

abbrev pub all_ones : ℕ
all_ones = 0xFFFF

abbrev pub legacy_sentinel : ProbeOutcome → Bool
legacy_sentinel legacy =
    is_response legacy.kind
    && ltb 0 (length legacy.registers)
    && all (λ r. r == all_ones) legacy.registers

-- The decisions of `classify_device_type` on the five outcomes.
pub classify_outcomes :
    ProbeOutcome → ProbeOutcome → ProbeOutcome → ProbeOutcome → ProbeOutcome → Option ApcDeviceType
unfolding unsupported
classify_outcomes capabilities measurements legacy status smt =
    if coherent_rack_pdu capabilities measurements
    then some rack_pdu
    else if is_response smt.kind && unsupported legacy
    then some smt_ups
    else if is_response legacy.kind && unsupported smt
    then some smart_ups
    else if is_response smt.kind
        && any (λ r. not (r == all_ones)) smt.registers
        && is_response status.kind
        && any (λ r. not (r == 0)) status.registers
        && not (coherent_rack_pdu capabilities measurements)
        && legacy_sentinel legacy
    then some smartconnect_ups
    else none

abbrev pub Probes : Type 0
Probes = ProbeName → Option ProbeOutcome

-- `{probe.name: f(probe) for probe in probes}`, for probes of different names
abbrev pub by_name : (SchemaProbe → ProbeOutcome) → List SchemaProbe → Probes
by_name f [] name = none
by_name f (probe ∷ rest) name =
    if is_same_name probe.name name then some (f probe) else by_name f rest name

-- `none` is the KeyError of a missing probe.
unfoldable pub classify_device_type : Probes → Option (Option ApcDeviceType)
classify_device_type probes = elim (probes rack_pdu_capabilities) [
  | none ↦ none
  | some capabilities ↦ elim (probes rack_pdu_measurements) [
    | none ↦ none
    | some measurements ↦ elim (probes legacy_ups_id) [
      | none ↦ none
      | some legacy ↦ elim (probes smt_status) [
        | none ↦ none
        | some status ↦ elim (probes smt_measurements) [
          | none ↦ none
          | some smt ↦ some (classify_outcomes capabilities measurements legacy status smt)
        ]
      ]
    ]
  ]
]
