-- ===== src/Coordinator/Enrichment/Precedence.antt =====
-- Where the input frequency of the data comes from.
use apc_modbus_snmp_ha.Prelude.{
  ℕ, String, ◌≡◌, refl, sym, ap, subst, ◌∙◌, inl, inr, Bool, true, false, not, ◌&&◌, Option, none,
  some, any, arith, if◌then◌else◌, is_some, ltb, ◌-◌, ◌||◌, ◌⊎◌, Bool-cases,
}
use apc_modbus_snmp_ha.Prelude.Dict.{insert}
use apc_modbus_snmp_ha.Decode.{Value}
use apc_modbus_snmp_ha.Device.{ApcDeviceType, smt_ups, is_same}
use apc_modbus_snmp_ha.Coordinator.Enrichment.{
  Text, Detection, Enrichment, is_available, self_test_refresh_interval,
}
use apc_modbus_snmp_ha.Coordinator.Enrichment.Keys.{
  AreForeign, or_else, or_nothing, or_assoc, snmp_frequency, get-insert, get-update_with-input,
  get-update_with-output, merge_values-input, merge_values-output, get-merge_device_metadata,
}
use apc_modbus_snmp_ha.Coordinator.Enrichment.Merging.{
  Data, get, update_with, merge_device_metadata, is_truthy_oid, effective_detection, merge_values,
  merge_snmp_external_probe_data, merge_snmp_self_test_data, apply_device_compat_aliases, enrich,
  has_self_test,
}

-- What the SNMP read brings, where it is sent
abbrev pub probe_answer : (Detection → Option Data) → Enrichment → Data → Option Data
probe_answer read e d =
    let detection = effective_detection e.snmp_probe_detection d in
    if is_available e.snmp_availability && any (λ entry. is_truthy_oid entry.1) detection
    then read detection
    else none

abbrev pub answer_frequency : Option Data → Option Value
answer_frequency none = none
answer_frequency (some values) = snmp_frequency values

abbrev pub BringsForeign : Option Data → Type 0
BringsForeign none = Unit
BringsForeign (some values) = AreForeign values

abbrev merge_answer : Option Data → Data → Data
merge_answer none d = d
merge_answer (some values) d = merge_values values d

probed :
    (read : Detection → Option Data) (e : Enrichment) (d : Data)
    → merge_snmp_external_probe_data read e d ≡ merge_answer (probe_answer read e d) d
unfolding merge_snmp_external_probe_data
probed read e d = ground arith

merge_answer-input :
    (answer : Option Data) (d : Data)
    → BringsForeign answer
    → get "input_frequency" (merge_answer answer d)
      ≡ or_else (get "input_frequency" d) (answer_frequency answer)
merge_answer-input none d h = sym (or_nothing (get "input_frequency" d))
merge_answer-input (some values) d h = merge_values-input values d h

merge_answer-output :
    (answer : Option Data) (d : Data)
    → BringsForeign answer
    → get "output_frequency" (merge_answer answer d) ≡ get "output_frequency" d
merge_answer-output none d h = refl
merge_answer-output (some values) d h = merge_values-output values d h

-- The data behind the self-test step: as they were, or with one of two sets of values
tested :
    (now : ℕ) (device_type : ApcDeviceType) (answer : Option Data) (e : Enrichment) (d : Data)
    → let d' = (merge_snmp_self_test_data now device_type answer e d).0 in
      (d' ≡ d)
      ⊎ (d' ≡ update_with e.snmp_self_test_data d)
      ⊎ ((vs : Data) × (answer ≡ some vs) × (d' ≡ update_with vs d))
unfolding merge_snmp_self_test_data
tested now device_type none e d = ground arith
tested now device_type (some vs) e d =
    let skip = not (is_available e.snmp_availability) || not (has_self_test device_type) in
    elim (Bool-cases skip) [
      | inl s ↦ inl (rw (s, merge_snmp_self_test_data) refl)
      | inr s ↦
          elim (Bool-cases
            (ltb (now - e.self_test_last_refresh_monotonic) self_test_refresh_interval)) [
              | inl early ↦ inr (inl (rw (s, early, merge_snmp_self_test_data) refl))
              | inr late ↦ inr (inr (vs, refl, rw (s, late, merge_snmp_self_test_data) refl))
            ]
    ]

tested-get :
    (j : String) (now : ℕ) (device_type : ApcDeviceType) (answer : Option Data) (e : Enrichment)
    (d : Data)
    → ((vs d : Data) → AreForeign vs → get j (update_with vs d) ≡ get j d)
    → AreForeign e.snmp_self_test_data
    → BringsForeign answer
    → get j (merge_snmp_self_test_data now device_type answer e d).0 ≡ get j d
tested-get j now device_type answer e d keeps stored fresh =
    elim (tested now device_type answer e d) [
      | inl same ↦ ap (get j) same
      | inr (inl same) ↦ ap (get j) same ∙ keeps e.snmp_self_test_data d stored
      | inr (inr (vs, answered, same)) ↦
          ap (get j) same ∙ keeps vs d (subst BringsForeign answered fresh)
    ]

alias_kept :
    (a o : Option Value) (b : Bool)
    → (b && not (is_some a) && is_some o) ≡ false
    → a ≡ or_else a (if b then o else none)
alias_kept (some v) o b h = refl
alias_kept none o false h = refl
alias_kept none none true h = refl
alias_kept none (some v) true h = absurd (ground arith)

alias_taken :
    (a o : Option Value) (b : Bool)
    → (b && not (is_some a) && is_some o) ≡ true
    → o ≡ or_else a (if b then o else none)
alias_taken none o true h = refl
alias_taken none o false h = absurd (ground arith)
alias_taken (some v) o true h = absurd (ground arith)
alias_taken (some v) o false h = absurd (ground arith)

aliased :
    (device_type : ApcDeviceType) (d : Data)
    → get "input_frequency" (apply_device_compat_aliases device_type d)
      ≡ or_else
          (get "input_frequency" d)
          (if is_same device_type smt_ups then get "output_frequency" d else none)
unfolding apply_device_compat_aliases
aliased device_type d =
    let b = is_same device_type smt_ups in
    let a = get "input_frequency" d in
    let o = get "output_frequency" d in
    elim (Bool-cases (b && not (is_some a) && is_some o)) [
      | inl taken ↦
          let same : apply_device_compat_aliases device_type d ≡ insert "input_frequency" o d =
            rw (taken, apply_device_compat_aliases) refl in
          let put : get "input_frequency" (insert "input_frequency" o d) ≡ o =
            get-insert "input_frequency" "input_frequency" o d in
          ap (get "input_frequency") same ∙ put ∙ alias_taken a o b taken
      | inr kept ↦
          let same : apply_device_compat_aliases device_type d ≡ d =
            rw (kept, apply_device_compat_aliases) refl in
          ap (get "input_frequency") same ∙ alias_kept a o b kept
    ]

-- When SNMP reads bring only values under keys other than the data's two frequencies: the input
-- frequency behind the enrichment is the poll's own where the poll has one; otherwise the first
-- frequency that the SNMP read brings, where it is sent; and otherwise, for an SMT device, the
-- output frequency of the poll.
pub enrich-input_frequency :
    (host : Text) (device_type : ApcDeviceType) (now : ℕ) (read : Detection → Option Data)
    (self_test : Option Data) (e : Enrichment) (d : Data)
    → BringsForeign (probe_answer read e (merge_device_metadata host e d))
    → BringsForeign self_test
    → AreForeign e.snmp_self_test_data
    → get "input_frequency" (enrich host device_type now read self_test e d).0
      ≡ or_else (get "input_frequency" d) (
          or_else
            (answer_frequency (probe_answer read e (merge_device_metadata host e d)))
            (if is_same device_type smt_ups then get "output_frequency" d else none))
unfolding enrich
enrich-input_frequency host device_type now read self_test e d probes tests stored =
    let named = merge_device_metadata host e d in
    let answer = probe_answer read e named in
    let merged = merge_snmp_external_probe_data read e named in
    let final = (merge_snmp_self_test_data now device_type self_test e merged).0 in
    let input : get "input_frequency" final
        ≡ or_else (get "input_frequency" d) (answer_frequency answer) =
      tested-get "input_frequency" now device_type self_test e merged get-update_with-input stored
        tests
      ∙ ap (get "input_frequency") (probed read e named)
      ∙ merge_answer-input answer named probes
      ∙ ap (λ y. or_else y (answer_frequency answer))
          (get-merge_device_metadata "input_frequency" host e d
            (refl, (refl, (refl, (refl, (refl, (refl, (refl, (refl, tt))))))))) in
    let output : get "output_frequency" final ≡ get "output_frequency" d =
      tested-get "output_frequency" now device_type self_test e merged get-update_with-output stored
        tests
      ∙ ap (get "output_frequency") (probed read e named)
      ∙ merge_answer-output answer named probes
      ∙ get-merge_device_metadata "output_frequency" host e d
          (refl, (refl, (refl, (refl, (refl, (refl, (refl, (refl, tt)))))))) in
    aliased device_type final
    ∙ ap
        (λ y.
          or_else y (if is_same device_type smt_ups then get "output_frequency" final else none))
        input
    ∙ ap
        (λ y.
          or_else (or_else (get "input_frequency" d) (answer_frequency answer))
            (if is_same device_type smt_ups then y else none))
        output
    ∙ or_assoc (get "input_frequency" d) (answer_frequency answer) _
