-- ===== src/Device/Tests.antt =====
-- Classification on the answers of an SMT unit and of a device that answers one probe alone.
use apc_modbus_snmp_ha.Prelude.{◌≡◌, ◌↔◌, refl, none, some, [], ◌∷◌}
use apc_modbus_snmp_ha.Device.{
  smt_ups, smart_ups, rack_pdu, smartconnect_ups, ProbeOutcome, response, modbus_exception,
  transport_failure, classify_outcomes, unsupported, coherent_rack_pdu,
}
use apc_modbus_snmp_ha.Device.Classification.{
  Coherent, SmtEvidence, SmartEvidence, SmartconnectEvidence, classify_exact,
}

abbrev illegal : ProbeOutcome
illegal = record { kind = modbus_exception; registers = []; exception_code = some 2 }

abbrev silent : ProbeOutcome
silent = record { kind = transport_failure; registers = []; exception_code = none }

abbrev answered : ProbeOutcome
answered = record { kind = response; registers = 1 ∷ 2 ∷ []; exception_code = none }

smt_classified : classify_outcomes illegal silent illegal silent answered ≡ some smt_ups
unfolding classify_outcomes coherent_rack_pdu unsupported
smt_classified = refl

silent_unclassified : classify_outcomes silent silent silent silent answered ≡ none
unfolding classify_outcomes coherent_rack_pdu unsupported
silent_unclassified = refl

classify_exact_example :
    let result = classify_outcomes illegal silent illegal silent answered in
    ((result ≡ some rack_pdu) ↔ Coherent illegal silent)
    × ((result ≡ some smt_ups) ↔ (¬ Coherent illegal silent × SmtEvidence illegal answered))
    × ((result ≡ some smart_ups) ↔ (¬ Coherent illegal silent × SmartEvidence illegal answered))
    × ((result ≡ some smartconnect_ups)
        ↔ (¬ Coherent illegal silent × SmartconnectEvidence illegal silent answered))
classify_exact_example = classify_exact illegal silent illegal silent answered
