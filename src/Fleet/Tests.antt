-- ===== src/Fleet/Tests.antt =====
-- Fleets of two and of forty entries.
use apc_modbus_snmp_ha.Prelude.{
  ◌⊎◌, ◌<◌, ◌*◌, ◌≤◌, ◌<◌, ◌≡◌, ◌≢◌, refl, String, Bool, true, List, [], ◌∷◌, max, length, arith,
  eq_iff,
}
use apc_modbus_snmp_ha.Prelude.Int.{pos}
use apc_modbus_snmp_ha.Fleet.{compute_effective_scan_interval, compute_startup_stagger_delay}
use apc_modbus_snmp_ha.Fleet.Slots.{
  compute_startup_stagger_delay-bound, compute_startup_stagger_delay-distinct,
}

forty_entries : compute_effective_scan_interval (pos 10) (pos 40) ≡ 80
unfolding compute_effective_scan_interval
forty_entries = refl

abbrev always : String → String → Bool
always a b = true

abbrev fleet : List String
fleet = "left" ∷ "right" ∷ []

compute_startup_stagger_delay-bound_example :
    let delay = compute_startup_stagger_delay always fleet "right" 10 in
    (0 < delay.denominator)
    × (delay.numerator ≤ 60 * delay.denominator)
    × (delay.numerator ≤ max 10 (length fleet) * delay.denominator)
compute_startup_stagger_delay-bound_example =
    compute_startup_stagger_delay-bound always fleet "right" 10

apart : ◌≢◌ {A = String} "left" "right"
apart h = ground (arith, eq_iff "left" "right")

compute_startup_stagger_delay-distinct_example :
    let x = compute_startup_stagger_delay always fleet "left" 10 in
    let y = compute_startup_stagger_delay always fleet "right" 10 in
    (x.denominator ≡ y.denominator)
    × (x.numerator ≢ y.numerator)
    × ((0 < x.numerator) ⊎ (0 < y.numerator))
compute_startup_stagger_delay-distinct_example =
    compute_startup_stagger_delay-distinct always fleet "left" "right" 10 refl refl apart
      (ground arith)
