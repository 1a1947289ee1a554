-- ===== src/Fleet/Intervals.antt =====
-- The effective scan interval.
use apc_modbus_snmp_ha.Prelude.{◌≤◌, ◌≡◌, max, arith}
use apc_modbus_snmp_ha.Prelude.Int.{ℤ, pos, ◌≤ℤ◌}
use apc_modbus_snmp_ha.Fleet.{at_least_one, compute_effective_scan_interval}

-- The effective interval is the configured one, or a second where that is less, for eight entries or
-- fewer; in any fleet it is at least a second and at least the configured one, at most two minutes
-- or the configured one, and 20 seconds or more for more than eight entries.
pub compute_effective_scan_interval_lem :
    (configured entries : ℤ)
    → let effective = compute_effective_scan_interval configured entries in
      (1 ≤ effective)
      × (configured ≤ℤ pos effective)
      × (effective ≤ max (at_least_one configured) 120)
      × (entries ≤ℤ pos 8 → effective ≡ at_least_one configured)
      × (pos 9 ≤ℤ entries → 20 ≤ effective)
unfolding compute_effective_scan_interval
compute_effective_scan_interval_lem configured entries = ground arith

-- A larger fleet never has a shorter interval.
pub compute_effective_scan_interval-monotone :
    (configured few many : ℤ)
    → few ≤ℤ many
    → compute_effective_scan_interval configured few
      ≤ compute_effective_scan_interval configured many
unfolding compute_effective_scan_interval
compute_effective_scan_interval-monotone configured few many h = ground arith
