-- ===== src/Energy/Tests.antt =====
-- The tracker on readings of one device: a wrap, a dip, a reset that is confirmed, and one that is not.
use apc_modbus_snmp_ha.Prelude.{
  ℕ, ◌+◌, ◌/◌, ◌%◌, String, ◌≡◌, refl, inl, inr, Option, none, some, List, [], ◌∷◌, arith,
}
use apc_modbus_snmp_ha.Energy.{
  OutputEnergyTracker, reset, pending_reset, output_energy_wrap_wh, update,
}
use apc_modbus_snmp_ha.Energy.Storage.{seed}
use apc_modbus_snmp_ha.Energy.Continuity.{total, reports, IsNondecreasing, reports-IsNondecreasing}
use apc_modbus_snmp_ha.Energy.Resets.{
  isolated_decrease, confirmed_reset, without_serial, repeated, fast_reset_stalls,
}
use apc_modbus_snmp_ha.Energy.Meter.{Tracks, update-Tracks, counts, readings, reports-meter}

abbrev tracker : OutputEnergyTracker
tracker = record {
  offset_wh = 0;
  previous_raw_wh = some 4294967000;
  serial_number = some "A1";
  pending_reset_raw_wh = none;
  rollover_count = 0;
}

abbrev low_tracker : OutputEnergyTracker
low_tracker = record tracker { previous_raw_wh = some 5000 }

wrap_counted : (update tracker 100 none).1 ≡ 4294967396
unfolding update
wrap_counted = refl

abbrev day : List (ℕ × Option String)
day = (4294967100, some "A1") ∷ (50, none) ∷ (7, none) ∷ (9, none) ∷ []

day_reports : reports tracker day ≡ 4294967100 ∷ 4294967346 ∷ 4294967346 ∷ 4294967355 ∷ []
unfolding reports update
day_reports = refl

reports-IsNondecreasing_example : IsNondecreasing (total tracker) (reports tracker day)
reports-IsNondecreasing_example =
    reports-IsNondecreasing "A1" tracker day (ground arith) (inr refl) (ground arith)

reports-meter_example :
    reports
      (seed (4294967300 / output_energy_wrap_wh))
      ((4294967300 % output_energy_wrap_wh, none) ∷ readings 4294967300 ((5, none) ∷ []))
    ≡ 4294967300 ∷ counts 4294967300 ((5, none) ∷ [])
reports-meter_example =
    reports-meter "A1" 4294967300 none ((5, none) ∷ []) (inl refl) (ground arith)

update-Tracks_example :
    Tracks 4294967400
      (update
        (record tracker { previous_raw_wh = some 4294967000 })
        ((4294967000 + 400) % output_energy_wrap_wh)
        none).0
    × ((update
          (record tracker { previous_raw_wh = some 4294967000 })
          ((4294967000 + 400) % output_energy_wrap_wh)
          none).1
        ≡ 4294967000 + 400)
update-Tracks_example = update-Tracks 4294967000 400 tracker none (ground arith) (ground arith) refl

fast_reset_stalls_example :
    let t = record low_tracker { pending_reset_raw_wh = some 10 } in
    reports t (without_serial (100 ∷ 200 ∷ [])) ≡ repeated (total t) (100 ∷ 200 ∷ [])
fast_reset_stalls_example =
    fast_reset_stalls (record low_tracker { pending_reset_raw_wh = some 10 }) 5000 10
      (100 ∷ 200 ∷ []) refl refl (ground arith) (ground arith)

dip_pending : (update low_tracker 10 none).2 ≡ some pending_reset
unfolding update
dip_pending = refl

isolated_decrease_example :
    ((update low_tracker 10 none).1 ≡ total low_tracker)
    × (update (update low_tracker 10 none).0 5020 none ≡ update low_tracker 5020 none)
isolated_decrease_example =
    isolated_decrease low_tracker 10 5020 5000 none refl dip_pending (ground arith)

confirmed_reset_example :
    let (t', reported, reason) = update (update low_tracker 10 none).0 40 none in
    (reported ≡ total low_tracker + 40)
    × (reason ≡ some reset)
    × (t'.previous_raw_wh ≡ some 40)
    × (t'.rollover_count ≡ low_tracker.rollover_count)
confirmed_reset_example =
    confirmed_reset low_tracker 10 40 5000 none refl dip_pending (ground arith) (ground arith)
      (ground arith) (ground arith)
