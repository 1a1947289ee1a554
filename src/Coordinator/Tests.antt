-- ===== src/Coordinator/Tests.antt =====
-- Refreshes once a second and once in ten seconds, of a device that fails and then recovers.
use apc_modbus_snmp_ha.Prelude.{ℕ, ◌≡◌, ◌≢◌, refl, none, some, false, List, [], ◌∷◌, All, arith}
use apc_modbus_snmp_ha.Coordinator.{
  Monitor, unavailable, recovered, Poll, poll_raised, no_data, usable, refused, failed, updated,
  Refresh, refreshes, async_update_data,
}
use apc_modbus_snmp_ha.Coordinator.Backoff.{refreshes-starve, refreshes-run}
use apc_modbus_snmp_ha.Coordinator.Episodes.{IsValid, refreshes-IsValid}

abbrev calm : Monitor
calm = record {
  backoff_until = none;
  modbus_failure_started = none;
  modbus_failure_warning_emitted = false;
  reports = [];
}

abbrev after : ℕ → Poll → Refresh
after pause answer = record { pause = pause; elapsed = 100; answer = answer }

-- Two failures a second apart; from then on the device would answer, and is not asked.
abbrev each_second : List Refresh
each_second =
    after 1000 poll_raised
    ∷ after 900 poll_raised
    ∷ after 900 usable
    ∷ after 1000 usable
    ∷ after 1000 usable
    ∷ []

abbrev each_ten_seconds : List Refresh
each_ten_seconds =
    after 10000 poll_raised ∷ after 9900 no_data ∷ after 9900 usable ∷ after 9900 usable ∷ []

starved : (refreshes 1 each_second calm).0 ≡ failed ∷ failed ∷ refused ∷ refused ∷ refused ∷ []
unfolding refreshes async_update_data
starved = refl

recovers : (refreshes 1 each_ten_seconds calm).0 ≡ failed ∷ failed ∷ updated ∷ updated ∷ []
unfolding refreshes async_update_data
recovers = refl

one_warning : (refreshes 1 each_ten_seconds calm).1.reports ≡ recovered 20000 ∷ unavailable ∷ []
unfolding refreshes async_update_data
one_warning = refl

refreshes-starve_example :
    All
      (λ u. u ≡ refused)
      (refreshes 5000
        (after 1000 usable ∷ after 900 usable ∷ [])
        (record calm { backoff_until = some 7000 })).0
refreshes-starve_example =
    refreshes-starve 5000 (after 1000 usable ∷ after 900 usable ∷ [])
      (record calm { backoff_until = some 7000 }) (ground arith) (ground arith)

refreshes-run_example : All (λ u. u ≢ refused) (refreshes 1 each_ten_seconds calm).0
refreshes-run_example = refreshes-run 1 each_ten_seconds calm tt (ground arith)

calm-IsValid : IsValid calm
calm-IsValid = record { alternating = tt; warned = refl; started = (ground arith, ground arith) }

refreshes-IsValid_example : IsValid (refreshes 1 each_second calm).1
refreshes-IsValid_example = refreshes-IsValid 1 each_second calm calm-IsValid
