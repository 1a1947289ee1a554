-- ===== src/Coordinator/Episodes.antt =====
-- The reports of communication episodes.
use apc_modbus_snmp_ha.Prelude.{
  ℕ, ◌+◌, ◌≡◌, ◌≢◌, ◌↔◌, Bool, true, false, none, List, [], ◌∷◌, Empty, arith,
}
use apc_modbus_snmp_ha.Coordinator.{
  Report, unavailable, recovered, Monitor, Poll, async_update_data, Refresh, finished_at, refreshes,
}

-- The reports alternate, the newest first: a recovery follows a warning, and a warning is the first
-- report or follows a recovery.
abbrev pub Alternates : List Report → Type 0
Alternates [] = Unit
Alternates (unavailable ∷ []) = Unit
Alternates (unavailable ∷ recovered d ∷ rest) = Alternates (recovered d ∷ rest)
Alternates (recovered _ ∷ unavailable ∷ rest) = Alternates (unavailable ∷ rest)
Alternates _ = Empty

-- The newest report is a warning that no recovery has followed.
abbrev pub is_open : List Report → Bool
is_open (unavailable ∷ _) = true
is_open _ = false

-- The flags tell whether an episode is going on.
pub record IsValid (m : Monitor) : Type 0 where
  pub alternating : Alternates m.reports
  pub warned : m.modbus_failure_warning_emitted ≡ is_open m.reports
  pub started : (m.modbus_failure_started ≢ none) ↔ (is_open m.reports ≡ true)

step-IsValid :
    (start finish : ℕ) (answer : Poll) (m : Monitor)
    → IsValid m
    → IsValid (async_update_data start finish answer m).1
unfolding async_update_data
step-IsValid start finish answer m h = ground arith

-- Over any refreshes the reports stay alternating: one warning for each episode, however many polls
-- fail in it, and one recovery at its end, and no recovery without a warning before it.
pub refreshes-IsValid :
    (time : ℕ) (rs : List Refresh) (m : Monitor) → IsValid m → IsValid (refreshes time rs m).1
unfolding refreshes
refreshes-IsValid time [] m h = h
refreshes-IsValid time (r ∷ rest) m h =
    let start = time + r.pause in
    refreshes-IsValid (finished_at start r m) rest _
      (step-IsValid start (start + r.elapsed) r.answer m h)
