-- ===== src/Coordinator/Backoff.antt =====
-- When the backoff lets a poll run.
use apc_modbus_snmp_ha.Prelude.{
  ℕ, ◌+◌, ◌≤◌, ◌<◌, ◌≡◌, ◌≢◌, Option, none, some, List, [], ◌∷◌, All, Empty, arith,
}
use apc_modbus_snmp_ha.Coordinator.{
  Monitor, register_failure, Poll, refused, async_update_data, Refresh, finished_at, refreshes,
}

-- The backoff set at `now`, or none, ends within `bound` of it.
abbrev pub EndsWithin : ℕ → ℕ → Option ℕ → Type 0
EndsWithin bound now none = Unit
EndsWithin bound now (some until) = until ≤ now + bound

-- The backoff lasts for `n` more milliseconds at least.
abbrev pub LastsFor : ℕ → ℕ → Option ℕ → Type 0
LastsFor n now none = Empty
LastsFor n now (some until) = (until ≢ 0) × (now + n ≤ until)

-- A failure sets a backoff of a minute at most, whatever backoff there was.
pub register_failure-EndsWithin :
    (now : ℕ) (m : Monitor) → EndsWithin 60000 now (register_failure now m).backoff_until
register_failure-EndsWithin now m = ground arith

-- While a second of backoff is left, a refresh is refused, and the refusal leaves two seconds.
refused_step :
    (start finish : ℕ) (answer : Poll) (m : Monitor)
    → LastsFor 1000 start m.backoff_until
    → ((async_update_data start finish answer m).0 ≡ refused)
      × LastsFor 2000 start (async_update_data start finish answer m).1.backoff_until
unfolding async_update_data
refused_step start finish answer m h = ground arith

-- After two failures in a row, the first of which found no backoff, two seconds of backoff are left.
pub second_failure :
    (first second : ℕ) (m : Monitor)
    → m.backoff_until ≡ none
    → 0 < first
    → first < second
    → LastsFor 2000 second (register_failure second (register_failure first m)).backoff_until
second_failure first second m h = ground arith

-- With two seconds of backoff left, refreshes that follow one another within a second are refused
-- for ever: whatever the device would answer, each refusal extends the backoff.
pub refreshes-starve :
    (time : ℕ) (rs : List Refresh) (m : Monitor)
    → LastsFor 2000 time m.backoff_until
    → All (λ r. r.pause ≤ 1000) rs
    → All (λ u. u ≡ refused) (refreshes time rs m).0
unfolding refreshes
refreshes-starve time [] m h frequent = tt
refreshes-starve time (r ∷ rest) m h frequent =
    let start = time + r.pause in
    let step = refused_step start (start + r.elapsed) r.answer m (ground arith) in
    let left : LastsFor 2000 (finished_at start r m)
        (async_update_data start (start + r.elapsed) r.answer m).1.backoff_until =
      ground arith in
    (step.0, refreshes-starve (finished_at start r m) rest _ left frequent.1)

spaced_step :
    (time : ℕ) (r : Refresh) (m : Monitor)
    → EndsWithin 2000 time m.backoff_until
    → 2000 ≤ r.pause
    → let start = time + r.pause in
      let out = async_update_data start (start + r.elapsed) r.answer m in
      (out.0 ≢ refused) × EndsWithin 2000 (finished_at start r m) out.1.backoff_until
unfolding async_update_data
spaced_step time r m h spaced = ground arith

-- From a monitor without a backoff, or with one that ends within two seconds of `time`: refreshes
-- each of which starts two seconds or more after the one before it ended, the first after `time`, are
-- never refused, whatever the device answers and however many fail.
pub refreshes-run :
    (time : ℕ) (rs : List Refresh) (m : Monitor)
    → EndsWithin 2000 time m.backoff_until
    → All (λ r. 2000 ≤ r.pause) rs
    → All (λ u. u ≢ refused) (refreshes time rs m).0
unfolding refreshes
refreshes-run time [] m h spaced = tt
refreshes-run time (r ∷ rest) m h spaced =
    let start = time + r.pause in
    let step = spaced_step time r m h spaced.0 in
    (step.0, refreshes-run (finished_at start r m) rest _ step.1 spaced.1)
