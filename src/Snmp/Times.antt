-- ===== src/Snmp/Times.antt =====
-- The times that the self-test parser reads back.
use apc_modbus_snmp_ha.Prelude.{
  ℕ, ◌<◌, ◌≡◌, refl, ap, ◌∙◌, true, some, [], ◌∷◌, ◌++◌, All, arith, subst, Bool-cases, inl, inr,
}
use apc_modbus_snmp_ha.Decode.{is_space, strip}
use apc_modbus_snmp_ha.Coordinator.Enrichment.{Text}
use apc_modbus_snmp_ha.Snmp.Numbers.{is_digit}
use apc_modbus_snmp_ha.Snmp.SelfTest.{two_digits, checked_time, time_matches, parse_self_test_time}
use apc_modbus_snmp_ha.Snmp.Dates.{
  IsInk, strip-IsInk, two, tens-digit, ones-digit, tens-IsInk, ones-IsInk,
}

-- hh:mm
abbrev pub time_text : ℕ → ℕ → Text
time_text h m = two h ++ (b':' ∷ two m)

colon-IsInk : IsInk b':'
unfolding is_space
colon-IsInk = refl

time_matches-text : (h m : ℕ) → h < 24 → m < 60 → time_matches (time_text h m) ≡ true
time_matches-text h m a b =
    ground
      (arith, tens-digit h (omega arith), ones-digit h, tens-digit m (omega arith), ones-digit m)

abbrev TimeOf : Text → Type 0
TimeOf t = (h : ℕ) × (m : ℕ) × (h < 24) × (m < 60) × (t ≡ time_text h m)

pair_of : (a b : ℕ) → is_digit a ≡ true → is_digit b ≡ true → two (two_digits a b) ≡ a ∷ b ∷ []
unfolding is_digit
pair_of a b p q = ground arith

time_bounds :
    (a b s c d : ℕ)
    → time_matches (a ∷ b ∷ s ∷ c ∷ d ∷ []) ≡ true
    → (two_digits a b < 24) × (two_digits c d < 60) × (s ≡ b':')
unfolding is_digit
time_bounds a b s c d h = (ground arith, ground arith, ground arith)

times-TimeOf : (t : Text) → time_matches t ≡ true → TimeOf t
times-TimeOf [] h = cc
times-TimeOf (a ∷ []) h = cc
times-TimeOf (a ∷ b ∷ []) h = cc
times-TimeOf (a ∷ b ∷ s ∷ []) h = cc
times-TimeOf (a ∷ b ∷ s ∷ c ∷ []) h = cc
times-TimeOf (a ∷ b ∷ s ∷ c ∷ d ∷ e ∷ r) h = cc
times-TimeOf (a ∷ b ∷ s ∷ c ∷ d ∷ []) h =
    let (hours, minutes, colon) = time_bounds a b s c d h in
    (
      two_digits a b,
      two_digits c d,
      hours,
      minutes,
      ground (arith, pair_of a b, pair_of c d, colon),
    )

time-IsInk : (h m : ℕ) → h < 24 → m < 60 → All IsInk (time_text h m)
time-IsInk h m a b = (
  tens-IsInk h (omega arith),
  (ones-IsInk h, (colon-IsInk, (tens-IsInk m (omega arith), (ones-IsInk m, tt)))),
)

checked_time-TimeOf : (t u : Text) → checked_time t ≡ some u → TimeOf u
checked_time-TimeOf t u h = elim (Bool-cases (time_matches t)) [
  | inl e ↦ subst TimeOf (ground (arith, e)) (times-TimeOf t e)
  | inr e ↦ absurd (ground (arith, e))
]

-- Whatever the parser of times returns is hh:mm with an hour below 24 and a minute below 60, and
-- each such text is returned as it is.
pub parse_self_test_time_exact :
    (value u : Text)
    → (parse_self_test_time (some value) ≡ some u
        → (h : ℕ) × (m : ℕ) × (h < 24) × (m < 60) × (u ≡ time_text h m))
      × ((h m : ℕ)
          → h < 24
          → m < 60
          → parse_self_test_time (some (time_text h m)) ≡ some (time_text h m))
unfolding parse_self_test_time
parse_self_test_time_exact value u = (
  checked_time-TimeOf (strip value) u,
  λ h m a b.
      ap checked_time (strip-IsInk _ (time-IsInk h m a b))
      ∙ ground (arith, time_matches-text h m a b),
)
