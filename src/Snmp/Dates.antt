-- ===== src/Snmp/Dates.antt =====
-- The dates that the self-test parser reads back.
use apc_modbus_snmp_ha.Prelude.{
  ℕ, ◌+◌, ◌/◌, ◌%◌, ◌≤◌, ◌<◌, ◌≡◌, refl, ap, ◌∙◌, true, false, some, [], ◌∷◌, ◌++◌, All, arith,
  Bool-cases, inl, inr, ◌⊎◌, ltb, ltb→lt,
}
use apc_modbus_snmp_ha.Decode.{is_space, strip_left, strip_right, strip}
use apc_modbus_snmp_ha.Coordinator.Enrichment.{Text}
use apc_modbus_snmp_ha.Snmp.Numbers.{is_digit}
use apc_modbus_snmp_ha.Snmp.SelfTest.{
  Date, is_date, two_digits, short_year, year_of, date_of, parse_self_test_date,
}

abbrev pub IsInk : ℕ → Type 0
IsInk c = is_space c ≡ false

strip_left-IsInk : (cs : Text) → All IsInk cs → strip_left cs ≡ cs
unfolding strip_left
strip_left-IsInk [] h = refl
strip_left-IsInk (c ∷ cs) h = rw h.0

strip_right-IsInk : (cs : Text) → All IsInk cs → strip_right cs ≡ cs
unfolding strip_right
strip_right-IsInk [] h = refl
strip_right-IsInk (c ∷ []) h = rw h.0
strip_right-IsInk (c ∷ d ∷ cs) h = rw (strip_right-IsInk (d ∷ cs) h.1)

pub strip-IsInk : (cs : Text) → All IsInk cs → strip cs ≡ cs
unfolding strip
strip-IsInk cs h = ap strip_right (strip_left-IsInk cs h) ∙ strip_right-IsInk cs h

-- Two digits, and a date as mm/dd/yy and mm/dd/yyyy
abbrev pub two : ℕ → Text
two n = (b'0' + n / 10) ∷ (b'0' + n % 10) ∷ []

abbrev pub short_text : Date → Text
short_text d = two d.month ++ (b'/' ∷ two d.day ++ (b'/' ∷ two (d.year % 100)))

abbrev pub long_text : Date → Text
long_text d = two d.month ++ (b'/' ∷ two d.day ++ (b'/' ∷ two (d.year / 100) ++ two (d.year % 100)))

pub tens-digit : (n : ℕ) → n < 100 → is_digit (b'0' + n / 10) ≡ true
unfolding is_digit
tens-digit n h = ground arith

pub ones-digit : (n : ℕ) → is_digit (b'0' + n % 10) ≡ true
unfolding is_digit
ones-digit n = ground arith

two_digits-two : (n : ℕ) → n < 100 → two_digits (b'0' + n / 10) (b'0' + n % 10) ≡ n
two_digits-two n h = omega arith

pub tens-IsInk : (n : ℕ) → n < 100 → IsInk (b'0' + n / 10)
unfolding is_space
tens-IsInk n h = ground arith

pub ones-IsInk : (n : ℕ) → IsInk (b'0' + n % 10)
unfolding is_space
ones-IsInk n = ground arith

slash-IsInk : IsInk b'/'
unfolding is_space
slash-IsInk = refl

date_bounds : (d : Date) → is_date d ≡ true → (d.month < 100) × (d.day < 100) × (d.year < 10000)
unfolding is_date
date_bounds d h = ground arith

short_year-mod : (y : ℕ) → 1969 ≤ y → y ≤ 2068 → short_year (y % 100) ≡ y
short_year-mod y a b = ground arith

date_of-two :
    (d : Date) (rest : Text)
    → is_date d ≡ true
    → year_of rest ≡ some d.year
    → date_of (two d.month ++ (b'/' ∷ two d.day ++ (b'/' ∷ rest))) ≡ some d
date_of-two d rest h e =
    let b = date_bounds d h in
    ground (
      arith,
      e,
      tens-digit d.month b.0,
      ones-digit d.month,
      tens-digit d.day b.1,
      ones-digit d.day,
      two_digits-two d.month b.0,
      two_digits-two d.day b.1,
    )

year_of-long : (y : ℕ) → y < 10000 → year_of (two (y / 100) ++ two (y % 100)) ≡ some y
year_of-long y h = ground (
  arith,
  tens-digit (y / 100) (omega arith),
  ones-digit (y / 100),
  tens-digit (y % 100) (omega arith),
  ones-digit (y % 100),
)

year_of-short : (y : ℕ) → 1969 ≤ y → y ≤ 2068 → year_of (two (y % 100)) ≡ some y
year_of-short y a b = ground (
  arith,
  tens-digit (y % 100) (omega arith),
  ones-digit (y % 100),
  two_digits-two (y % 100) (omega arith),
  short_year-mod y a b,
)

date-IsInk :
    (d : Date) (rest : Text)
    → is_date d ≡ true
    → All IsInk rest
    → All IsInk (two d.month ++ (b'/' ∷ two d.day ++ (b'/' ∷ rest)))
date-IsInk d rest h k =
    let b = date_bounds d h in
    (
      tens-IsInk d.month b.0,
      (
        ones-IsInk d.month,
        (slash-IsInk, (tens-IsInk d.day b.1, (ones-IsInk d.day, (slash-IsInk, k)))),
      ),
    )

year-IsInk : (y : ℕ) → y < 10000 → All IsInk (two (y / 100) ++ two (y % 100))
year-IsInk y h = (
  tens-IsInk (y / 100) (omega arith),
  (ones-IsInk (y / 100), (tens-IsInk (y % 100) (omega arith), (ones-IsInk (y % 100), tt))),
)

short-IsInk : (y : ℕ) → All IsInk (two (y % 100))
short-IsInk y = (tens-IsInk (y % 100) (omega arith), (ones-IsInk (y % 100), tt))

parse-rest :
    (d : Date) (rest : Text)
    → is_date d ≡ true
    → All IsInk rest
    → year_of rest ≡ some d.year
    → parse_self_test_date (some (two d.month ++ (b'/' ∷ two d.day ++ (b'/' ∷ rest)))) ≡ some d
unfolding parse_self_test_date
parse-rest d rest h k e =
    ap date_of (strip-IsInk _ (date-IsInk d rest h k)) ∙ date_of-two d rest h e

in_window :
    {P : Type 0} (d : Date)
    → (1969 ≤ d.year → d.year ≤ 2068 → P)
    → (d.year < 1969) ⊎ (2068 < d.year) ⊎ P
in_window d f = elim (Bool-cases (ltb d.year 1969)) [
  | inl h ↦ inl (ltb→lt _ _ h)
  | inr h ↦ elim (Bool-cases (ltb 2068 d.year)) [
    | inl k ↦ inr (inl (ltb→lt _ _ k))
    | inr k ↦ inr (inr (f (ground (arith, h)) (ground (arith, k))))
  ]
]

-- Every date of the years 1 to 9999 is read back from mm/dd/yyyy, and every date of the years 1969
-- to 2068 from mm/dd/yy.
pub parse_self_test_date-text :
    (d : Date)
    → is_date d ≡ true
    → (parse_self_test_date (some (long_text d)) ≡ some d)
      × ((d.year < 1969) ⊎ (2068 < d.year) ⊎ (parse_self_test_date (some (short_text d)) ≡ some d))
parse_self_test_date-text d h =
    let y = (date_bounds d h).2 in
    (
      parse-rest d (two (d.year / 100) ++ two (d.year % 100)) h (year-IsInk d.year y)
          (year_of-long d.year y),
      in_window d (λ a b.
          parse-rest d (two (d.year % 100)) h (short-IsInk d.year) (year_of-short d.year a b)),
    )
