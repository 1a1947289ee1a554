-- ===== src/Snmp/Printed.antt =====
-- A reading that an agent prints as a whole number, with a unit or other text around it.
use apc_modbus_snmp_ha.Prelude.{
  ℕ, zero, suc, ◌+◌, ◌-◌, ◌*◌, ◌/◌, ◌%◌, ◌≤◌, ◌≡◌, refl, sym, ap, ◌∙◌, true, false, some, [], ◌∷◌,
  ◌++◌, length, All, All-append, ltb, leb, ◌==◌, if◌then◌else◌, arith, inl, inr, Bool-cases,
}
use apc_modbus_snmp_ha.Coordinator.Enrichment.{Text}
use apc_modbus_snmp_ha.Snmp.Numbers.{
  Number, with_fraction, is_digit, digit_run, search_number, scaled_reading, parse_external,
  parse_external_temp_c, parse_external_humidity_pct,
}

-- The decimal digits of a number, the first one first; a number is enough fuel for itself.
pub digits : ℕ → ℕ → Text
digits zero n = (b'0' + n % 10) ∷ []
digits (suc fuel) n =
    let rest = digits fuel (n / 10) in
    if ltb n 10 then (b'0' + n % 10) ∷ [] else rest ++ ((b'0' + n % 10) ∷ [])

abbrev pub printed : ℕ → Text
printed n = digits n n

abbrev IsDigit : ℕ → Type 0
IsDigit c = is_digit c ≡ true

-- No number starts at such a character.
abbrev pub IsNoise : ℕ → Type 0
IsNoise c = (is_digit c ≡ false) × ((c == b'+') ≡ false) × ((c == b'-') ≡ false)

-- A text that does not continue a whole number
abbrev pub EndsNumber : Text → Type 0
EndsNumber [] = Unit
EndsNumber (c ∷ _) = (is_digit c ≡ false) × ((c == b'.') ≡ false)

-- The number that digits continue
abbrev continued : ℕ → Text → ℕ
continued total [] = total
continued total (c ∷ cs) = continued (total * 10 + (c - b'0')) cs

continued-append :
    (total : ℕ) (xs ys : Text) → continued total (xs ++ ys) ≡ continued (continued total xs) ys
continued-append total [] ys = refl
continued-append total (x ∷ xs) ys = continued-append (total * 10 + (x - b'0')) xs ys

last-IsDigit : (n : ℕ) → IsDigit (b'0' + n % 10)
unfolding is_digit
last-IsDigit n = ground arith

digits-All : (fuel n : ℕ) → All IsDigit (digits fuel n)
unfolding digits
digits-All zero n = (last-IsDigit n, tt)
digits-All (suc fuel) n = elim (Bool-cases (ltb n 10)) [
  | inl e ↦ rw e (last-IsDigit n, tt)
  | inr e ↦
      rw e (
        All-append IsDigit (digits fuel (n / 10)) _ (digits-All fuel (n / 10)) (last-IsDigit n, tt))
]

continued-digits : (fuel n : ℕ) → n ≤ fuel → continued 0 (digits fuel n) ≡ n
unfolding digits
continued-digits zero n h = omega arith
continued-digits (suc fuel) n h = elim (Bool-cases (ltb n 10)) [
  | inl e ↦ rw e (ground arith)
  | inr e ↦ rw e (
      ground (
        arith,
        continued-append 0 (digits fuel (n / 10)) ((b'0' + n % 10) ∷ []),
        continued-digits fuel (n / 10),
      ))
]

-- Digits are read to their end.
digit_run-append :
    (total count : ℕ) (ds rest : Text)
    → All IsDigit ds
    → EndsNumber rest
    → digit_run total count (ds ++ rest)
      ≡ record { total = continued total ds; count = count + length ds; rest = rest }
unfolding digit_run
digit_run-append total count [] [] h e = ground arith
digit_run-append total count [] (c ∷ cs) h e = rw (e.0, digit_run) (ground arith)
digit_run-append total count (d ∷ ds) rest h e =
    rw (h.0, digit_run)
      (digit_run-append (total * 10 + (d - b'0')) (suc count) ds rest h.1 e ∙ ground arith)

abbrev whole : ℕ → Number
whole n = record { negative = false; mantissa = n; decimals = 0 }

whole_part :
    (total count : ℕ) (rest : Text) → EndsNumber rest → with_fraction false total rest ≡ whole total
whole_part total count [] e = refl
whole_part total count (c ∷ cs) e = ground (arith, e.1)

search-digits :
    (d : ℕ) (ds rest : Text)
    → All IsDigit (d ∷ ds)
    → EndsNumber rest
    → search_number ((d ∷ ds) ++ rest) ≡ some (whole (continued 0 (d ∷ ds)))
unfolding search_number
search-digits d ds rest h e =
    rw (h.0, search_number)
      (rw (digit_run-append 0 0 (d ∷ ds) rest h e)
        (ap some (whole_part (continued 0 (d ∷ ds)) 0 rest e)))

search-noise :
    (prefix text : Text) → All IsNoise prefix → search_number (prefix ++ text) ≡ search_number text
unfolding search_number
search-noise [] text h = refl
search-noise (c ∷ cs) text h = ground (arith, h.0, search-noise cs text h.1)

digits-cons : (fuel n : ℕ) → (d : ℕ) × (ds : Text) × (digits fuel n ≡ d ∷ ds)
unfolding digits
digits-cons zero n = (b'0' + n % 10, [], refl)
digits-cons (suc fuel) n = elim (Bool-cases (ltb n 10)) [
  | inl e ↦ (b'0' + n % 10, [], rw e refl)
  | inr e ↦
      let (d, ds, same) = digits-cons fuel (n / 10) in
      (d, ds ++ ((b'0' + n % 10) ∷ []), rw (e, same) refl)
]

search-printed :
    (n : ℕ) (rest : Text) → EndsNumber rest → search_number (printed n ++ rest) ≡ some (whole n)
search-printed n rest e =
    let (d, ds, same) = digits-cons n n in
    rw same (
      search-digits d ds rest (rw same at (digits-All n n)) e
      ∙ ap (λ t. some (whole t)) (sym (ap (continued 0) same) ∙ continued-digits n n (omega arith)))

-- The reading of a whole number, in units up to the bound and in tenths above it
abbrev pub reading_of : ℕ → ℕ → Number
reading_of bound n = record {
  negative = false;
  mantissa = n;
  decimals = if leb n bound then 0 else 1;
}

scaled_reading-whole : (bound n : ℕ) → scaled_reading bound (whole n) ≡ some (reading_of bound n)
scaled_reading-whole bound n = ground arith

parse_external-found :
    (bound : ℕ) (text : Text) (raw : Number)
    → search_number text ≡ some raw
    → parse_external bound (some text) ≡ scaled_reading bound raw
parse_external-found bound text raw h = rw (h, parse_external) refl

-- A whole number, printed in decimal with any text before it in which no number starts and any
-- text behind it that does not continue it, is read back: as a temperature in degrees up to 120
-- and in tenths of a degree above, as a humidity in percent up to 100 and in tenths above.
pub parse_external-printed :
    (n : ℕ) (prefix suffix : Text)
    → All IsNoise prefix
    → EndsNumber suffix
    → (parse_external_temp_c (some (prefix ++ (printed n ++ suffix))) ≡ some (reading_of 120 n))
      × (parse_external_humidity_pct (some (prefix ++ (printed n ++ suffix)))
          ≡ some (reading_of 100 n))
unfolding parse_external_temp_c parse_external_humidity_pct
parse_external-printed n prefix suffix noise e =
    let found = search-noise prefix (printed n ++ suffix) noise ∙ search-printed n suffix e in
    let read =
      λ (bound : ℕ). parse_external-found bound _ (whole n) found ∙ scaled_reading-whole bound n in
    (read 120, read 100)
