-- ===== src/Snmp/Numbers.antt =====
-- The numbers that SNMP values carry (custom_components/apc_modbus/snmp_helper.py): the parsers of
-- temperatures, humidities and frequencies, with the search of a number in a text and the grammar
-- of Python's `float`. A text has code points below 256, and its digits are the ASCII ones. A
-- float is the decimal number of its text: neither rounding nor the range of floats is modelled.
use apc_modbus_snmp_ha.Prelude.{
  ℕ, suc, ◌+◌, ◌-◌, ◌*◌, ◌^◌, Bool, true, false, not, ◌&&◌, ◌||◌, Option, none, some, [], ◌∷◌, ltb,
  leb, ◌==◌, if◌then◌else◌,
}
use apc_modbus_snmp_ha.Decode.{strip}
use apc_modbus_snmp_ha.Coordinator.Enrichment.{Text, lower}
use apc_modbus_snmp_ha.Prelude.Texts.{same_text}

-- plus or minus `mantissa / 10 ** decimals`
pub record Number : Type 0 where
  pub negative : Bool
  pub mantissa : ℕ
  pub decimals : ℕ

-- `raw < 0`, `raw <= 0`, `raw > bound` and `raw / 10.0`; minus zero is not below zero.
abbrev pub is_below_zero : Number → Bool
is_below_zero x = x.negative && ltb 0 x.mantissa

abbrev pub exceeds : Number → ℕ → Bool
exceeds x bound = not x.negative && ltb (bound * 10 ^ x.decimals) x.mantissa

abbrev pub tenth : Number → Number
tenth x = record x { decimals = suc x.decimals }

unfoldable pub is_digit : ℕ → Bool
is_digit c = leb b'0' c && leb c b'9'

-- The digits at the front of a text: the number that they continue, how many they are, and what
-- follows them.
pub record Run : Type 0 where
  pub total : ℕ
  pub count : ℕ
  pub rest : Text

unfoldable pub digit_run : ℕ → ℕ → Text → Run
digit_run total count [] = record { total = total; count = count; rest = [] }
digit_run total count (c ∷ cs) = elim (is_digit c) [
  | true ↦ digit_run (total * 10 + (c - b'0')) (suc count) cs
  | false ↦ record { total = total; count = count; rest = c ∷ cs }
]

abbrev starts_with_digit : Text → Bool
starts_with_digit [] = false
starts_with_digit (c ∷ _) = is_digit c

abbrev number : Bool → ℕ → ℕ → Number
number negative mantissa decimals = record {
  negative = negative;
  mantissa = mantissa;
  decimals = decimals;
}

-- `(?:\.\d+)?` behind the digits of the whole part
abbrev pub with_fraction : Bool → ℕ → Text → Number
with_fraction negative total [] = number negative total 0
with_fraction negative total (c ∷ cs) =
    if c == b'.' && starts_with_digit cs
    then (let r = digit_run total 0 cs in number negative r.total r.count)
    else number negative total 0

abbrev pub matched : Bool → Text → Number
matched negative text = let r = digit_run 0 0 text in with_fraction negative r.total r.rest

abbrev is_sign : ℕ → Bool
is_sign c = c == b'+' || c == b'-'

-- `float` of the first match of `[-+]?\d+(?:\.\d+)?`
unfoldable pub search_number : Text → Option Number
search_number [] = none
search_number (c ∷ cs) =
    let later = search_number cs in
    if is_digit c
    then some (matched false (c ∷ cs))
    else if is_sign c && starts_with_digit cs
    then some (matched (c == b'-') cs)
    else later

-- `_parse_external_temp_c` and `_parse_external_humidity_pct`, which differ in the bound above which a
-- value is taken for tenths
abbrev pub scaled_reading : ℕ → Number → Option Number
scaled_reading bound raw =
    if is_below_zero raw then none else if exceeds raw bound then some (tenth raw) else some raw

abbrev pub parse_external : ℕ → Option Text → Option Number
parse_external bound none = none
parse_external bound (some value) = elim (search_number value) [
  | none ↦ none
  | some raw ↦ scaled_reading bound raw
]

unfoldable pub parse_external_temp_c : Option Text → Option Number
parse_external_temp_c value = parse_external 120 value

unfoldable pub parse_external_humidity_pct : Option Text → Option Number
parse_external_humidity_pct value = parse_external 100 value

-- What `float` makes of a text
pub data Float : Type 0 where
  finite : Number → Float
  infinity : Bool → Float
  not_a_number : Float

-- Every underscore stands between two digits; the flag says whether a digit stands before.
unfoldable pub underscores_valid : Bool → Text → Bool
underscores_valid after [] = true
underscores_valid after (c ∷ cs) =
    let later = underscores_valid (is_digit c) cs in
    if c == b'_' then after && starts_with_digit cs && later else later

unfoldable pub without_underscores : Text → Text
without_underscores [] = []
without_underscores (c ∷ cs) =
    let kept = without_underscores cs in if c == b'_' then kept else c ∷ kept

-- A mantissa with an exponent
abbrev shift_up : ℕ → Number → Number
shift_up e x = number x.negative (x.mantissa * 10 ^ (e - x.decimals)) (x.decimals - e)

abbrev shifted : Bool → ℕ → Number → Number
shifted true e x = number x.negative x.mantissa (x.decimals + e)
shifted false e x = shift_up e x

-- The digits of an exponent, which end the text
abbrev exponent : Bool → Text → Number → Option Float
exponent down text x =
    let r = digit_run 0 0 text in
    elim r.rest [
      | [] ↦ if ltb 0 r.count then some (finite (shifted down r.total x)) else none
      | _ ∷ _ ↦ none
    ]

abbrev signed_exponent : Text → Number → Option Float
signed_exponent [] x = none
signed_exponent (c ∷ cs) x =
    if c == b'-'
    then exponent true cs x
    else if c == b'+'
    then exponent false cs x
    else exponent false (c ∷ cs) x

abbrev behind_mantissa : Text → Number → Option Float
behind_mantissa [] x = some (finite x)
behind_mantissa (c ∷ cs) x = if c == b'e' || c == b'E' then signed_exponent cs x else none

-- A point with digits on one side of it at least
abbrev fraction : Bool → Run → Text → Option Float
fraction negative whole text =
    let r = digit_run whole.total 0 text in
    if ltb 0 (whole.count + r.count)
    then behind_mantissa r.rest (number negative r.total r.count)
    else none

abbrev decimal_part : Bool → Run → Text → Option Float
decimal_part negative whole [] =
    if ltb 0 whole.count then some (finite (number negative whole.total 0)) else none
decimal_part negative whole (c ∷ cs) =
    if c == b'.'
    then fraction negative whole cs
    else if ltb 0 whole.count
    then behind_mantissa (c ∷ cs) (number negative whole.total 0)
    else none

-- "inf", "infinity" and "nan"
abbrev inf : Text
inf = b'i' ∷ b'n' ∷ b'f' ∷ []

abbrev nan : Text
nan = b'n' ∷ b'a' ∷ b'n' ∷ []

abbrev infinity_word : Text
infinity_word = b'i' ∷ b'n' ∷ b'f' ∷ b'i' ∷ b'n' ∷ b'i' ∷ b't' ∷ b'y' ∷ []

abbrev unsigned_float : Bool → Text → Option Float
unsigned_float negative text =
    if same_text (lower text) inf || same_text (lower text) infinity_word
    then some (infinity negative)
    else if same_text (lower text) nan
    then some not_a_number
    else (let r = digit_run 0 0 text in decimal_part negative r r.rest)

abbrev signed_float : Text → Option Float
signed_float [] = none
signed_float (c ∷ cs) =
    if c == b'-'
    then unsigned_float true cs
    else if c == b'+'
    then unsigned_float false cs
    else unsigned_float false (c ∷ cs)

-- `float(text)`, none where it raises ValueError
unfoldable pub float_of : Text → Option Float
float_of text =
    if underscores_valid false (strip text)
    then signed_float (without_underscores (strip text))
    else none

-- The tests of `_parse_frequency_hz`: all comparisons with nan are false.
abbrev pub frequency : Float → Option Float
frequency not_a_number = some not_a_number
frequency (infinity true) = none
frequency (infinity false) = some (infinity false)
frequency (finite raw) =
    if raw.negative || raw.mantissa == 0
    then none
    else if exceeds raw 400
    then some (finite (tenth raw))
    else some (finite raw)

-- `_parse_frequency_hz`
unfoldable pub parse_frequency_hz : Option Text → Option Float
parse_frequency_hz none = none
parse_frequency_hz (some value) = elim (float_of (strip value)) [
  | none ↦ none
  | some raw ↦ frequency raw
]
