-- ===== src/Diagnostics/Sanitizing.antt =====
-- The redaction of a diagnostic dump (custom_components/apc_modbus/diagnostic_collector.py). Texts are
-- code points; of word characters and white space those below 256 are known.
pub mod Cuts
pub mod Redacted
pub mod Dumps
mod Tests
use apc_modbus_snmp_ha.Prelude.{
  ℕ, zero, suc, ◌+◌, ◌-◌, String, Bool, true, false, not, ◌&&◌, ◌||◌, Option, none, some, List, [],
  ◌∷◌, ◌++◌, take, drop, length, leb, ◌==◌, any, if◌then◌else◌,
}
use mathlib.Core.Option
use apc_modbus_snmp_ha.Prelude.Texts.{codes, same_text, starts}
use apc_modbus_snmp_ha.Decode.{is_space}
use apc_modbus_snmp_ha.Coordinator.Enrichment.{Text}
use apc_modbus_snmp_ha.Snmp.Numbers.{is_digit}

abbrev pub redacted_ip : Text
redacted_ip = codes "[redacted-ip]"

abbrev pub redacted_community : Text
redacted_community = codes "[redacted-community]"

abbrev pub redacted_serial : Text
redacted_serial = codes ": [redacted-serial]"

-- What a pattern finds at the head of a text, behind the character before it: one less than the
-- number of characters, and what replaces them.
abbrev pub Matcher : Type 0
Matcher = Option ℕ → Text → Option (ℕ × Text)

-- The replacement of all matches from the left, behind a character and with so many characters
-- left of the last match
unfoldable pub sub_loop : Matcher → Option ℕ → ℕ → Text → Text
sub_loop m before skip [] = []
sub_loop m before (suc skip) (c ∷ cs) = sub_loop m (some c) skip cs
sub_loop m before zero (c ∷ cs) = elim (m before (c ∷ cs)) [
  | none ↦ c ∷ sub_loop m (some c) zero cs
  | some (more, block) ↦ block ++ sub_loop m (some c) more cs
]

abbrev pub sub : Matcher → Text → Text
sub m text = sub_loop m none zero text

-- `text.replace(needle, block)`, for a needle that is not empty
abbrev pub literal : Text → Text → Matcher
literal needle block before text =
    if starts needle text then some (length needle - 1, block) else none

unfoldable pub is_word : ℕ → Bool
is_word c =
    (leb b'0' c && leb c b'9')
    || (leb b'A' c && leb c b'Z')
    || (leb b'a' c && leb c b'z')
    || c == b'_'
    || any (λ d. c == d) (0xAA ∷ 0xB2 ∷ 0xB3 ∷ 0xB5 ∷ 0xB9 ∷ 0xBA ∷ 0xBC ∷ 0xBD ∷ 0xBE ∷ [])
    || (leb 0xC0 c && not (c == 0xD7) && not (c == 0xF7))

-- `\b` before a word character, and behind one
abbrev pub is_outside : Option ℕ → Bool
is_outside none = true
is_outside (some c) = not (is_word c)

abbrev begins_outside : Text → Bool
begins_outside [] = true
begins_outside (c ∷ _) = not (is_word c)

-- How many characters of a class a text begins with
unfoldable pub count_while : (ℕ → Bool) → Text → ℕ
count_while p [] = 0
count_while p (c ∷ cs) = let more = count_while p cs in if p c then suc more else 0

-- IPV4_RE behind its first `\b`: the length of so many groups with a dot, and of a last one. A run
-- of digits is matched as a whole or not at all.
unfoldable pub address_length : ℕ → Text → Option ℕ
address_length zero text =
    let n = count_while is_digit text in
    if leb 1 n && leb n 3 && begins_outside (drop n text) then some n else none
address_length (suc groups) text =
    let n = count_while is_digit text in
    let more = address_length groups (drop (n + 1) text) in
    if leb 1 n && leb n 3 && starts (codes ".") (drop n text)
    then Option.map (λ k. n + 1 + k) more
    else none

unfoldable pub address : Matcher
address before text =
    if is_outside before
    then Option.map (λ n. (n - 1, redacted_ip)) (address_length 3 text)
    else none

abbrev lower_ascii : ℕ → ℕ
lower_ascii c = if leb b'A' c && leb c b'Z' then c + 32 else c

-- What is behind a word of small letters, in whatever case it is written
unfoldable pub after_word : Text → Text → Option Text
after_word [] text = some text
after_word (w ∷ ws) [] = none
after_word (w ∷ ws) (c ∷ cs) =
    let rest = after_word ws cs in if lower_ascii c == w then rest else none

abbrev pub skip_spaces : Text → Text
skip_spaces text = drop (count_while is_space text) text

-- `(?:\s+number)?`
abbrev after_number : Text → Text
after_number text =
    if leb 1 (count_while is_space text)
    then elim (after_word (codes "number") (skip_spaces text)) [ none ↦ text | some rest ↦ rest ]
    else text

-- `sn|serial(?:\s+number)?`: what is behind the first group
abbrev pub after_name : Text → Option Text
after_name text = elim (after_word (codes "sn") text) [
  | some rest ↦ some rest
  | none ↦ Option.map after_number (after_word (codes "serial") text)
]

abbrev is_serial_character : ℕ → Bool
is_serial_character c =
    is_digit c
    || (leb b'A' c && leb c b'Z')
    || (leb b'a' c && leb c b'z')
    || any (λ d. c == d) (codes "._/-")

-- `\s*[:=]\s*([A-Za-z0-9._/-]+)`: what is behind it
abbrev pub after_value : Text → Option Text
after_value [] = none
after_value (c ∷ cs) =
    let value = skip_spaces cs in
    let n = count_while is_serial_character value in
    if (c == b':' || c == b'=') && leb 1 n then some (drop n value) else none

-- What replaces a first group, which keeps the group, and a value behind it
abbrev pub serial_cut : Text → Text → Option Text → Option (ℕ × Text)
serial_cut text behind_name none = none
serial_cut text behind_name (some rest) =
    some (
      length text - length rest - 1,
      take (length text - length behind_name) text ++ redacted_serial,
    )

abbrev pub named_cut : Text → Option Text → Option (ℕ × Text)
named_cut text none = none
named_cut text (some behind_name) =
    serial_cut text behind_name (after_value (skip_spaces behind_name))

-- SERIAL_FIELD_RE with its replacement
unfoldable pub serial_field : Matcher
serial_field before text = if is_outside before then named_cut text (after_name text) else none

-- `if secret: text = text.replace(secret, block)`
abbrev pub hide : Text → Text → Text → Text
hide [] block text = text
hide (c ∷ cs) block text = sub (literal (c ∷ cs) block) text

-- `_sanitize_text`
unfoldable pub sanitize_text : Text → Text → Text → Text
sanitize_text host community value =
    sub serial_field (hide community redacted_community (sub address (hide host redacted_ip value)))

-- The data of a dump; `other` is a number, a truth value or None.
mutual
  pub data Json : Type 0 where
    other : Json
    string : Text → Json
    list : Items → Json
    dict : Fields → Json

  pub data Items : Type 0 where
    no_items : Items
    item : Json → Items → Items

  pub data Fields : Type 0 where
    no_fields : Fields
    field : Text → Json → Fields → Fields

unfoldable pub ends_with : Text → Text → Bool
ends_with suffix [] = same_text [] suffix
ends_with suffix (c ∷ cs) = same_text (c ∷ cs) suffix || ends_with suffix cs

unfoldable pub is_oid_key : Text → Bool
is_oid_key key = same_text key (codes "oid") || ends_with (codes "_oid") key

-- The item under an identifier's key, and another elsewhere
abbrev pub kept_under : Bool → Json → Json → Json
kept_under true x y = x
kept_under false x y = y

module _ (host community : Text) where
  unfoldable mutual
    -- `_sanitize_data`
    pub sanitize_data : Json → Json
    sanitize_data other = other
    sanitize_data (string t) = string (sanitize_text host community t)
    sanitize_data (list xs) = list (sanitize_items xs)
    sanitize_data (dict fs) = dict (sanitize_fields fs)

    pub sanitize_items : Items → Items
    sanitize_items no_items = no_items
    sanitize_items (item x xs) = item (sanitize_data x) (sanitize_items xs)

    pub sanitize_fields : Fields → Fields
    sanitize_fields no_fields = no_fields
    sanitize_fields (field key x fs) =
        field key (kept_under (is_oid_key key) x (sanitize_data x)) (sanitize_fields fs)
