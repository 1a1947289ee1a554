-- ===== src/Diagnostics/Sanitizing/Tests.antt =====
-- Texts of a dump, redacted.
use apc_modbus_snmp_ha.Prelude.{◌≡◌, refl}
use apc_modbus_snmp_ha.Prelude.Texts.{codes}
use apc_modbus_snmp_ha.Decode.{is_space}
use apc_modbus_snmp_ha.Snmp.Numbers.{is_digit}
use apc_modbus_snmp_ha.Diagnostics.Sanitizing.{
  sub_loop, is_word, count_while, address_length, address, after_word, serial_field, sanitize_text,
  Json, other, string, list, dict, item, no_items, field, no_fields, sanitize_data,
}
use apc_modbus_snmp_ha.Coordinator.Enrichment.{Text}
use apc_modbus_snmp_ha.Diagnostics.Sanitizing.Redacted.{IsSecret, IsRedacted}
use apc_modbus_snmp_ha.Diagnostics.Sanitizing.Dumps.{AllTexts, blanked, sanitize_data-IsRedacted}

all_hidden :
    sanitize_text
      (codes "ups.lan")
      (codes "public")
      (codes "ups.lan at 10.0.0.7: public, Serial  Number = AS12/3 x1.2.3.4 1.2.3.4.5 sn:")
    ≡ codes
        "[redacted-ip] at [redacted-ip]: [redacted-community], Serial  Number: [redacted-serial] x1.2.3.4 [redacted-ip].5 sn:"
unfolding sanitize_text sub_loop serial_field address address_length count_while after_word is_word
    is_digit is_space
all_hidden = refl

-- An address before a letter is none for the pattern, and the letter may be the community's.
address_shown :
    sanitize_text (codes "ups.lan") (codes "public") (codes "10.0.0.7public")
    ≡ codes "10.0.0.7[redacted-community]"
unfolding sanitize_text sub_loop serial_field address address_length count_while after_word is_word
    is_digit is_space
address_shown = refl

abbrev host : Text
host = codes "ups.lan"

abbrev community : Text
community = codes "public"

-- A reading with its identifier, and a list of two texts
abbrev dump : Json
dump = dict (
    field (codes "reading")
      (dict (
        field (codes "oid") (string (codes "1.3")) (field (codes "value") (string host) no_fields)))
      (field (codes "texts") (list (item (string community) (item other no_items))) no_fields))

host-IsSecret : IsSecret host
host-IsSecret = ((refl, (refl, (refl, (refl, (refl, (refl, (refl, tt))))))), refl, refl, refl)

community-IsSecret : IsSecret community
community-IsSecret = ((refl, (refl, (refl, (refl, (refl, (refl, tt)))))), refl, refl, refl)

sanitize_data-IsRedacted_example :
    AllTexts (IsRedacted host community) (sanitize_data host community dump)
    × (blanked (sanitize_data host community dump) ≡ blanked dump)
sanitize_data-IsRedacted_example =
    sanitize_data-IsRedacted host community host-IsSecret community-IsSecret dump
