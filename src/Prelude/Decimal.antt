-- ===== src/Prelude/Decimal.antt =====
-- `str` of a natural number: its decimal digits.
use Prim.Native.Nat.{ℕ, zero, suc, ◌/◌, ◌%◌}
use Prim.Native.String.{String, ◌++◌ as append}
use mathlib.Core.List.{List, [], ◌∷◌}
use mathlib.Core.Option.{none, some}
use package.apc_modbus_snmp_ha.Prelude.Lists.{get_elem?}
use package.apc_modbus_snmp_ha.Prelude.Tests.{ltb, if◌then◌else◌}

abbrev digit_texts : List String
digit_texts = "0" ∷ "1" ∷ "2" ∷ "3" ∷ "4" ∷ "5" ∷ "6" ∷ "7" ∷ "8" ∷ "9" ∷ []

abbrev digit : ℕ → String
digit d = elim (get_elem? digit_texts d) [ some text ↦ text | none ↦ "" ]

-- A number is more than its number of digits, so the number itself is enough fuel.
unfoldable pub digits : ℕ → ℕ → String
digits zero n = digit (n % 10)
digits (suc fuel) n =
    let rest = digits fuel (n / 10) in if ltb n 10 then digit n else append rest (digit (n % 10))

abbrev pub decimal : ℕ → String
decimal n = digits n n
