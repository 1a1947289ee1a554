-- ===== src/Snmp/Fetching.antt =====
-- What `_fetch_snmp_value_map` asks, and what it answers.
use apc_modbus_snmp_ha.Prelude.{
  String, ◌≡◌, refl, ap, ◌∙◌, Bool, true, false, ◌||◌, none, some, List, [], ◌∷◌, any, str_eq,
  eq_iff, arith, inl, inr, Bool-cases, if◌then◌else◌,
}
use apc_modbus_snmp_ha.Prelude.Dict.{lookup, insert, lookup-insert}
use apc_modbus_snmp_ha.Snmp.{
  Agent, ValueMap, gathered, dedupe_loop, dedupe_oids_preserve_order, fill_map,
  fetch_snmp_value_map, get_value,
}

-- The OID is among these.
abbrev pub asked : String → List String → Bool
asked oid oids = any (str_eq oid) oids

-- No OID stands twice.
abbrev pub IsDistinct : List String → Type 0
IsDistinct [] = Unit
IsDistinct (oid ∷ oids) = (asked oid oids ≡ false) × IsDistinct oids

asked_same : (o x : String) (oids : List String) → str_eq o x ≡ true → asked o oids ≡ asked x oids
asked_same o x oids e = ap (λ t. asked t oids) ((eq_iff o x).0 e)

dedupe_loop_skips :
    (o : String) (seen oids : List String)
    → asked o seen ≡ true
    → asked o (dedupe_loop seen oids) ≡ false
unfolding dedupe_loop
dedupe_loop_skips o seen [] h = refl
dedupe_loop_skips o seen (x ∷ xs) h = elim (Bool-cases (asked x seen)) [
  | inl e ↦ rw (e, dedupe_loop) (dedupe_loop_skips o seen xs h)
  | inr e ↦
      rw (e, dedupe_loop)
        (ground (arith, asked_same o x seen, dedupe_loop_skips o (x ∷ seen) xs (ground arith)))
]

dedupe_loop-asked :
    (o : String) (seen oids : List String)
    → (asked o (dedupe_loop seen oids) || asked o seen) ≡ (asked o oids || asked o seen)
unfolding dedupe_loop
dedupe_loop-asked o seen [] = refl
dedupe_loop-asked o seen (x ∷ xs) = elim (Bool-cases (asked x seen)) [
  | inl e ↦ rw (e, dedupe_loop) (ground (arith, asked_same o x seen, dedupe_loop-asked o seen xs))
  | inr e ↦ rw (e, dedupe_loop) (ground (arith, dedupe_loop-asked o (x ∷ seen) xs))
]

dedupe_loop-IsDistinct : (seen oids : List String) → IsDistinct (dedupe_loop seen oids)
unfolding dedupe_loop
dedupe_loop-IsDistinct seen [] = tt
dedupe_loop-IsDistinct seen (x ∷ xs) = elim (Bool-cases (asked x seen)) [
  | inl e ↦ rw (e, dedupe_loop) (dedupe_loop-IsDistinct seen xs)
  | inr e ↦
      rw (e, dedupe_loop)
        (
          dedupe_loop_skips x (x ∷ seen) xs (ground (arith, eq_iff x x)),
          dedupe_loop-IsDistinct (x ∷ seen) xs,
        )
]

fill_map-lookup :
    (agent : Agent) (o : String) (oids : List String) (map : ValueMap)
    → lookup o (fill_map agent oids map)
      ≡ (if asked o oids then some (gathered (agent o)) else lookup o map)
unfolding fill_map
fill_map-lookup agent o [] map = refl
fill_map-lookup agent o (x ∷ xs) map = ground (
  arith,
  fill_map-lookup agent o xs (insert x (gathered (agent x)) map),
  lookup-insert x o (gathered (agent x)) map,
  eq_iff x o,
  eq_iff o x,
)

dedupe-asked :
    (o : String) (oids : List String) → asked o (dedupe_oids_preserve_order oids) ≡ asked o oids
unfolding dedupe_oids_preserve_order
dedupe-asked o oids = ground (arith, dedupe_loop-asked o [] oids)

fetch-lookup :
    (agent : Agent) (oids : List String) (o : String)
    → lookup o (fetch_snmp_value_map agent oids)
      ≡ (if asked o oids then some (gathered (agent o)) else none)
unfolding fetch_snmp_value_map lookup
fetch-lookup agent oids o =
    fill_map-lookup agent o (dedupe_oids_preserve_order oids) []
    ∙ ap (λ b. if b then some (gathered (agent o)) else none) (dedupe-asked o oids)

-- The value of an OID that is asked for
pub get_value-fetch :
    (agent : Agent) (oids : List String) (o : String)
    → asked o oids ≡ true
    → get_value o (fetch_snmp_value_map agent oids) ≡ gathered (agent o)
get_value-fetch agent oids o h = ground (arith, fetch-lookup agent oids o)

-- The list of OIDs that is asked has no OID twice, and the map has for every OID of the request
-- the value of its own query, which is none if that query failed, and no other OID.
pub fetch_snmp_value_map_lem :
    (agent : Agent) (oids : List String) (o : String)
    → IsDistinct (dedupe_oids_preserve_order oids)
      × (lookup o (fetch_snmp_value_map agent oids)
          ≡ (if asked o oids then some (gathered (agent o)) else none))
unfolding dedupe_oids_preserve_order
fetch_snmp_value_map_lem agent oids o = (dedupe_loop-IsDistinct [] oids, fetch-lookup agent oids o)
