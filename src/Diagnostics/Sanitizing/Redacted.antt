-- ===== src/Diagnostics/Sanitizing/Redacted.antt =====
-- A sanitized text has neither the host nor the community.

use apc_modbus_snmp_ha.Prelude.{
  ℕ, zero, suc, ◌-◌, ◌≡◌, refl, sym, ap, subst, Option, none, some, [], ◌∷◌, ◌++◌, take, drop,
  length, arith, Bool-cases, inl, inr,
}
use apc_modbus_snmp_ha.Prelude.Texts.{codes}
use apc_modbus_snmp_ha.Coordinator.Enrichment.{Text}
use apc_modbus_snmp_ha.Diagnostics.Sanitizing.{
  Matcher, sub, literal, address, serial_cut, named_cut, is_outside, skip_spaces, after_name,
  after_value, serial_field, hide, redacted_ip, redacted_community, redacted_serial, sanitize_text,
}
use apc_modbus_snmp_ha.Diagnostics.Sanitizing.Cuts.{
  IsUnmarked, Lacks, Block, Cut, Cuts, sub_loop-Lacks, sub_loop-keeps,
}

-- A secret that is not empty, has no mark, and is part of no placeholder
abbrev pub IsSecret : Text → Type 0
IsSecret [] = ⊥
IsSecret (s ∷ ss) =
    IsUnmarked (s ∷ ss)
    × Lacks (s ∷ ss) (codes "redacted-ip")
    × Lacks (s ∷ ss) (codes "redacted-community")
    × Lacks (s ∷ ss) (codes " [redacted-serial")

ip-Block : (secret : Text) → Lacks secret (codes "redacted-ip") → Block secret redacted_ip
ip-Block secret h = record {
  first = b'[';
  inner = codes "redacted-ip";
  last = b']';
  is_block = refl;
  first_marked = refl;
  last_marked = refl;
  inner_lacks = h;
}

community-Block :
    (secret : Text) → Lacks secret (codes "redacted-community") → Block secret redacted_community
community-Block secret h = record {
  first = b'[';
  inner = codes "redacted-community";
  last = b']';
  is_block = refl;
  first_marked = refl;
  last_marked = refl;
  inner_lacks = h;
}

serial-Block :
    (secret : Text) → Lacks secret (codes " [redacted-serial") → Block secret redacted_serial
serial-Block secret h = record {
  first = b':';
  inner = codes " [redacted-serial";
  last = b']';
  is_block = refl;
  first_marked = refl;
  last_marked = refl;
  inner_lacks = h;
}

-- A match that keeps nothing
abbrev whole_cut :
    (secret text block replacement : Text)
    → Block secret block
    → replacement ≡ block
    → Cut secret text replacement
whole_cut secret text block replacement b h = record {
  front = [];
  rest = text;
  block = block;
  is_text = refl;
  is_replacement = h;
  is_cut = b;
}

literal_replacement :
    (needle block : Text) (before : Option ℕ) (text : Text) (more : ℕ) (replacement : Text)
    → literal needle block before text ≡ some (more, replacement)
    → replacement ≡ block
literal_replacement needle block before text more replacement e = ground (arith, e)

abbrev literal-Cuts :
    (secret needle block : Text) → Block secret block → Cuts secret (literal needle block)
literal-Cuts secret needle block b before text more replacement e =
    whole_cut secret text block replacement b
      (literal_replacement needle block before text more replacement e)

address_replacement :
    (before : Option ℕ) (text : Text) (more : ℕ) (replacement : Text)
    → address before text ≡ some (more, replacement)
    → replacement ≡ redacted_ip
unfolding address
address_replacement before text more replacement e = ground (arith, e)

address-Cuts : (secret : Text) → Block secret redacted_ip → Cuts secret address
address-Cuts secret b before text more replacement e =
    whole_cut secret text redacted_ip replacement b
      (address_replacement before text more replacement e)

take-drop : (n : ℕ) (xs : Text) → take n xs ++ drop n xs ≡ xs
take-drop zero xs = refl
take-drop (suc n) [] = refl
take-drop (suc n) (x ∷ xs) = ap (λ t. x ∷ t) (take-drop n xs)

abbrev IsKept : Text → Option (ℕ × Text) → Type 0
IsKept text none = Unit
IsKept text (some (more, replacement)) = (n : ℕ) × (replacement ≡ take n text ++ redacted_serial)

serial_cut-IsKept : (text behind : Text) (o : Option Text) → IsKept text (serial_cut text behind o)
serial_cut-IsKept text behind none = tt
serial_cut-IsKept text behind (some rest) = (length text - length behind, refl)

named_cut-IsKept : (text : Text) (o : Option Text) → IsKept text (named_cut text o)
named_cut-IsKept text none = tt
named_cut-IsKept text (some behind) =
    serial_cut-IsKept text behind (after_value (skip_spaces behind))

serial_field-IsKept : (before : Option ℕ) (text : Text) → IsKept text (serial_field before text)
unfolding serial_field
serial_field-IsKept before text = elim (Bool-cases (is_outside before)) [
  | inl h ↦ rw h (named_cut-IsKept text (after_name text))
  | inr h ↦ rw h tt
]

serial_field-Cuts : (secret : Text) → Block secret redacted_serial → Cuts secret serial_field
serial_field-Cuts secret b before text more replacement e =
    let kept = subst (IsKept text) e (serial_field-IsKept before text) in
    record {
      front = take kept.0 text;
      rest = drop kept.0 text;
      block = redacted_serial;
      is_text = sym (take-drop kept.0 text);
      is_replacement = kept.1;
      is_cut = b;
    }

-- `hide` removes a secret, and keeps another out.
hide-Lacks :
    (secret block text : Text)
    → IsSecret secret
    → Block secret block
    → Lacks secret (hide secret block text)
hide-Lacks [] block text p b = absurd p
hide-Lacks (s ∷ ss) block text p b =
    sub_loop-Lacks s ss (literal (s ∷ ss) block) (λ _. Unit) p.0
      (literal-Cuts (s ∷ ss) (s ∷ ss) block b) (λ c cs h. tt) (λ before xs e h. ground (arith, e))
      (λ before xs more r e h. refl) none zero text tt

hide-keeps :
    (secret needle block text : Text)
    → IsSecret secret
    → Block secret block
    → Lacks secret text
    → Lacks secret (hide needle block text)
hide-keeps [] needle block text p b h = absurd p
hide-keeps (s ∷ ss) [] block text p b h = h
hide-keeps (s ∷ ss) (n ∷ ns) block text p b h =
    sub_loop-keeps s ss (literal (n ∷ ns) block) text p.0 (literal-Cuts (s ∷ ss) (n ∷ ns) block b) h

sub-keeps :
    (secret : Text) (m : Matcher) (text : Text)
    → IsSecret secret
    → Cuts secret m
    → Lacks secret text
    → Lacks secret (sub m text)
sub-keeps [] m text p k h = absurd p
sub-keeps (s ∷ ss) m text p k h = sub_loop-keeps s ss m text p.0 k h

record Placeholders (secret : Text) : Type 0 where
  ip : Block secret redacted_ip
  community : Block secret redacted_community
  serial : Block secret redacted_serial

placeholders : (secret : Text) → IsSecret secret → Placeholders secret
placeholders [] p = absurd p
placeholders (s ∷ ss) p = record {
  ip = ip-Block (s ∷ ss) p.1;
  community = community-Block (s ∷ ss) p.2;
  serial = serial-Block (s ∷ ss) p.3;
}

abbrev pub IsRedacted : Text → Text → Text → Type 0
IsRedacted host community t = Lacks host t × Lacks community t

pub sanitize_text-IsRedacted :
    (host community t : Text)
    → IsSecret host
    → IsSecret community
    → IsRedacted host community (sanitize_text host community t)
unfolding sanitize_text
sanitize_text-IsRedacted host community t h c =
    let hb = placeholders host h in
    let cb = placeholders community c in
    let hidden = hide host redacted_ip t in
    let addressed = sub address hidden in
    let both = hide community redacted_community addressed in
    (
      sub-keeps host serial_field both h (serial_field-Cuts host hb.serial) (
          hide-keeps host community redacted_community addressed h hb.community (
            sub-keeps host address hidden h (address-Cuts host hb.ip)
              (hide-Lacks host redacted_ip t h hb.ip))),
      sub-keeps community serial_field both c (serial_field-Cuts community cb.serial)
          (hide-Lacks community redacted_community addressed c cb.community),
    )
