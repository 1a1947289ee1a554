-- ===== src/Diagnostics/Sanitizing/Cuts.antt =====
-- Replacements by blocks that a secret can neither overlap nor be part of.
use apc_modbus_snmp_ha.Prelude.{
  ℕ, zero, suc, ◌≡◌, refl, sym, ap, ◌∙◌, Bool, true, false, ◌||◌, Option, none, some, [], ◌∷◌, ◌++◌,
  All, ◌==◌, arith, Bool-cases, Option-cases, append_assoc, inl, inr,
}
use apc_modbus_snmp_ha.Prelude.Texts.{starts, contains}
use apc_modbus_snmp_ha.Coordinator.Enrichment.{Text}
use apc_modbus_snmp_ha.Diagnostics.Sanitizing.{Matcher, sub_loop}

-- The characters that a block begins and ends with
abbrev pub is_mark : ℕ → Bool
is_mark c = c == b'[' || c == b']' || c == b':'

-- A secret that no mark is part of
abbrev pub IsUnmarked : Text → Type 0
IsUnmarked = All (λ c. is_mark c ≡ false)

abbrev pub Lacks : Text → Text → Type 0
Lacks secret text = contains secret text ≡ false

-- A block, from its first character to its last, of which the secret is no part
pub record Block (secret block : Text) : Type 0 where
  pub first : ℕ
  pub inner : Text
  pub last : ℕ
  pub is_block : block ≡ first ∷ (inner ++ last ∷ [])
  pub first_marked : is_mark first ≡ true
  pub last_marked : is_mark last ≡ true
  pub inner_lacks : Lacks secret inner

starts-mark :
    (secret front : Text) (mark : ℕ) (behind : Text)
    → IsUnmarked secret
    → is_mark mark ≡ true
    → starts secret (front ++ mark ∷ behind) ≡ true
    → starts secret front ≡ true
starts-mark [] front mark behind u m h = refl
starts-mark (s ∷ ss) [] mark behind u m h = absurd (ground (arith, u.0, m, h))
starts-mark (s ∷ ss) (c ∷ front) mark behind u m h =
    let rest = starts-mark ss front mark behind u.1 m (ground (arith, h)) in ground (arith, h, rest)

starts-append :
    (secret front behind : Text)
    → starts secret front ≡ true
    → starts secret (front ++ behind) ≡ true
starts-append [] front behind h = refl
starts-append (s ∷ ss) [] behind h = absurd (ground (arith, h))
starts-append (s ∷ ss) (c ∷ front) behind h =
    let rest = starts-append ss front behind (ground (arith, h)) in ground (arith, h, rest)

module _ (s : ℕ) (ss : Text) where
  abbrev needle : Text
  needle = s ∷ ss

  Lacks-starts : (text : Text) → Lacks needle text → starts needle text ≡ false
  Lacks-starts [] h = refl
  Lacks-starts (c ∷ cs) h = ground (arith, h)

  Lacks-tail : (c : ℕ) (cs : Text) → Lacks needle (c ∷ cs) → Lacks needle cs
  Lacks-tail c cs h = ground (arith, h)

  cons-Lacks :
      (c : ℕ) (cs : Text) → starts needle (c ∷ cs) ≡ false → Lacks needle cs → Lacks needle (c ∷ cs)
  cons-Lacks c cs h k = ground (arith, h, k)

  front-Lacks : (front behind : Text) → Lacks needle (front ++ behind) → Lacks needle front
  front-Lacks [] behind h = refl
  front-Lacks (c ∷ front) behind h =
      cons-Lacks c front
        (elim (Bool-cases (starts needle (c ∷ front))) [
          | inl k ↦ absurd (
              ground (
                arith,
                starts-append needle (c ∷ front) behind k,
                Lacks-starts (c ∷ (front ++ behind)) h,
              ))
          | inr k ↦ k
        ])
        (front-Lacks front behind (Lacks-tail c (front ++ behind) h))

  mark-Lacks :
      (mark : ℕ) (behind : Text)
      → IsUnmarked needle
      → is_mark mark ≡ true
      → Lacks needle behind
      → Lacks needle (mark ∷ behind)
  mark-Lacks mark behind u m h = cons-Lacks mark behind (ground (arith, u.0, m)) h

  append-Lacks :
      (front : Text) (mark : ℕ) (behind : Text)
      → IsUnmarked needle
      → is_mark mark ≡ true
      → Lacks needle front
      → Lacks needle behind
      → Lacks needle (front ++ mark ∷ behind)
  append-Lacks [] mark behind u m f b = mark-Lacks mark behind u m b
  append-Lacks (c ∷ front) mark behind u m f b =
      cons-Lacks c (front ++ mark ∷ behind)
        (elim (Bool-cases (starts needle (c ∷ (front ++ mark ∷ behind)))) [
          | inl k ↦ absurd (
              ground (
                arith,
                starts-mark needle (c ∷ front) mark behind u m k,
                Lacks-starts (c ∷ front) f,
              ))
          | inr k ↦ k
        ])
        (append-Lacks front mark behind u m (Lacks-tail c front f) b)

  block-Lacks :
      (front block behind : Text)
      → IsUnmarked needle
      → Block needle block
      → Lacks needle front
      → Lacks needle behind
      → Lacks needle ((front ++ block) ++ behind)
  block-Lacks front block behind u b f k =
      let shape : (front ++ block) ++ behind ≡ front ++ (b.first ∷ (b.inner ++ (b.last ∷ behind))) =
        rw b.is_block (simp append_assoc) in
      rw shape (
        append-Lacks front b.first _ u b.first_marked f
          (append-Lacks b.inner b.last behind u b.last_marked b.inner_lacks k))

-- A replacement that keeps what a text begins with, and puts a block behind it
pub record Cut (secret text replacement : Text) : Type 0 where
  pub front : Text
  pub rest : Text
  pub block : Text
  pub is_text : text ≡ front ++ rest
  pub is_replacement : replacement ≡ front ++ block
  pub is_cut : Block secret block

abbrev pub Cuts : Text → Matcher → Type 0
Cuts secret m =
    (before : Option ℕ) (text : Text) (more : ℕ) (replacement : Text)
    → m before text ≡ some (more, replacement)
    → Cut secret text replacement

cut-starts :
    (secret part text replacement behind : Text)
    → Cut secret text replacement
    → IsUnmarked part
    → starts part (replacement ++ behind) ≡ true
    → starts part text ≡ true
cut-starts secret part text replacement behind k u h =
    let b = k.is_cut in
    let shape : replacement ++ behind ≡ k.front ++ (b.first ∷ (b.inner ++ (b.last ∷ behind))) =
      rw (k.is_replacement, b.is_block) (simp append_assoc) in
    rw k.is_text (
      starts-append part k.front k.rest
        (starts-mark part k.front b.first _ u b.first_marked (ap (starts part) (sym shape) ∙ h)))

module _ (m : Matcher) where
  sub_loop-none :
      (before : Option ℕ) (c : ℕ) (cs : Text)
      → m before (c ∷ cs) ≡ none
      → sub_loop m before zero (c ∷ cs) ≡ c ∷ sub_loop m (some c) zero cs
  unfolding sub_loop
  sub_loop-none before c cs h = rw (sub_loop, h) refl

  sub_loop-some :
      (before : Option ℕ) (c : ℕ) (cs : Text) (more : ℕ) (block : Text)
      → m before (c ∷ cs) ≡ some (more, block)
      → sub_loop m before zero (c ∷ cs) ≡ block ++ sub_loop m (some c) more cs
  unfolding sub_loop
  sub_loop-some before c cs more block h = rw (sub_loop, h) refl

  -- A text of no mark that the result begins with, the text begins with.
  sub_loop-starts :
      (secret part : Text) (before : Option ℕ) (text : Text)
      → Cuts secret m
      → IsUnmarked part
      → starts part (sub_loop m before zero text) ≡ true
      → starts part text ≡ true
  unfolding sub_loop
  sub_loop-starts secret [] before text k u h = refl
  sub_loop-starts secret (p ∷ ps) before [] k u h = h
  sub_loop-starts secret (p ∷ ps) before (c ∷ cs) k u h = elim (Option-cases (m before (c ∷ cs))) [
    | inl e ↦
        let h' : starts (p ∷ ps) (c ∷ sub_loop m (some c) zero cs) ≡ true =
          ap (starts (p ∷ ps)) (sym (sub_loop-none before c cs e)) ∙ h in
        let rest = sub_loop-starts secret ps (some c) cs k u.1 (ground (arith, h')) in
        ground (arith, h', rest)
    | inr ((more, replacement), e) ↦
        let h' = ap (starts (p ∷ ps)) (sym (sub_loop-some before c cs more replacement e)) ∙ h in
        cut-starts secret (p ∷ ps) (c ∷ cs) replacement (sub_loop m (some c) more cs)
          (k before (c ∷ cs) more replacement e) u h'
  ]

-- `IsFit` is what is known of a text and of its ends: where nothing matches, the secret does not
-- begin there, and what a match keeps lacks it.
module _ (s : ℕ) (ss : Text) (m : Matcher) (IsFit : Text → Type 0) (u : IsUnmarked (s ∷ ss))
    (k : Cuts (s ∷ ss) m) (tail : (c : ℕ) (cs : Text) → IsFit (c ∷ cs) → IsFit cs)
    (unmatched : (before : Option ℕ) (text : Text)
      → m before text ≡ none
      → IsFit text
      → starts (s ∷ ss) text ≡ false)
    (kept : (before : Option ℕ) (text : Text) (more : ℕ) (replacement : Text)
        (e : m before text ≡ some (more, replacement))
      → IsFit text
      → Lacks (s ∷ ss) (k before text more replacement e).front) where
  pub sub_loop-Lacks :
      (before : Option ℕ) (skip : ℕ) (text : Text)
      → IsFit text
      → Lacks (s ∷ ss) (sub_loop m before skip text)
  unfolding sub_loop
  sub_loop-Lacks before skip [] f = refl
  sub_loop-Lacks before (suc skip) (c ∷ cs) f = sub_loop-Lacks (some c) skip cs (tail c cs f)
  sub_loop-Lacks before zero (c ∷ cs) f = elim (Option-cases (m before (c ∷ cs))) [
    | inl e ↦ rw (sub_loop-none m before c cs e) (
        cons-Lacks s ss c (sub_loop m (some c) zero cs)
          (elim (Bool-cases (starts (s ∷ ss) (c ∷ sub_loop m (some c) zero cs))) [
            | inl h ↦ absurd (
                ground (
                  arith,
                  sub_loop-starts m (s ∷ ss) (s ∷ ss) before (c ∷ cs) k u
                      (ap (starts (s ∷ ss)) (sub_loop-none m before c cs e) ∙ h),
                  unmatched before (c ∷ cs) e f,
                ))
            | inr h ↦ h
          ])
          (sub_loop-Lacks (some c) zero cs (tail c cs f)))
    | inr ((more, replacement), e) ↦
        let cut = k before (c ∷ cs) more replacement e in
        rw (sub_loop-some m before c cs more replacement e) (
          rw cut.is_replacement (
            block-Lacks s ss cut.front cut.block (sub_loop m (some c) more cs) u cut.is_cut
              (kept before (c ∷ cs) more replacement e f)
              (sub_loop-Lacks (some c) more cs (tail c cs f))))
  ]

-- Cuts of other blocks keep a secret out.
pub sub_loop-keeps :
    (s : ℕ) (ss : Text) (m : Matcher) (text : Text)
    → IsUnmarked (s ∷ ss)
    → Cuts (s ∷ ss) m
    → Lacks (s ∷ ss) text
    → Lacks (s ∷ ss) (sub_loop m none zero text)
sub_loop-keeps s ss m text u k =
    sub_loop-Lacks s ss m (Lacks (s ∷ ss)) u k (λ c cs h. Lacks-tail s ss c cs h)
      (λ before xs e h. Lacks-starts s ss xs h)
      (λ before xs more r e h.
        let cut = k before xs more r e in
        front-Lacks s ss cut.front cut.rest (ap (contains (s ∷ ss)) (sym cut.is_text) ∙ h))
      none zero text
