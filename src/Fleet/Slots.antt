-- ===== src/Fleet/Slots.antt =====
-- The startup slots of the entries.
use apc_modbus_snmp_ha.Prelude.{
  ℕ, ◌-◌, ◌*◌, ◌≤◌, ◌<◌, ◌≡◌, ◌≢◌, ◌⊎◌, refl, String, Bool, true, Option, none, some, List, [], ◌∷◌,
  length, any, ◌∙◌, ap, sym, str_eq, eq_iff, arith, max,
}
use native.Mathlib.Nat.{mul-le-mul, mul_comm, le_of_lt, eq_of_mul-eq-mul_right}
use apc_modbus_snmp_ha.Prelude.Sorting.{sorted, length-sorted, any-sorted}
use apc_modbus_snmp_ha.Fleet.{delay_of, index_of, window_seconds, compute_startup_stagger_delay}

abbrev pub is_in : String → List String → Bool
is_in id = any (λ x. str_eq x id)

index_of-bound : (xs : List String) (id : String) (i : ℕ) → index_of xs id ≡ some i → i < length xs
unfolding index_of
index_of-bound [] id i h = ground arith
index_of-bound (x ∷ xs) id i h = let rest = index_of-bound xs id (i - 1) in ground arith

index_of-found : (xs : List String) (id : String) → is_in id xs ≡ true → index_of xs id ≢ none
unfolding index_of
index_of-found [] id h = ground arith
index_of-found (x ∷ xs) id h = let rest = index_of-found xs id in ground arith

index_of-injective :
    (xs : List String) (a b : String) (i : ℕ)
    → index_of xs a ≡ some i
    → index_of xs b ≡ some i
    → a ≡ b
unfolding index_of
index_of-injective [] a b i h k = ground arith
index_of-injective (x ∷ xs) a b i h k =
    let rest = index_of-injective xs a b (i - 1) in ground (arith, eq_iff x a, eq_iff x b)

scaled_slot :
    (slot total window limit : ℕ) → slot < total → window ≤ limit → slot * window ≤ limit * total
scaled_slot slot total window limit h k =
    let product : slot * window ≤ total * limit = mul-le-mul (le_of_lt h) k in
    rw (mul_comm limit total) product

delay_of-bound :
    (scan_interval total : ℕ) (slot : Option ℕ)
    → ((i : ℕ) → slot ≡ some i → i < total)
    → let delay = delay_of scan_interval total slot in
      (0 < delay.denominator)
      × (delay.numerator ≤ 60 * delay.denominator)
      × (delay.numerator ≤ max scan_interval total * delay.denominator)
delay_of-bound scan_interval total none h = ground arith
delay_of-bound scan_interval total (some slot) h =
    let window = window_seconds scan_interval total in
    let below = h slot refl in
    let minute = scaled_slot slot total window 60 below (omega arith) in
    let wide = scaled_slot slot total window (max scan_interval total) below (omega arith) in
    ground arith

-- A startup delay ends within a minute, and within a window that is the scan interval, or as many
-- seconds as there are entries.
pub compute_startup_stagger_delay-bound :
    (text_le : String → String → Bool) (ids : List String) (id : String) (scan_interval : ℕ)
    → let delay = compute_startup_stagger_delay text_le ids id scan_interval in
      (0 < delay.denominator)
      × (delay.numerator ≤ 60 * delay.denominator)
      × (delay.numerator ≤ max scan_interval (length ids) * delay.denominator)
unfolding compute_startup_stagger_delay
compute_startup_stagger_delay-bound text_le ids id scan_interval =
    let ordered = sorted text_le ids in
    let bound =
      delay_of-bound scan_interval (length ordered) (index_of ordered id)
        (index_of-bound ordered id) in
    let same = length-sorted text_le ids in rw (sym same) bound

delay_of-distinct :
    (scan_interval total : ℕ) (x y : Option ℕ)
    → x ≢ none
    → y ≢ none
    → 2 ≤ total
    → ((i : ℕ) → x ≡ some i → y ≢ some i)
    → ((delay_of scan_interval total x).denominator ≡ (delay_of scan_interval total y).denominator)
      × ((delay_of scan_interval total x).numerator ≢ (delay_of scan_interval total y).numerator)
delay_of-distinct scan_interval total none y hx hy many apart = absurd (hx refl)
delay_of-distinct scan_interval total (some i) none hx hy many apart = absurd (hy refl)
delay_of-distinct scan_interval total (some i) (some j) hx hy many apart =
    let cancel = eq_of_mul-eq-mul_right (window_seconds scan_interval total) (omega arith) i j in
    let different : i ≢ j = λ h. apart i refl (ap some (sym h)) in ground (arith)

-- Two different entries of a fleet never have the same startup delay, whatever order of texts sorts
-- them, so that one of the two does not start immediately, also in a fleet of just these two.
pub compute_startup_stagger_delay-distinct :
    (text_le : String → String → Bool) (ids : List String) (a b : String) (scan_interval : ℕ)
    → is_in a ids ≡ true
    → is_in b ids ≡ true
    → a ≢ b
    → 2 ≤ length ids
    → let x = compute_startup_stagger_delay text_le ids a scan_interval in
      let y = compute_startup_stagger_delay text_le ids b scan_interval in
      (x.denominator ≡ y.denominator)
      × (x.numerator ≢ y.numerator)
      × ((0 < x.numerator) ⊎ (0 < y.numerator))
unfolding compute_startup_stagger_delay
compute_startup_stagger_delay-distinct text_le ids a b scan_interval ha hb distinct many =
    let ordered = sorted text_le ids in
    let same = length-sorted text_le ids in
    let apart =
      delay_of-distinct scan_interval (length ordered) (index_of ordered a) (index_of ordered b)
        (index_of-found ordered a (any-sorted text_le _ ids ∙ ha))
        (index_of-found ordered b (any-sorted text_le _ ids ∙ hb)) (omega arith)
        (λ i h k. distinct (index_of-injective ordered a b i h k)) in
    (apart.0, apart.1, ground (arith, apart))
