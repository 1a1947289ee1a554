-- ===== src/Prelude/Sorting.antt =====
-- Python's `sorted`: a stable sort by a test of order.
use Prim.Native.Nat.{ℕ, ◌+◌, ◌≤◌}
use mathlib.Core.Path.{◌≡◌, refl}
use mathlib.Core.Logic.{inl, inr}
use mathlib.Core.Bool.{Bool, ◌||◌}
use mathlib.Core.List.{List, [], ◌∷◌}
use native.Mathlib.Omega.{arith}
use package.apc_modbus_snmp_ha.Prelude.Tests.{leb, if◌then◌else◌, Bool-cases}
use package.apc_modbus_snmp_ha.Prelude.Lists.{length, any, All}

module _ {ℓ} {A : Type ℓ} (le : A → A → Bool) where
  unfoldable pub insert_sorted : A → List A → List A
  insert_sorted x [] = x ∷ []
  insert_sorted x (y ∷ ys) =
      let rest = insert_sorted x ys in if le x y then x ∷ y ∷ ys else y ∷ rest

  unfoldable pub sorted : List A → List A
  sorted [] = []
  sorted (x ∷ xs) = insert_sorted x (sorted xs)

  length-insert_sorted : (x : A) (xs : List A) → length (insert_sorted x xs) ≡ length xs + 1
  unfolding insert_sorted
  length-insert_sorted x [] = refl
  length-insert_sorted x (y ∷ ys) = ground (arith, length-insert_sorted x ys)

  pub length-sorted : (xs : List A) → length (sorted xs) ≡ length xs
  unfolding sorted
  length-sorted [] = refl
  length-sorted (x ∷ xs) = ground (arith, length-insert_sorted x (sorted xs), length-sorted xs)

  any-insert_sorted :
      (p : A → Bool) (x : A) (xs : List A) → any p (insert_sorted x xs) ≡ p x || any p xs
  unfolding insert_sorted
  any-insert_sorted p x [] = refl
  any-insert_sorted p x (y ∷ ys) = ground (arith, any-insert_sorted p x ys)

  -- Sorting keeps what is in the list.
  pub any-sorted : (p : A → Bool) (xs : List A) → any p (sorted xs) ≡ any p xs
  unfolding sorted
  any-sorted p [] = refl
  any-sorted p (x ∷ xs) = ground (arith, any-insert_sorted p x (sorted xs), any-sorted p xs)

module _ {ℓ κ} {A : Type ℓ} (le : A → A → Bool) (P : A → Type κ) where
  insert_sorted-All : (x : A) (xs : List A) → P x → All P xs → All P (insert_sorted le x xs)
  unfolding insert_sorted
  insert_sorted-All x [] h hs = (h, hs)
  insert_sorted-All x (y ∷ ys) h hs = elim (Bool-cases (le x y)) [
    | inl e ↦ rw e (h, hs)
    | inr e ↦ rw e (hs.0, insert_sorted-All x ys h hs.1)
  ]

  -- What holds of all items holds of all of them sorted, and the converse.
  pub sorted-All : (xs : List A) → All P xs → All P (sorted le xs)
  unfolding sorted
  sorted-All [] hs = tt
  sorted-All (x ∷ xs) hs = insert_sorted-All x (sorted le xs) hs.0 (sorted-All xs hs.1)

  uninsert : (x : A) (xs : List A) → All P (insert_sorted le x xs) → P x × All P xs
  unfolding insert_sorted
  uninsert x [] hs = hs
  uninsert x (y ∷ ys) hs = elim (Bool-cases (le x y)) [
    | inl e ↦ rw e at hs
    | inr e ↦
        let u : P y × All P (insert_sorted le x ys) = rw e at hs in
        let t = uninsert x ys u.1 in (t.0, (u.0, t.1))
  ]

  pub unsorted-All : (xs : List A) → All P (sorted le xs) → All P xs
  unfolding sorted
  unsorted-All [] hs = tt
  unsorted-All (x ∷ xs) hs = let t = uninsert x (sorted le xs) hs in (t.0, unsorted-All xs t.1)

-- Items by a number of theirs, none before a smaller one
module _ {ℓ} {A : Type ℓ} (key : A → ℕ) where
  abbrev pub key_le : A → A → Bool
  key_le x y = leb (key x) (key y)

  abbrev pub IsAscending : List A → Type 0
  IsAscending [] = Unit
  IsAscending (x ∷ xs) = All (λ y. key x ≤ key y) xs × IsAscending xs

  raised : (m n : ℕ) (xs : List A) → m ≤ n → All (λ y. n ≤ key y) xs → All (λ y. m ≤ key y) xs
  raised m n [] h hs = tt
  raised m n (x ∷ xs) h hs = (omega (arith, hs.0), raised m n xs h hs.1)

  insert_sorted-IsAscending :
      (x : A) (xs : List A) → IsAscending xs → IsAscending (insert_sorted key_le x xs)
  unfolding insert_sorted
  insert_sorted-IsAscending x [] h = (tt, tt)
  insert_sorted-IsAscending x (y ∷ ys) h = elim (Bool-cases (key_le x y)) [
    | inl e ↦
        let small : key x ≤ key y = ground arith in
        rw e ((small, raised (key x) (key y) ys small h.0), h)
    | inr e ↦
        let large : key y ≤ key x = ground arith in
        rw e (
          insert_sorted-All key_le (λ z. key y ≤ key z) x ys large h.0,
          insert_sorted-IsAscending x ys h.1,
        )
  ]

  pub sorted-IsAscending : (xs : List A) → IsAscending (sorted key_le xs)
  unfolding sorted
  sorted-IsAscending [] = tt
  sorted-IsAscending (x ∷ xs) =
      insert_sorted-IsAscending x (sorted key_le xs) (sorted-IsAscending xs)
