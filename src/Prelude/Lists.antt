-- ===== src/Prelude/Lists.antt =====
-- Lists over the native numbers.
use Prim.Native.Nat.{ℕ, zero, suc, ◌+◌}
use mathlib.Core.Path.{◌≡◌}
use mathlib.Core.Logic.{◌⊎◌, inl, inr}
use mathlib.Core.Option.{Option, none, some}
use mathlib.Core.List.{List, [], ◌∷◌, ◌++◌}
use native.Mathlib.Omega.{arith}

-- Every element of the list has the property.
abbrev pub All {ℓ κ} : {A : Type ℓ} → (A → Type κ) → List A → Type κ
All P [] = Unit
All P (x ∷ xs) = P x × All P xs

module _ {ℓ} {A : Type ℓ} where
  abbrev pub length : List A → ℕ
  length [] = 0
  length (x ∷ xs) = suc (length xs)

  abbrev pub get_elem? : List A → ℕ → Option A
  get_elem? [] i = none
  get_elem? (x ∷ xs) zero = some x
  get_elem? (x ∷ xs) (suc i) = get_elem? xs i

  abbrev pub drop : ℕ → List A → List A
  drop zero xs = xs
  drop (suc i) [] = []
  drop (suc i) (x ∷ xs) = drop i xs

  pub length-append : (xs ys : List A) → length (xs ++ ys) ≡ length xs + length ys
  length-append [] ys = omega arith
  length-append (x ∷ xs) ys = omega (arith, length-append xs ys)

  pub All-append {κ} : (P : A → Type κ) (xs ys : List A) → All P xs → All P ys → All P (xs ++ ys)
  All-append P [] ys hx hy = hy
  All-append P (x ∷ xs) ys hx hy = (hx.0, All-append P xs ys hx.1 hy)

-- Membership, with the place kept.
abbrev pub Within : {A : Type 0} → A → List A → Type 0
Within x [] = ⊥
Within x (y ∷ ys) = (x ≡ y) ⊎ Within x ys

module _ {A : Type 0} where
  pub Within-append_left : (x : A) (xs ys : List A) → Within x xs → Within x (xs ++ ys)
  Within-append_left x [] ys h = absurd h
  Within-append_left x (y ∷ xs) ys h = elim h [
    | inl e ↦ inl e
    | inr m ↦ inr (Within-append_left x xs ys m)
  ]

  pub Within-append_right : (x : A) (xs ys : List A) → Within x ys → Within x (xs ++ ys)
  Within-append_right x [] ys h = h
  Within-append_right x (y ∷ xs) ys h = inr (Within-append_right x xs ys h)

  pub Within-append_cases :
      (x : A) (xs ys : List A) → Within x (xs ++ ys) → Within x xs ⊎ Within x ys
  Within-append_cases x [] ys h = inr h
  Within-append_cases x (y ∷ xs) ys h = elim h [
    | inl e ↦ inl (inl e)
    | inr m ↦ elim (Within-append_cases x xs ys m) [ inl a ↦ inl (inr a) | inr b ↦ inr b ]
  ]
