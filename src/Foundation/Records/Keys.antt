-- ===== src/Foundation/Records/Keys.antt =====
-- Finding and replacing the rows of a table of growth_os/services.py.
use growth_os.Prelude.{
  ℕ, ◌==◌, ◌&&◌, ◌≡◌, refl, sym, ap, ◌∙◌, inl, inr, Bool, true, false, none, List, [], ◌∷◌, map,
  arith, Within, Bool-cases,
}
use mathlib.Core.Option.{map as map_some}
use growth_os.Execution.Store.{any, find}

module _ {A : Type 0} (test : A → Bool) where
  pub find-any : (xs : List A) → find test xs ≡ none → any test xs ≡ false
  unfolding find any
  find-any [] h = refl
  find-any (x ∷ xs) h = elim (Bool-cases (test x)) [
    | inl hit ↦ cc (rw hit at h)
    | inr miss ↦ rw miss (find-any xs (rw miss at h))
  ]

  pub any-Within : (x : A) (xs : List A) → Within x xs → test x ≡ true → any test xs ≡ true
  unfolding any
  any-Within x [] w h = absurd w
  any-Within x (y ∷ ys) w h = elim w [
    | inl e ↦ let hit : test y ≡ true = ap test (sym e) ∙ h in rw hit
    | inr m ↦ let rest = any-Within x ys m h in ground arith
  ]

  pub any_none : (xs : List A) → ((x : A) → Within x xs → test x ≡ false) → any test xs ≡ false
  unfolding any
  any_none [] none_such = refl
  any_none (x ∷ xs) none_such = rw (none_such x (inl refl)) (any_none xs λ y w. none_such y (inr w))

  -- Replacing rows by rows that the test takes alike replaces the found one.
  pub find-map :
      (f : A → A) (xs : List A)
      → ((x : A) → Within x xs → test (f x) ≡ test x)
      → find test (map f xs) ≡ map_some f (find test xs)
  unfolding find
  find-map f [] same = refl
  find-map f (x ∷ xs) same = elim (Bool-cases (test x)) [
    | inl hit ↦ rw (same x (inl refl) ∙ hit, hit)
    | inr miss ↦ rw (same x (inl refl) ∙ miss, miss) (find-map f xs λ y w. same y (inr w))
  ]

pub not_same : (a b : ℕ) → (a == b) ≡ false → a ≡ b → ⊥
not_same a b h e = ground arith

pub same_nat : (a b : ℕ) → a ≡ b → (a == b) ≡ true
same_nat a b e = ground arith

pub both : (a b : Bool) → a ≡ true → b ≡ true → (a && b) ≡ true
both a b h k = ground arith

pub true_and_false : (b : Bool) → b ≡ true → b ≡ false → ⊥
true_and_false b h k = cc

pub test_at : (a b c d e f : ℕ) → a ≡ c → b ≡ d → (a == e && b == f) ≡ (c == e && d == f)
test_at a b c d e f h k = rw (h, k)
