-- ===== src/Execution/Store/Rows.antt =====
-- The selections and updates of growth_os/execution_repository.py, row by row.
use growth_os.Prelude.{
  ℕ, ◌≡◌, refl, sym, ap, inl, inr, Bool, true, false, not, ◌&&◌, some, List, [], ◌∷◌, map, arith,
  ◌==◌, Within, Bool-cases, some_injective,
}
use growth_os.Execution.Store.{any, find, keep}

pub and_left : (a b : Bool) → (a && b) ≡ true → a ≡ true
and_left true b h = refl
and_left false b h = h

pub and_right : (a b : Bool) → (a && b) ≡ true → b ≡ true
and_right true b h = h
and_right false b h = ground arith

pub not-true : (a : Bool) → not a ≡ true → a ≡ false
not-true true h = ground arith
not-true false h = refl

pub nat_eq_sound : {a b : ℕ} → (a == b) ≡ true → a ≡ b
nat_eq_sound h = ground arith

module _ {A : Type 0} (test : A → Bool) where
  pub find_sound : (x : A) (xs : List A) → find test xs ≡ some x → Within x xs × (test x ≡ true)
  unfolding find
  find_sound x [] h = cc
  find_sound x (y ∷ ys) h = elim (Bool-cases (test y)) [
    | inl hit ↦ let same = some_injective (rw hit at h) in (inl (sym same), rw (sym same, hit))
    | inr miss ↦ let rest = find_sound x ys (rw miss at h) in (inr rest.0, rest.1)
  ]

  pub any_sound : (xs : List A) → any test xs ≡ true → (x : A) × (Within x xs × (test x ≡ true))
  unfolding any
  any_sound [] h = cc
  any_sound (y ∷ ys) h = elim (Bool-cases (test y)) [
    | inl hit ↦ (y, (inl refl, hit))
    | inr miss ↦ let rest = any_sound ys (rw miss at h) in (rest.0, (inr rest.1.0, rest.1.1))
  ]

  pub any_refuse : (x : A) (xs : List A) → any test xs ≡ false → Within x xs → test x ≡ false
  unfolding any
  any_refuse x [] h w = absurd w
  any_refuse x (y ∷ ys) h w = elim (Bool-cases (test y)) [
    | inl hit ↦ cc (rw hit at h)
    | inr miss ↦ elim w [ inl e ↦ rw (e, miss) | inr m ↦ any_refuse x ys (rw miss at h) m ]
  ]

  pub Within-keep : (x : A) (xs : List A) → Within x (keep test xs) → Within x xs × (test x ≡ true)
  unfolding keep
  Within-keep x [] w = absurd w
  Within-keep x (y ∷ ys) w = elim (Bool-cases (test y)) [
    | inl hit ↦ elim (rw hit at w) [
      | inl e ↦ (inl e, rw (e, hit))
      | inr m ↦ let rest = Within-keep x ys m in (inr rest.0, rest.1)
    ]
    | inr miss ↦ let rest = Within-keep x ys (rw miss at w) in (inr rest.0, rest.1)
  ]

  pub keep-Within : (x : A) (xs : List A) → Within x xs → test x ≡ true → Within x (keep test xs)
  unfolding keep
  keep-Within x [] w h = absurd w
  keep-Within x (y ∷ ys) w h = elim (Bool-cases (test y)) [
    | inl hit ↦ rw hit (elim w [ inl e ↦ inl e | inr m ↦ inr (keep-Within x ys m h) ])
    | inr miss ↦ rw miss (elim w [ inl e ↦ cc (miss, ap test e, h) | inr m ↦ keep-Within x ys m h ])
  ]

  pub keep-map :
      (f : A → A) (xs : List A)
      → ((x : A) → test (f x) ≡ test x)
      → keep test (map f xs) ≡ map f (keep test xs)
  unfolding keep
  keep-map f [] same = refl
  keep-map f (y ∷ ys) same = elim (Bool-cases (test y)) [
    | inl hit ↦ rw (same y, hit, keep-map f ys same)
    | inr miss ↦ rw (same y, miss, keep-map f ys same)
  ]

module _ {A : Type 0} where
  pub Within-map :
      (f : A → A) (y : A) (xs : List A) → Within y (map f xs) → (x : A) × (Within x xs × (y ≡ f x))
  Within-map f y [] w = absurd w
  Within-map f y (x ∷ xs) w = elim w [
    | inl e ↦ (x, (inl refl, e))
    | inr m ↦ let rest = Within-map f y xs m in (rest.0, (inr rest.1.0, rest.1.1))
  ]

  pub map-Within : (f : A → A) (x : A) (xs : List A) → Within x xs → Within (f x) (map f xs)
  map-Within f x [] w = absurd w
  map-Within f x (y ∷ ys) w = elim w [ inl e ↦ inl (ap f e) | inr m ↦ inr (map-Within f x ys m) ]
