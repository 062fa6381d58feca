-- ===== src/Acquisition/Robots/Visits.antt =====
-- The redirect chain of growth_os/acquisition/robots.py.
use growth_os.Prelude.{ℕ, ◌≡◌, inl, inr, true, false, List, [], ◌∷◌, ◌++◌, length, Bool-cases}
use growth_os.Text.{Text}
use growth_os.Text.Equality.{text_eq_refl}
use growth_os.Robots.Gate.{is_empty, any_empty, is_first, is_last}

pub is_last_append : (t : Text) (chain : List Text) → is_last t (chain ++ (t ∷ [])) ≡ true
unfolding is_last
is_last_append t [] = text_eq_refl t
is_last_append t (x ∷ []) = text_eq_refl t
is_last_append t (x ∷ y ∷ chain) = is_last_append t (y ∷ chain)

pub any_empty_append :
    (t : Text) (chain : List Text)
    → any_empty chain ≡ false
    → is_empty t ≡ false
    → any_empty (chain ++ (t ∷ [])) ≡ false
unfolding any_empty
any_empty_append t [] full given = rw given
any_empty_append t (x ∷ chain) full given = elim (Bool-cases (is_empty x)) [
  | inl bare ↦ cc (rw bare at full)
  | inr named ↦ rw named (any_empty_append t chain (rw named at full) given)
]

-- What the loop has visited before a round.
abbrev pub Visited : Text → ℕ → List Text → Text → Type 0
Visited first n chain current =
    (any_empty chain ≡ false)
    × ((length chain ≡ n) × (is_first first (chain ++ (current ∷ [])) ≡ true))

pub is_first_append :
    (t a b : Text) (chain : List Text)
    → is_first t (chain ++ (a ∷ [])) ≡ true
    → is_first t ((chain ++ (a ∷ [])) ++ (b ∷ [])) ≡ true
unfolding is_first
is_first_append t a b [] h = h
is_first_append t a b (x ∷ chain) h = h
