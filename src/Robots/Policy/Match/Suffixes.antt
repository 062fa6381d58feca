-- ===== src/Robots/Policy/Match/Suffixes.antt =====
-- The loop of `_matches` over the parts of the pattern and target that its indices point at, and
-- the proof that the indexed loop runs as this one does.
use Prim.Native.Nat.{◌-◌, ◌≤◌, ◌<◌}
use growth_os.Prelude.{
  ℕ, zero, suc, ◌+◌, ◌≡◌, refl, ap, ◌∙◌, inl, inr, Bool-cases, Option-cases, Bool, true, false,
  Option, none, some, List, [], ◌∷◌, arith, ◌==◌, if◌then◌else◌, length, get_elem?, drop,
}
use growth_os.Robots.Policy.Match.{
  Token, token_eq, Cursor, same_at, star_at, backtrack, advance, skip_stars, scan,
}

abbrev pub Star : Type 0
Star = Option (List Token × List Token)

abbrev pub State : Type 0
State = List Token × List Token × Star

abbrev pub all_stars : List Token → Bool
all_stars [] = true
all_stars (none ∷ p) = all_stars p
all_stars (some c ∷ p) = false

abbrev pub back : Star → Option State
back none = none
back (some (sp, st)) = some (sp, drop 1 st, some (sp, drop 1 st))

abbrev pub step : List Token → Token → List Token → Star → Option State
step [] x t s = back s
step (none ∷ p) x t s = if token_eq none x then some (p, t, s) else some (p, x ∷ t, some (p, x ∷ t))
step (some c ∷ p) x t s = if token_eq (some c) x then some (p, t, s) else back s

abbrev pub resume : (List Token → List Token → Star → Option Bool) → Option State → Option Bool
resume next none = some false
resume next (some (p, t, s)) = next p t s

unfoldable pub scan_suffixes : ℕ → List Token → List Token → Star → Option Bool
scan_suffixes zero p t s = none
scan_suffixes (suc f) p [] s = some (all_stars p)
scan_suffixes (suc f) p (x ∷ t) s = resume (scan_suffixes f) (step p x t s)

-- What an index points at: nothing, or an element and the rest.
data At {ℓ} {A : Type ℓ} (l : List A) (i : ℕ) : Type ℓ where
  outside : drop i l ≡ [] → get_elem? l i ≡ none → At l i
  inside :
      (x : A) (r : List A) → drop i l ≡ x ∷ r → get_elem? l i ≡ some x → drop (i + 1) l ≡ r → At l i

at {ℓ} : {A : Type ℓ} (l : List A) (i : ℕ) → At l i
at [] zero = outside refl refl
at [] (suc i) = outside refl refl
at (x ∷ l) zero = inside x l refl refl refl
at (x ∷ l) (suc i) = elim (at l i) [
  | outside d e ↦ outside d e
  | inside y r d e n ↦ inside y r d e (ground arith)
]

same_at_lem :
    (p : List Token) (i : ℕ) (x : Token) {o : Option Token}
    → get_elem? p i ≡ o
    → same_at p i x ≡ elim o [ none ↦ false | some y ↦ token_eq y x ]
unfolding same_at
same_at_lem p i x e = rw (same_at, e)

star_at_lem :
    (p : List Token) (i : ℕ) {o : Option Token}
    → get_elem? p i ≡ o
    → star_at p i ≡ elim o [ none ↦ false | some y ↦ elim y [ none ↦ true | some _ ↦ false ] ]
unfolding star_at
star_at_lem p i e = rw (star_at, e)

length-drop {ℓ} : {A : Type ℓ} (i : ℕ) (l : List A) → length (drop i l) ≡ length l - i
length-drop zero l = omega arith
length-drop (suc i) [] = omega arith
length-drop (suc i) (x ∷ l) = omega (arith, length-drop i l)

skip_stars_stuck : (n : ℕ) (p : List Token) (i : ℕ) → star_at p i ≡ false → skip_stars n p i ≡ i
unfolding skip_stars
skip_stars_stuck zero p i h = refl
skip_stars_stuck (suc n) p i h = rw h (skip_stars_stuck n p i h)

skip_stars-star :
    (n : ℕ) (p : List Token) (i : ℕ)
    → get_elem? p i ≡ some none
    → skip_stars (suc n) p i ≡ skip_stars n p (i + 1)
unfolding skip_stars
skip_stars-star n p i e = rw (star_at_lem p i e)

skip_stars-all_stars :
    (n : ℕ) (p : List Token) (i : ℕ)
    → i ≤ length p
    → length p ≤ i + n
    → (skip_stars n p i == length p) ≡ all_stars (drop i p)
skip_stars-all_stars zero p i h k = elim (at p i) [
  | outside d e ↦ rw d (ground (arith, skip_stars_stuck zero p i (star_at_lem p i e)))
  | inside x r d e m ↦ absurd (omega (arith, length-drop i p, ap length d))
]
skip_stars-all_stars (suc n) p i h k = elim (at p i) [
  | outside d e ↦
      rw (d, skip_stars_stuck (suc n) p i (star_at_lem p i e))
        (ground (arith, length-drop i p, ap length d))
  | inside none r d e m ↦
      rw (d, skip_stars-star n p i e, ← m)
        (skip_stars-all_stars n p (i + 1) (omega (arith, length-drop i p, ap length d))
          (omega arith))
  | inside (some a) r d e m ↦
      rw (d, skip_stars_stuck (suc n) p i (star_at_lem p i e))
        (ground (arith, length-drop i p, ap length d))
]

drop-add_one {ℓ} : {A : Type ℓ} (i : ℕ) (l : List A) → drop (i + 1) l ≡ drop 1 (drop i l)
drop-add_one zero l = refl
drop-add_one (suc i) [] = ground arith
drop-add_one (suc i) (x ∷ l) = ground (arith, drop-add_one i l)

-- The star variables as the parts that they point at.
abbrev star_parts : List Token → List Token → Option (ℕ × ℕ) → Star
star_parts p t none = none
star_parts p t (some (i, j)) = some (drop (i + 1) p, drop j t)

abbrev view : List Token → List Token → Cursor → State
view p t c = (drop c.pattern_index p, drop c.target_index t, star_parts p t c.star)

abbrev InBounds : List Token → Cursor → Type 0
InBounds p c =
    (c.pattern_index ≤ length p) × elim c.star [ none ↦ Unit | some (i, j) ↦ i + 1 ≤ length p ]

abbrev views : List Token → List Token → Option Cursor → Option State
views p t none = none
views p t (some c) = some (view p t c)

backtrack-back :
    (p t : List Token) (s : Option (ℕ × ℕ)) → views p t (backtrack s) ≡ back (star_parts p t s)
unfolding backtrack
backtrack-back p t none = refl
backtrack-back p t (some (i, j)) = rw (drop-add_one j t)

inside_step :
    (p t : List Token) (c : Cursor) (x : Token) (r : List Token) (y : Token) (q : List Token)
    → drop c.target_index t ≡ x ∷ r
    → drop (c.target_index + 1) t ≡ r
    → drop c.pattern_index p ≡ y ∷ q
    → get_elem? p c.pattern_index ≡ some y
    → drop (c.pattern_index + 1) p ≡ q
    → views p t (advance p x c) ≡ step (y ∷ q) x r (star_parts p t c.star)
unfolding advance
inside_step p t c x r none q d m pd pe pm = elim (Bool-cases (token_eq none x)) [
  | inl e ↦ rw (same_at_lem p _ x pe, e, pm, m)
  | inr e ↦ rw (same_at_lem p _ x pe, star_at_lem p _ pe, e, pm, d)
]
inside_step p t c x r (some a) q d m pd pe pm = elim (Bool-cases (token_eq (some a) x)) [
  | inl e ↦ rw (same_at_lem p _ x pe, e, pm, m)
  | inr e ↦ rw (same_at_lem p _ x pe, star_at_lem p _ pe, e) (backtrack-back p t c.star)
]

advance-step :
    (p t : List Token) (c : Cursor) (x : Token) (r : List Token)
    → drop c.target_index t ≡ x ∷ r
    → drop (c.target_index + 1) t ≡ r
    → views p t (advance p x c) ≡ step (drop c.pattern_index p) x r (star_parts p t c.star)
unfolding advance
advance-step p t c x r d m = elim (at p c.pattern_index) [
  | outside pd pe ↦ rw (pd, same_at_lem p _ x pe, star_at_lem p _ pe) (backtrack-back p t c.star)
  | inside y q pd pe pm ↦ rw pd (inside_step p t c x r y q d m pd pe pm)
]

inside-lt {ℓ} : {A : Type ℓ} (l : List A) (i : ℕ) (x : A) → get_elem? l i ≡ some x → i < length l
inside-lt [] i x e = cc
inside-lt (y ∷ l) zero x e = omega arith
inside-lt (y ∷ l) (suc i) x e = omega (arith, inside-lt l i x e)

same_at-lt : (p : List Token) (i : ℕ) (x : Token) → same_at p i x ≡ true → i < length p
unfolding same_at
same_at-lt p i x h = elim (Option-cases (get_elem? p i)) [
  | inl e ↦ ground arith
  | inr (y, e) ↦ inside-lt p i y e
]

star_at-lt : (p : List Token) (i : ℕ) → star_at p i ≡ true → i < length p
unfolding star_at
star_at-lt p i h = elim (Option-cases (get_elem? p i)) [
  | inl e ↦ ground arith
  | inr (y, e) ↦ inside-lt p i y e
]

-- The indices stay within the pattern.
advance-InBounds :
    (p : List Token) (x : Token) (c c' : Cursor)
    → InBounds p c
    → advance p x c ≡ some c'
    → InBounds p c'
unfolding advance backtrack
advance-InBounds p x c c' h e =
    ground (arith, same_at-lt p c.pattern_index x, star_at-lt p c.pattern_index)

pub scan-scan_suffixes :
    (fuel : ℕ) (p t : List Token) (c : Cursor)
    → InBounds p c
    → scan fuel p t c
      ≡ scan_suffixes fuel (drop c.pattern_index p) (drop c.target_index t) (star_parts p t c.star)
unfolding scan scan_suffixes
scan-scan_suffixes zero p t c h = refl
scan-scan_suffixes (suc fuel) p t c h = elim (at t c.target_index) [
  | outside d e ↦
      rw (d, scan, e)
        (ap some (skip_stars-all_stars (length p) p c.pattern_index h.0 (omega arith)))
  | inside x r d e m ↦
      rw (d, scan, e)
        (go x (λ c'. scan-scan_suffixes fuel p t c')
          ∙ ap (resume (scan_suffixes fuel)) (advance-step p t c x r d m))
]
  where
    go :
        (x : Token)
        → ((c' : Cursor)
            → InBounds p c'
            → scan fuel p t c'
              ≡ scan_suffixes fuel
                  (drop c'.pattern_index p)
                  (drop c'.target_index t)
                  (star_parts p t c'.star))
        → elim (advance p x c) [ none ↦ some false | some c' ↦ scan fuel p t c' ]
          ≡ resume (scan_suffixes fuel) (views p t (advance p x c))
    go x ih = elim (Option-cases (advance p x c)) [
      | inl n ↦ rw n
      | inr (c', n) ↦ rw n (ih c' (advance-InBounds p x c c' h n))
    ]
