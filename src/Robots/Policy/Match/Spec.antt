-- ===== src/Robots/Policy/Match/Spec.antt =====
-- What a match of growth_os/robots/policy.py is, and the loop over suffixes that looks for one.
use growth_os.Prelude.{
  ℕ, zero, suc, ◌+◌, ◌*◌, ◌≤◌, ◌<◌, ◌≡◌, refl, ◌⊎◌, inl, inr, sym, subst, ◌∙◌, ◌↔◌, ==_iff,
  Bool-cases, Bool, true, false, Option, none, some, List, [], ◌∷◌, arith, ◌==◌, length,
}
use growth_os.Robots.Policy.Match.{Token, token_eq, Rule, pattern_of, start, rounds, scan, matches}
use growth_os.Robots.Policy.Match.Suffixes.{
  Star, all_stars, back, step, resume, scan_suffixes, scan-scan_suffixes,
}

-- `Matches p t`: the pattern `p` covers the target `t` as a whole, each wildcard standing for any
-- run of elements, the empty run included, and every other element for itself.
pub data Matches : List Token → List Token → Type 0 where
  done : Matches [] []
  same : {p t : List Token} (c : ℕ) → Matches p t → Matches (some c ∷ p) (some c ∷ t)
  skip : {p t : List Token} → Matches p t → Matches (none ∷ p) t
  take : {p t : List Token} (x : Token) → Matches (none ∷ p) t → Matches (none ∷ p) (x ∷ t)

-- The target holds no wildcard.
abbrev pub IsLiteral : List Token → Type 0
IsLiteral [] = Unit
IsLiteral (none ∷ t) = ⊥
IsLiteral (some c ∷ t) = IsLiteral t

pub IsLiteral-tail : (x : Token) (t : List Token) → IsLiteral (x ∷ t) → IsLiteral t
IsLiteral-tail none t h = absurd h
IsLiteral-tail (some c) t h = h

-- `Aligned sp st p t`: `p` and `t` are what is left of `sp` and `st` after equal elements.
data Aligned : List Token → List Token → List Token → List Token → Type 0 where
  here : {p t : List Token} → Aligned p t p t
  more :
      {sp st p t : List Token} (c : ℕ) → Aligned sp st (some c ∷ p) (some c ∷ t) → Aligned sp st p t

star_drop : {p t : List Token} (c : ℕ) → Matches (none ∷ some c ∷ p) t → Matches (none ∷ p) t
star_drop c (skip (same _ m)) = take (some c) (skip m)
star_drop c (take x m) = take x (star_drop c m)

star_tail :
    {p t : List Token} (c : ℕ) (x : Token)
    → Matches (none ∷ some c ∷ p) (x ∷ t)
    → Matches (none ∷ p) t
star_tail c x (skip (same _ m)) = skip m
star_tail c x (take _ m) = star_drop c m

-- What an earlier wildcard could still reach, the later part of the pattern reaches too.
catch_up :
    {sp st p t : List Token} → Aligned sp st p t → Matches (none ∷ sp) st → Matches (none ∷ p) t
catch_up here m = m
catch_up (more c a) m = star_tail c (some c) (catch_up a m)

star_star : {p t : List Token} → Matches (none ∷ none ∷ p) t → Matches (none ∷ p) t
star_star (skip m) = m
star_star (take x m) = take x (star_star m)

-- A wildcard that the loop may come back to covers one element more than it did.
abbrev Later : Star → Type 0
Later none = ⊥
Later (some (sp, [])) = ⊥
Later (some (sp, x ∷ st)) = Matches (none ∷ sp) st

abbrev Live : List Token → List Token → Star → Type 0
Live p t s = Matches p t ⊎ Later s

-- What the loop keeps, for patterns of at most `n` elements.
abbrev Tracks : ℕ → List Token → List Token → Star → Type 0
Tracks n p t none = Unit
Tracks n p t (some (sp, st)) = Aligned sp st p t × (length sp ≤ n) × IsLiteral st

abbrev weight : ℕ → List Token → List Token → Star → ℕ
weight n p t none = length t * suc n + length p
weight n p t (some (sp, st)) = length st * suc n + length p

length-Aligned : {sp st p t : List Token} → Aligned sp st p t → length t ≤ length st
length-Aligned here = omega arith
length-Aligned (more c a) = omega (arith, length-Aligned a)

-- Coming back to a wildcard loses nothing that lies ahead.
Later-Matches :
    (n : ℕ) (p t : List Token) (s : Star) → Tracks n p t s → Later s → Matches (none ∷ p) t
Later-Matches n p t none h l = absurd l
Later-Matches n p t (some (sp, [])) h l = absurd l
Later-Matches n p t (some (sp, x ∷ st)) h l = catch_up h.0 (take x l)

record Next (n : ℕ) (p t : List Token) (s : Star) (p' t' : List Token) (s' : Star) : Type 0 where
  literal : IsLiteral t'
  tracks : Tracks n p' t' s'
  bounded : length p' ≤ n
  lighter : weight n p' t' s' < weight n p t s
  keeps : Live p t s → Live p' t' s'
  reflects : Live p' t' s' → Live p t s

-- One round from `p`, `t` and `s`: nothing is left to try, or the round goes on.
abbrev Round : ℕ → List Token → List Token → Star → Option (List Token × List Token × Star) → Type 0
Round n p t s none = ¬ (Live p t s)
Round n p t s (some (p', t', s')) = Next n p t s p' t' s'

same_inv :
    {a : ℕ} {x : Token} {p t : List Token}
    → Matches (some a ∷ p) (x ∷ t)
    → (x ≡ some a) × Matches p t
same_inv (same c m) = (refl, m)

not-Matches-nil : {x : Token} {t : List Token} → ¬ (Matches [] (x ∷ t))
not-Matches-nil m = elim m [ ]

star_inv :
    {p t : List Token} {x : Token}
    → Matches (none ∷ p) (x ∷ t)
    → Matches p (x ∷ t) ⊎ Matches (none ∷ p) t
star_inv (skip m) = inl m
star_inv (take _ m) = inr m

Tracks-more :
    (n c : ℕ) (p t : List Token) (s : Star) → Tracks n (some c ∷ p) (some c ∷ t) s → Tracks n p t s
Tracks-more n c p t none h = tt
Tracks-more n c p t (some (sp, st)) h = (more c h.0, h.1, h.2)

weight-more :
    (n c : ℕ) (p t : List Token) (s : Star) → weight n p t s < weight n (some c ∷ p) (some c ∷ t) s
weight-more n c p t none = omega arith
weight-more n c p t (some (sp, st)) = omega arith

same_round :
    (n c : ℕ) (p t : List Token) (s : Star)
    → IsLiteral t
    → Tracks n (some c ∷ p) (some c ∷ t) s
    → suc (length p) ≤ n
    → Next n (some c ∷ p) (some c ∷ t) s p t s
same_round n c p t s literal h b = record {
  literal = literal;
  tracks = Tracks-more n c p t s h;
  bounded = omega arith;
  lighter = weight-more n c p t s;
  keeps = λ l. elim l [ inl m ↦ inl (same_inv m).1 | inr r ↦ inr r ];
  reflects = λ l. elim l [ inl m ↦ inl (same c m) | inr r ↦ inr r ];
}

weight-star :
    (n : ℕ) (p t : List Token) (s : Star)
    → Tracks n (none ∷ p) t s
    → length t * suc n + length p < weight n (none ∷ p) t s
weight-star n p t none h = omega arith
weight-star n p t (some (sp, st)) h = grind (arith, length-Aligned h.0)

star_round :
    (n : ℕ) (p : List Token) (x : Token) (t : List Token) (s : Star)
    → IsLiteral (x ∷ t)
    → Tracks n (none ∷ p) (x ∷ t) s
    → suc (length p) ≤ n
    → Next n (none ∷ p) (x ∷ t) s p (x ∷ t) (some (p, x ∷ t))
star_round n p x t s literal h b = record {
  literal = literal;
  tracks = (here, omega arith, literal);
  bounded = omega arith;
  lighter = weight-star n p (x ∷ t) s h;
  keeps = λ l. elim l [
    | inl m ↦ star_inv m
    | inr r ↦ star_inv (star_star (Later-Matches n (none ∷ p) (x ∷ t) s h r))
  ];
  reflects = λ l. elim l [ inl m ↦ inl (skip m) | inr m ↦ inl (take x m) ];
}

-- The pattern cannot cover the target's next element by itself.
back-Round :
    (n : ℕ) (p : List Token) (x : Token) (t : List Token) (s : Star)
    → Tracks n p (x ∷ t) s
    → ¬ (Matches p (x ∷ t))
    → Round n p (x ∷ t) s (back s)
back-Round n p x t none h stuck = λ l. elim l [ inl m ↦ stuck m | inr r ↦ r ]
back-Round n p x t (some (sp, [])) h stuck = absurd (omega (arith, length-Aligned h.0))
back-Round n p x t (some (sp, y ∷ st)) h stuck = record {
  literal = IsLiteral-tail y st h.2;
  tracks = (here, h.1, IsLiteral-tail y st h.2);
  bounded = h.1;
  lighter = grind arith;
  keeps = λ l. elim l [ inl m ↦ absurd (stuck m) | inr m ↦ again st m ];
  reflects = λ l. elim l [ inl m ↦ inr (skip m) | inr m ↦ inr (later_take st m) ];
}
  where
    again : (u : List Token) → Matches (none ∷ sp) u → Live sp u (some (sp, u))
    again [] (skip m) = inl m
    again (z ∷ u) m = star_inv m

    later_take : (u : List Token) → Later (some (sp, u)) → Matches (none ∷ sp) u
    later_take [] l = absurd l
    later_take (z ∷ u) m = take z m

step-Round :
    (n : ℕ) (p : List Token) (x : Token) (t : List Token) (s : Star)
    → IsLiteral (x ∷ t)
    → Tracks n p (x ∷ t) s
    → length p ≤ n
    → Round n p (x ∷ t) s (step p x t s)
unfolding token_eq
step-Round n p none t s literal h b = absurd literal
step-Round n [] (some c) t s literal h b = back-Round n [] (some c) t s h not-Matches-nil
step-Round n (none ∷ p) (some c) t s literal h b = star_round n p (some c) t s literal h b
step-Round n (some a ∷ p) (some c) t s literal h b = elim (Bool-cases (a == c)) [
  | inl e ↦
      let q : a ≡ c = (==_iff a c).0 e in
      rw e (
        subst (λ d. Next n (some a ∷ p) (some d ∷ t) s p t s) q
          (same_round n a p t s literal
            (subst (λ d. Tracks n (some a ∷ p) (some d ∷ t) s) (sym q) h) b))
  | inr e ↦ rw e (back-Round n (some a ∷ p) (some c) t s h (λ m. ground (arith, (same_inv m).0)))
]

record Decides (r : Option Bool) (L : Type 0) : Type 0 where
  answer : Bool
  answers : r ≡ some answer
  sound : answer ≡ true → L
  complete : L → answer ≡ true

all_stars-Matches : (p : List Token) → all_stars p ≡ true → Matches p []
all_stars-Matches [] h = done
all_stars-Matches (none ∷ p) h = skip (all_stars-Matches p h)
all_stars-Matches (some c ∷ p) h = cc

Matches-all_stars : {p : List Token} → Matches p [] → all_stars p ≡ true
Matches-all_stars done = refl
Matches-all_stars (skip m) = Matches-all_stars m

-- With more fuel than the weight of its state the loop ends, and its answer is right.
scan_suffixes-Decides :
    (n fuel : ℕ) (p t : List Token) (s : Star)
    → IsLiteral t
    → Tracks n p t s
    → length p ≤ n
    → weight n p t s < fuel
    → Decides (scan_suffixes fuel p t s) (Live p t s)
unfolding scan_suffixes
scan_suffixes-Decides n zero p t s l h b w = elim w [ ]
scan_suffixes-Decides n (suc fuel) p [] s l h b w = record {
  answer = all_stars p;
  answers = refl;
  sound = λ e. inl (all_stars-Matches p e);
  complete = λ live. elim live [
    | inl m ↦ Matches-all_stars m
    | inr r ↦ Matches-all_stars (Later-Matches n p [] s h r)
  ];
}
scan_suffixes-Decides n (suc fuel) p (x ∷ t) s l h b w =
    go (step p x t s) (step-Round n p x t s l h b)
      (λ p' t' s'. scan_suffixes-Decides n fuel p' t' s')
  where
    go :
        (r : Option (List Token × List Token × Star))
        → Round n p (x ∷ t) s r
        → ((p' t' : List Token) (s' : Star)
            → IsLiteral t'
            → Tracks n p' t' s'
            → length p' ≤ n
            → weight n p' t' s' < fuel
            → Decides (scan_suffixes fuel p' t' s') (Live p' t' s'))
        → Decides (resume (scan_suffixes fuel) r) (Live p (x ∷ t) s)
    go none stop ih = record {
      answer = false;
      answers = refl;
      sound = λ e. cc;
      complete = λ live. absurd (stop live);
    }
    go (some (p', t', s')) k ih =
        let d = ih p' t' s' k.literal k.tracks k.bounded (omega (arith, k.lighter)) in
        record {
          answer = d.answer;
          answers = d.answers;
          sound = λ e. k.reflects (d.sound e);
          complete = λ live. d.complete (k.keeps live);
        }

pub scan-Decides :
    (p t : List Token)
    → IsLiteral t
    → (b : Bool) × (scan (rounds p t) p t start ≡ some b) × ((b ≡ true) ↔ Matches p t)
scan-Decides p t l =
    let d =
      scan_suffixes-Decides (length p) (rounds p t) p t none l tt (omega arith) (omega arith) in
    (
      d.answer,
      scan-scan_suffixes (rounds p t) p t start (omega arith, tt) ∙ d.answers,
      (λ e. elim (d.sound e) [ inl m ↦ m | inr r ↦ absurd r ], λ m. d.complete (inl m)),
    )

pub matches-Matches :
    (rule : Rule) (target : List Token)
    → IsLiteral target
    → (matches rule target ≡ true) ↔ Matches (pattern_of rule) target
unfolding matches
matches-Matches rule target l =
    let (b, e, h) = scan-Decides (pattern_of rule) target l in rw (matches, e) h
