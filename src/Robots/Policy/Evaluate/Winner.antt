-- ===== src/Robots/Policy/Evaluate/Winner.antt =====
-- The rule that the loop of `evaluate_robots` is left with, and `dict.fromkeys` before it.
use mathlib.Core.Bool.{false≢true}
use mathlib.Core.List.{foldl}
use growth_os.Prelude.{
  ◌<◌, ◌≡◌, refl, sym, ap, subst, ◌∙◌, ◌⊎◌, inl, inr, Bool, true, false, Bool-cases, Option, none,
  some, List, [], ◌∷◌, arith, Within,
}
use growth_os.Text.Equality.{text_eq_sound}
use growth_os.Robots.Policy.Match.{Token, token_eq, Rule, matches}
use growth_os.Robots.Policy.Evaluate.{
  tokens_eq, bool_eq, rule_eq, has_rule, unique_from, unique_rules, beats, contend, pick_winner,
}

token_eq_sound : (a b : Token) → token_eq a b ≡ true → a ≡ b
unfolding token_eq
token_eq_sound none none h = refl
token_eq_sound none (some b) h = cc
token_eq_sound (some a) none h = cc
token_eq_sound (some a) (some b) h = ground arith

tokens_eq_sound : (s t : List Token) → tokens_eq s t ≡ true → s ≡ t
unfolding tokens_eq
tokens_eq_sound [] [] h = refl
tokens_eq_sound [] (b ∷ t) h = cc
tokens_eq_sound (a ∷ s) [] h = cc
tokens_eq_sound (a ∷ s) (b ∷ t) h = ground (arith, token_eq_sound a b, tokens_eq_sound s t)

bool_eq_sound : (a b : Bool) → bool_eq a b ≡ true → a ≡ b
unfolding bool_eq
bool_eq_sound true b h = sym h
bool_eq_sound false b h = ground arith

rule_eq_sound : (a b : Rule) → rule_eq a b ≡ true → a ≡ b
unfolding rule_eq
rule_eq_sound a b h = ground (
  arith,
  bool_eq_sound a.allowed b.allowed,
  text_eq_sound a.normalized b.normalized,
  tokens_eq_sound a.tokens b.tokens,
  bool_eq_sound a.anchored b.anchored,
)

has_rule-Within : (rule : Rule) (rules : List Rule) → has_rule rule rules ≡ true → Within rule rules
unfolding has_rule
has_rule-Within rule [] h = cc
has_rule-Within rule (r ∷ rules) h = elim (Bool-cases (rule_eq r rule)) [
  | inl e ↦ inl (sym (rule_eq_sound r rule e))
  | inr e ↦ inr (has_rule-Within rule rules (rw e at h))
]

unique_from-old :
    (x : Rule) (seen rules : List Rule)
    → has_rule x seen ≡ true
    → unique_from seen (x ∷ rules) ≡ unique_from seen rules
unfolding unique_from
unique_from-old x seen rules h = rw (unique_from, h)

unique_from-new :
    (x : Rule) (seen rules : List Rule)
    → has_rule x seen ≡ false
    → unique_from seen (x ∷ rules) ≡ x ∷ unique_from (x ∷ seen) rules
unfolding unique_from
unique_from-new x seen rules h = rw (unique_from, h)

unique_from_sound :
    (r : Rule) (seen rules : List Rule) → Within r (unique_from seen rules) → Within r rules
unfolding unique_from
unique_from_sound r seen [] h = h
unique_from_sound r seen (x ∷ rules) h = elim (Bool-cases (has_rule x seen)) [
  | inl old ↦
      inr (unique_from_sound r seen rules (subst (Within r) (unique_from-old x seen rules old) h))
  | inr new ↦
      first_or_rest (subst (Within r) (unique_from-new x seen rules new) h)
        (unique_from_sound r (x ∷ seen) rules)
]
  where
    first_or_rest :
        Within r (x ∷ unique_from (x ∷ seen) rules)
        → (Within r (unique_from (x ∷ seen) rules) → Within r rules)
        → Within r (x ∷ rules)
    first_or_rest (inl e) ih = inl e
    first_or_rest (inr m) ih = inr (ih m)

unique_from_complete :
    (r : Rule) (seen rules : List Rule)
    → Within r rules
    → Within r (unique_from seen rules) ⊎ Within r seen
unique_from_complete r seen [] h = absurd h
unique_from_complete r seen (x ∷ rules) h = elim (Bool-cases (has_rule x seen)) [
  | inl old ↦
      subst (λ u. Within r u ⊎ Within r seen) (sym (unique_from-old x seen rules old))
        (kept h (has_rule-Within x seen old) (unique_from_complete r seen rules))
  | inr new ↦
      subst (λ u. Within r u ⊎ Within r seen) (sym (unique_from-new x seen rules new))
        (added h (unique_from_complete r (x ∷ seen) rules))
]
  where
    kept :
        Within r (x ∷ rules)
        → Within x seen
        → (Within r rules → Within r (unique_from seen rules) ⊎ Within r seen)
        → Within r (unique_from seen rules) ⊎ Within r seen
    kept (inl e) old ih = inr (subst (λ y. Within y seen) (sym e) old)
    kept (inr m) old ih = ih m

    added :
        Within r (x ∷ rules)
        → (Within r rules → Within r (unique_from (x ∷ seen) rules) ⊎ Within r (x ∷ seen))
        → Within r (x ∷ unique_from (x ∷ seen) rules) ⊎ Within r seen
    added (inl e) ih = inl (inl e)
    added (inr m) ih = elim (ih m) [
      | inl u ↦ inl (inr u)
      | inr s ↦ elim s [ inl e ↦ inl (inl e) | inr o ↦ inr o ]
    ]

-- `r` does not beat `w`: `w` is more specific, or as specific and allowing if `r` is.
abbrev pub NotBetter : Rule → Rule → Type 0
NotBetter r w =
    (r.specificity < w.specificity)
    ⊎ ((r.specificity ≡ w.specificity) × (r.allowed ≡ true → w.allowed ≡ true))

beats-NotBetter : (r w : Rule) → beats r w ≡ true → NotBetter w r
unfolding beats
beats-NotBetter r w h = ground arith

not_beats-NotBetter : (r w : Rule) → beats r w ≡ false → NotBetter r w
unfolding beats
not_beats-NotBetter r w h = ground arith

NotBetter-trans : (a b c : Rule) → NotBetter a b → NotBetter b c → NotBetter a c
NotBetter-trans a b c p q = ground arith

NotBetter-path : (r w : Rule) → r ≡ w → NotBetter r w
NotBetter-path r w e =
    inr (ap (λ (y : Rule). y.specificity) e, λ h. subst (λ y. y.allowed ≡ true) e h)

-- The outcome of the loop over the rules that satisfy `P`.
abbrev pub Best : List Token → (Rule → Type 0) → Option Rule → Type 0
Best target P none = (r : Rule) → P r → matches r target ≡ false
Best target P (some w) =
    P w × (matches w target ≡ true) × ((r : Rule) → P r → matches r target ≡ true → NotBetter r w)

Best-iff :
    (target : List Token) (P Q : Rule → Type 0) (o : Option Rule)
    → ((r : Rule) → P r → Q r)
    → ((r : Rule) → Q r → P r)
    → Best target P o
    → Best target Q o
Best-iff target P Q none f g b = λ r q. b r (g r q)
Best-iff target P Q (some w) f g b = (f w b.0, b.1, λ r q. b.2 r (g r q))

contend-Best :
    (target : List Token) (P : Rule → Type 0) (o : Option Rule) (rule : Rule)
    → Best target P o
    → Best target (λ r. P r ⊎ (r ≡ rule)) (contend target o rule)
unfolding contend
contend-Best target P none rule b = elim (Bool-cases (matches rule target)) [
  | inr no_match ↦ rw no_match (λ r q. elim q [
    | inl p ↦ b r p
    | inr e ↦ subst (λ y. matches y target ≡ false) (sym e) no_match
  ])
  | inl match ↦ rw match (
    inr refl,
    match,
    λ r q m. elim q [
      | inl p ↦ absurd (false≢true (sym (b r p) ∙ m))
      | inr e ↦ NotBetter-path r rule e
    ],
  )
]
contend-Best target P (some w) rule b = elim (Bool-cases (matches rule target)) [
  | inr no_match ↦ rw no_match (
    inl b.0,
    b.1,
    λ r q m. elim q [
      | inl p ↦ b.2 r p m
      | inr e ↦ absurd (false≢true (sym no_match ∙ subst (λ y. matches y target ≡ true) e m))
    ],
  )
  | inl match ↦ elim (Bool-cases (beats rule w)) [
    | inl better ↦
        rw (match, better)
          (
            inr refl,
            match,
            λ r q m. elim q [
              | inl p ↦ NotBetter-trans r w rule (b.2 r p m) (beats-NotBetter rule w better)
              | inr e ↦ NotBetter-path r rule e
            ],
          )
    | inr worse ↦
        rw (match, worse)
          (
            inl b.0,
            b.1,
            λ r q m. elim q [
              | inl p ↦ b.2 r p m
              | inr e ↦ subst (λ y. NotBetter y w) (sym e) (not_beats-NotBetter rule w worse)
            ],
          )
  ]
]

foldl-Best :
    (target : List Token) (P : Rule → Type 0) (o : Option Rule) (rules : List Rule)
    → Best target P o
    → Best target (λ r. P r ⊎ Within r rules) (foldl (contend target) o rules)
foldl-Best target P o [] b =
    Best-iff target P (λ r. P r ⊎ ⊥) o (λ r p. inl p)
      (λ r q. elim q [ inl p ↦ p | inr n ↦ absurd n ]) b
foldl-Best target P o (rule ∷ rules) b =
    Best-iff target (λ r. (P r ⊎ (r ≡ rule)) ⊎ Within r rules) (λ r. P r ⊎ Within r (rule ∷ rules))
      (foldl (contend target) (contend target o rule) rules)
      (λ r q. elim q [
        | inl s ↦ elim s [ inl p ↦ inl p | inr e ↦ inr (inl e) ]
        | inr m ↦ inr (inr m)
      ])
      (λ r q. elim q [
        | inl p ↦ inl (inl p)
        | inr s ↦ elim s [ inl e ↦ inl (inr e) | inr m ↦ inr m ]
      ])
      (foldl-Best target (λ r. P r ⊎ (r ≡ rule)) (contend target o rule) rules
        (contend-Best target P o rule b))

-- The loop picks, of all the rules, repeated or not, the best one that matches, and none only if
-- no rule matches.
pub pick_winner-Best :
    (target : List Token) (rules : List Rule)
    → Best target (λ r. Within r rules) (pick_winner target rules)
unfolding pick_winner unique_rules
pick_winner-Best target rules =
    Best-iff target (λ r. ⊥ ⊎ Within r (unique_from [] rules)) (λ r. Within r rules)
      (foldl (contend target) none (unique_from [] rules))
      (λ r q. elim q [ inl n ↦ absurd n | inr m ↦ unique_from_sound r [] rules m ])
      (λ r m. elim (unique_from_complete r [] rules m) [ inl u ↦ inr u | inr n ↦ absurd n ])
      (foldl-Best target (λ r. ⊥) none (unique_from [] rules) (λ r n. absurd n))
