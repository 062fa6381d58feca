-- ===== src/Robots/Policy/Evaluate/Selection.antt =====
-- Which groups apply.
use mathlib.Core.Bool.{false≢true}
use growth_os.Prelude.{
  ◌≡◌, refl, sym, subst, ◌∙◌, ◌↔◌, ◌⊎◌, inl, inr, Bool, true, false, Bool-cases, List, [], ◌∷◌,
  Within, Within-append_left, Within-append_right, Within-append_cases,
}
use growth_os.Text.{Text}
use growth_os.Robots.Policy.Match.{Rule}
use growth_os.Robots.Policy.Groups.{Group}
use growth_os.Robots.Policy.Evaluate.{
  names_product, names_all, groups_where, selected_groups, rules_of,
}

-- The group applies to the crawler: it names it, or no group does and it names everyone.
abbrev pub Applies : List Group → Group → Type 0
Applies groups g =
    (names_product g.agents ≡ true)
    ⊎ ((names_all g.agents ≡ true)
        × ((h : Group) → Within h groups → names_product h.agents ≡ false))

groups_where-yes :
    (test : List Text → Bool) (g : Group) (groups : List Group)
    → test g.agents ≡ true
    → groups_where test (g ∷ groups) ≡ g ∷ groups_where test groups
unfolding groups_where
groups_where-yes test g groups h = rw h

groups_where-no :
    (test : List Text → Bool) (g : Group) (groups : List Group)
    → test g.agents ≡ false
    → groups_where test (g ∷ groups) ≡ groups_where test groups
unfolding groups_where
groups_where-no test g groups h = rw h

groups_where-Within :
    (test : List Text → Bool) (g : Group) (groups : List Group)
    → Within g (groups_where test groups)
    → Within g groups × (test g.agents ≡ true)
groups_where-Within test g [] m = absurd (unfold groups_where in m)
groups_where-Within test g (x ∷ groups) m = elim (Bool-cases (test x.agents)) [
  | inl y ↦ elim (subst (Within g) (groups_where-yes test x groups y) m) [
    | inl e ↦ (inl e, subst (λ z. test z.agents ≡ true) (sym e) y)
    | inr r ↦ let (w, t) = groups_where-Within test g groups r in (inr w, t)
  ]
  | inr n ↦
      let (w, t) =
        groups_where-Within test g groups (subst (Within g) (groups_where-no test x groups n) m) in
      (inr w, t)
]

Within-groups_where :
    (test : List Text → Bool) (g : Group) (groups : List Group)
    → Within g groups
    → test g.agents ≡ true
    → Within g (groups_where test groups)
Within-groups_where test g [] m t = absurd m
Within-groups_where test g (x ∷ groups) m t = elim (Bool-cases (test x.agents)) [
  | inl y ↦
      subst (Within g) (sym (groups_where-yes test x groups y))
        (elim m [ inl e ↦ inl e | inr r ↦ inr (Within-groups_where test g groups r t) ])
  | inr n ↦ subst (Within g) (sym (groups_where-no test x groups n)) (elim m [
    | inl e ↦ absurd (false≢true (sym n ∙ subst (λ z. test z.agents ≡ true) e t))
    | inr r ↦ Within-groups_where test g groups r t
  ])
]

-- A group is selected exactly when it is one of the file's and applies.
pub Within-selected_groups :
    (groups : List Group) (g : Group)
    → Within g (selected_groups groups) ↔ (Within g groups × Applies groups g)
unfolding selected_groups
Within-selected_groups groups g = go (groups_where names_product groups) refl
  where
    none_named :
        (h : Group)
        → groups_where names_product groups ≡ []
        → Within h groups
        → names_product h.agents ≡ false
    none_named h e m = elim (Bool-cases (names_product h.agents)) [
      | inr n ↦ n
      | inl y ↦ absurd (subst (Within h) e (Within-groups_where names_product h groups m y))
    ]

    go :
        (exact : List Group)
        → groups_where names_product groups ≡ exact
        → Within g (elim exact [ [] ↦ groups_where names_all groups | x ∷ xs ↦ x ∷ xs ])
          ↔ (Within g groups × Applies groups g)
    go [] e = (
      λ m.
          let (w, t) = groups_where-Within names_all g groups m in
          (w, inr (t, λ h k. none_named h e k)),
      λ p. elim p.1 [
        | inl y ↦ absurd (false≢true (sym (none_named g e p.0) ∙ y))
        | inr q ↦ Within-groups_where names_all g groups p.0 q.0
      ],
    )
    go (x ∷ xs) e = (
      λ m.
          let (w, t) = groups_where-Within names_product g groups (subst (Within g) (sym e) m) in
          (w, inl t),
      λ p. elim p.1 [
        | inl y ↦ subst (Within g) e (Within-groups_where names_product g groups p.0 y)
        | inr q ↦ absurd (named q.1)
      ],
    )
      where
        named : ¬ ((h : Group) → Within h groups → names_product h.agents ≡ false)
        named none_does =
            let (w, t) =
              groups_where-Within names_product x groups (subst (Within x) (sym e) (inl refl)) in
            false≢true (sym (none_does x w) ∙ t)

rules_of-Within :
    (r : Rule) (groups : List Group)
    → Within r (rules_of groups) ↔ ((g : Group) × Within g groups × Within r g.rules)
unfolding rules_of
rules_of-Within r [] = (λ m. absurd m, λ p. absurd p.1)
rules_of-Within r (x ∷ groups) = (
  λ m. elim (Within-append_cases r x.rules (rules_of groups) m) [
    | inl a ↦ (x, inl refl, a)
    | inr b ↦ let (g, w, k) = (rules_of-Within r groups).0 b in (g, inr w, k)
  ],
  λ p. elim p.1 [
    | inl e ↦
        Within-append_left r x.rules (rules_of groups)
          (subst (λ (g : Group). Within r g.rules) e p.2)
    | inr w ↦
        Within-append_right r x.rules (rules_of groups) ((rules_of-Within r groups).1 (p.0, w, p.2))
  ],
)

-- The rules that decide are those of the groups that apply: the groups that name the crawler in
-- any case, or, where no group names it, the groups for every crawler.
pub selected_rules-Applies :
    (groups : List Group) (r : Rule)
    → Within r (rules_of (selected_groups groups))
      ↔ ((g : Group) × Within g groups × Applies groups g × Within r g.rules)
selected_rules-Applies groups r = (
  λ m.
      let (g, w, k) = (rules_of-Within r (selected_groups groups)).0 m in
      let (v, a) = (Within-selected_groups groups g).0 w in (g, v, a, k),
  λ p.
      (rules_of-Within r (selected_groups groups)).1
        (p.0, (Within-selected_groups groups p.0).1 (p.1, p.2), p.3),
)
