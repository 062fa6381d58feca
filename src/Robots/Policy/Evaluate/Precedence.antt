-- ===== src/Robots/Policy/Evaluate/Precedence.antt =====
-- The precedence rule of RFC 9309 over the groups that apply.
use mathlib.Core.Bool.{false≢true}
use growth_os.Prelude.{
  ◌<◌, ◌≡◌, refl, sym, ◌∙◌, ◌↔◌, inl, inr, Bool, true, false, Bool-cases, Option, none, some, List,
  [], ◌∷◌, arith, Within,
}
use growth_os.Text.{Text}
use growth_os.Robots.Policy.Match.{Token, Rule, pattern_of}
use growth_os.Robots.Policy.Match.Spec.{Matches, IsLiteral, matches-Matches}
use growth_os.Robots.Policy.Groups.{Group}
use growth_os.Robots.Policy.Evaluate.{
  selected_groups, matched_agent, rules_of, pick_winner, winner_decision, decide_selected,
  decide_groups,
}
use growth_os.Robots.Policy.Evaluate.Winner.{NotBetter, Best, pick_winner-Best}

abbrev pub Covers : Rule → List Token → Type 0
Covers rule target = Matches (pattern_of rule) target

-- A disallowing rule covers the target, and it is more specific than every allowing rule that does.
pub record Blocks (rules : List Rule) (target : List Token) (rule : Rule) : Type 0 where
  pub listed : Within rule rules
  pub disallows : rule.allowed ≡ false
  pub covers : Covers rule target
  pub strongest :
      (r : Rule)
      → Within r rules
      → r.allowed ≡ true
      → Covers r target
      → r.specificity < rule.specificity

abbrev pub Blocked : List Rule → List Token → Type 0
Blocked rules target = (rule : Rule) × Blocks rules target rule

-- What the loop's winner says of the decision.
abbrev verdict : Option Rule → Bool
verdict none = true
verdict (some w) = w.allowed

beaten :
    (r w : Rule)
    → NotBetter r w
    → r.allowed ≡ true
    → w.allowed ≡ false
    → r.specificity < w.specificity
beaten r w h a d = elim h [ inl lt ↦ lt | inr e ↦ absurd (false≢true (sym d ∙ e.1 a)) ]

module _ (rules : List Rule) (target : List Token) (literal : IsLiteral target) where
  verdict-Blocked :
      (o : Option Rule)
      → Best target (λ r. Within r rules) o
      → (verdict o ≡ false) ↔ Blocked rules target
  verdict-Blocked none b = (
    λ e. absurd (false≢true (sym e)),
    λ blocked.
        let (rule, k) = blocked in
        absurd
          (false≢true (sym (b rule k.listed) ∙ (matches-Matches rule target literal).1 k.covers)),
  )
  verdict-Blocked (some w) b = (
    λ e. (
      w,
      record {
        listed = b.0;
        disallows = e;
        covers = (matches-Matches w target literal).0 b.1;
        strongest = λ r m a c. beaten r w (b.2 r m ((matches-Matches r target literal).1 c)) a e;
      },
    ),
    λ blocked.
        let (rule, k) = blocked in
        elim (Bool-cases w.allowed) [
          | inr no_allow ↦ no_allow
          | inl allow ↦ absurd (contradiction rule k allow)
        ],
  )
    where
      contradiction : (rule : Rule) → Blocks rules target rule → w.allowed ≡ true → ⊥
      contradiction rule k allow =
          let below = k.strongest w b.0 allow ((matches-Matches w target literal).0 b.1) in
          elim (b.2 rule k.listed ((matches-Matches rule target literal).1 k.covers)) [
            | inl lt ↦ omega arith
            | inr e ↦ omega (arith, e.0)
          ]

allowed-winner_decision :
    (agent : Text) (o : Option Rule) → (winner_decision agent o).allowed ≡ verdict o
unfolding winner_decision
allowed-winner_decision agent none = refl
allowed-winner_decision agent (some w) = refl

not_Blocked-nil : (target : List Token) → ¬ (Blocked [] target)
not_Blocked-nil target (rule, k) = k.listed

decide_selected-Blocked :
    (agent : Text) (target : List Token) (selected : List Group)
    → IsLiteral target
    → ((decide_selected agent target selected).allowed ≡ false) ↔ Blocked (rules_of selected) target
unfolding decide_selected
decide_selected-Blocked agent target [] literal =
    (λ e. cc, λ blocked. absurd (not_Blocked-nil target (unfold rules_of in blocked)))
decide_selected-Blocked agent target (g ∷ gs) literal =
    let rules = rules_of (g ∷ gs) in
    let (to, from) =
      verdict-Blocked rules target literal (pick_winner target rules)
        (pick_winner-Best target rules) in
    let same = allowed-winner_decision agent (pick_winner target rules) in
    (λ e. to (sym same ∙ e), λ blocked. same ∙ from blocked)

-- With the groups of a robots.txt and a target that holds no wildcard, access is refused exactly
-- when a disallowing rule of the groups that apply covers the target and is strictly more specific
-- than every allowing rule of these groups that covers it.
pub decide_groups-Blocked :
    (groups : List Group) (target : List Token)
    → IsLiteral target
    → ((decide_groups groups target).allowed ≡ false)
      ↔ Blocked (rules_of (selected_groups groups)) target
unfolding decide_groups
decide_groups-Blocked groups target literal =
    decide_selected-Blocked (matched_agent groups) target (selected_groups groups) literal
