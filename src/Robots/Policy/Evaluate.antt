-- ===== src/Robots/Policy/Evaluate.antt =====
-- The decision of growth_os/robots/policy.py: `evaluate_robots`. Its `type(...)` tests hold by the
-- types of the arguments.
pub mod Winner
pub mod Precedence
pub mod Selection
pub mod Outcomes
use mathlib.Core.List.{foldl}
use growth_os.Prelude.{
  ℕ, Bool, true, false, not, ◌&&◌, ◌||◌, Option, none, some, List, [], ◌∷◌, ◌++◌, ltb, ◌==◌,
  if◌then◌else◌, length, Result, ok, err, ◌>>=◌, ◌>>◌, raise_if, or_raise,
}
use growth_os.Text.{Text, Bytes, codes, text_eq, before, lower}
use growth_os.Text.Utf8.{decode}
use growth_os.Robots.Policy.Match.{Token, token_eq, Rule, matches}
use growth_os.Robots.Policy.Normalize.{Piece, normalize, is_valid_target}
use growth_os.Robots.Policy.Groups.{Group, parse_groups}

pub data PolicyErrorCode : Type 0 where
  invalid_input too_large invalid_encoding : PolicyErrorCode

-- What `evaluate_robots` may raise: a `RobotsPolicyError`, or the plain `ValueError` of
-- `_normalize`, which nothing in it catches.
pub data Raised : Type 0 where
  policy_error : PolicyErrorCode → Raised
  value_error : Raised

pub data DecisionReason : Type 0 where
  robots_uri matched_allow matched_disallow no_matching_group no_matching_rule : DecisionReason

pub record Decision : Type 0 where
  pub allowed : Bool
  pub reason : DecisionReason
  pub matched_user_agent : Option Text
  pub matched_rule : Option Text

abbrev pub max_robots_bytes : ℕ
max_robots_bytes = 512000

abbrev pub product_token : Text
product_token = codes "GrowthOSBot"

-- `any(agent.lower() == _PRODUCT_TOKEN.lower() for agent in group.agents)`
unfoldable pub names_product : List Text → Bool
names_product [] = false
names_product (agent ∷ agents) = text_eq (lower agent) (lower product_token) || names_product agents

-- `"*" in group.agents`
unfoldable pub names_all : List Text → Bool
names_all [] = false
names_all (agent ∷ agents) = text_eq agent (codes "*") || names_all agents

unfoldable pub groups_where : (List Text → Bool) → List Group → List Group
groups_where test [] = []
groups_where test (group ∷ groups) =
    let rest = groups_where test groups in if test group.agents then group ∷ rest else rest

-- `exact_groups or [...]`
unfoldable pub selected_groups : List Group → List Group
selected_groups groups = elim (groups_where names_product groups) [
  | [] ↦ groups_where names_all groups
  | g ∷ gs ↦ g ∷ gs
]

-- `_PRODUCT_TOKEN if exact_groups else "*"`
unfoldable pub matched_agent : List Group → Text
matched_agent groups = elim (groups_where names_product groups) [
  | [] ↦ codes "*"
  | _ ∷ _ ↦ product_token
]

unfoldable pub rules_of : List Group → List Rule
rules_of [] = []
rules_of (group ∷ groups) = group.rules ++ rules_of groups

unfoldable pub tokens_eq : List Token → List Token → Bool
unfolding token_eq
tokens_eq [] [] = true
tokens_eq (a ∷ s) (b ∷ t) = token_eq a b && tokens_eq s t
tokens_eq _ _ = false

unfoldable pub bool_eq : Bool → Bool → Bool
bool_eq true b = b
bool_eq false b = not b

-- The `==` of the dataclass `_Rule`: all the fields.
unfoldable pub rule_eq : Rule → Rule → Bool
unfolding tokens_eq bool_eq
rule_eq a b =
    bool_eq a.allowed b.allowed
    && (text_eq a.normalized b.normalized
        && (tokens_eq a.tokens b.tokens
            && (bool_eq a.anchored b.anchored && a.specificity == b.specificity)))

unfoldable pub has_rule : Rule → List Rule → Bool
has_rule rule [] = false
has_rule rule (r ∷ rules) = rule_eq r rule || has_rule rule rules

-- `dict.fromkeys(...)`: each rule once, where it first stands; `seen` are the keys so far.
unfoldable pub unique_from : List Rule → List Rule → List Rule
unique_from seen [] = []
unique_from seen (rule ∷ rules) = elim (has_rule rule seen) [
  | true ↦ unique_from seen rules
  | false ↦ rule ∷ unique_from (rule ∷ seen) rules
]

unfoldable pub unique_rules : List Rule → List Rule
unique_rules rules = unique_from [] rules

-- The two conditions under which a matching rule replaces the winner.
unfoldable pub beats : Rule → Rule → Bool
beats rule winner =
    ltb winner.specificity rule.specificity
    || (rule.specificity == winner.specificity && (rule.allowed && not winner.allowed))

-- One round of the loop over the rules.
unfoldable pub contend : List Token → Option Rule → Rule → Option Rule
contend target winner rule =
    if not (matches rule target)
    then winner
    else elim winner [ none ↦ some rule | some w ↦ if beats rule w then some rule else some w ]

unfoldable pub pick_winner : List Token → List Rule → Option Rule
pick_winner target rules = foldl (contend target) none (unique_rules rules)

unfoldable pub winner_decision : Text → Option Rule → Decision
winner_decision agent none = record {
  allowed = true;
  reason = no_matching_rule;
  matched_user_agent = some agent;
  matched_rule = none;
}
winner_decision agent (some winner) = record {
  allowed = winner.allowed;
  reason = if winner.allowed then matched_allow else matched_disallow;
  matched_user_agent = some agent;
  matched_rule = some winner.normalized;
}

abbrev pub free_decision : DecisionReason → Decision
free_decision reason = record {
  allowed = true;
  reason = reason;
  matched_user_agent = none;
  matched_rule = none;
}

-- What follows the selection of the groups.
unfoldable pub decide_selected : Text → List Token → List Group → Decision
decide_selected agent target [] = free_decision no_matching_group
decide_selected agent target (g ∷ gs) =
    winner_decision agent (pick_winner target (rules_of (g ∷ gs)))

-- What follows the parsing of the groups.
unfoldable pub decide_groups : List Group → List Token → Decision
decide_groups groups target = decide_selected (matched_agent groups) target (selected_groups groups)

-- `normalized_target.split("?", 1)[0] == "/robots.txt"`
unfoldable pub is_robots_uri : Text → Bool
is_robots_uri normalized_target = text_eq (before b'?' normalized_target) (codes "/robots.txt")

-- What follows the normalisation of the target.
unfoldable pub decide : Text → Piece → Decision
decide robots_text (normalized_target, target_tokens) =
    if is_robots_uri normalized_target
    then free_decision robots_uri
    else decide_groups (parse_groups robots_text) target_tokens

unfoldable pub evaluate_robots : Bytes → Text → Result Raised Decision
evaluate_robots robots_txt target_path = do
  raise_if (ltb max_robots_bytes (length robots_txt)) (policy_error too_large)
  robots_text ← or_raise (decode robots_txt) (policy_error invalid_encoding)
  raise_if (not (is_valid_target target_path)) (policy_error invalid_input)
  target ← or_raise (normalize false target_path) value_error
  ok (decide robots_text target)
