-- ===== src/Robots/Policy/Groups.antt =====
-- Rules and groups in growth_os/robots/policy.py: `_parse_rule` and `_parse_groups`.
use mathlib.Core.List.{foldl}
use growth_os.Prelude.{
  ℕ, suc, Bool, true, false, not, ◌&&◌, ◌||◌, Option, none, some, List, [], ◌∷◌, ◌++◌, leb, ◌==◌,
  if◌then◌else◌,
}
use growth_os.Text.{Text, codes, text_eq, split_first, before, strip, lower, ends_with, split_lines}
use growth_os.Robots.Policy.Match.{Token, Rule}
use growth_os.Robots.Policy.Normalize.{Piece, normalize}

pub record Group : Type 0 where
  pub agents : List Text
  pub rules : List Rule

-- `any(ord(character) <= 0x20 or ord(character) == 0x7F for character in value)`
unfoldable pub has_control : Text → Bool
has_control [] = false
has_control (c ∷ rest) = (leb c 0x20 || c == 0x7f) || has_control rest

unfoldable pub starts_with_slash : Text → Bool
starts_with_slash [] = false
starts_with_slash (c ∷ rest) = c == b'/'

-- `tokens[:-1]`
unfoldable pub drop_last : List Token → List Token
drop_last [] = []
drop_last (x ∷ []) = []
drop_last (x ∷ y ∷ rest) = x ∷ drop_last (y ∷ rest)

-- `sum(token is not None for token in tokens)`
unfoldable pub count_literals : List Token → ℕ
count_literals [] = 0
count_literals (none ∷ rest) = count_literals rest
count_literals (some c ∷ rest) = suc (count_literals rest)

unfoldable pub rule_of : Bool → Piece → Rule
rule_of allowed (normalized, tokens) =
    let anchored = ends_with b'$' normalized in
    let kept = if anchored then drop_last tokens else tokens in
    record {
      allowed = allowed;
      normalized = normalized;
      tokens = kept;
      anchored = anchored;
      specificity = count_literals kept;
    }

unfoldable pub parse_rule : Text → Bool → Option Rule
unfolding starts_with_slash has_control
parse_rule value allowed =
    if not (starts_with_slash value)
    then none
    else if has_control value
    then none
    else elim (normalize true value) [ none ↦ none | some piece ↦ some (rule_of allowed piece) ]

-- `[A-Za-z_-]`
unfoldable pub is_token_char : ℕ → Bool
is_token_char c = leb b'A' c && leb c b'Z' || (leb b'a' c && leb c b'z' || (c == b'_' || c == b'-'))

unfoldable pub all_token_chars : Text → Bool
unfolding is_token_char
all_token_chars [] = true
all_token_chars (c ∷ rest) = is_token_char c && all_token_chars rest

-- `_PRODUCT_TOKEN_PATTERN.fullmatch(value) is not None`
unfoldable pub is_product_token : Text → Bool
unfolding all_token_chars
is_product_token [] = false
is_product_token (c ∷ rest) = all_token_chars (c ∷ rest) || text_eq (c ∷ rest) (codes "*")

-- `groups` is `closed` and then `current`: the source's `current` is the last element of `groups`,
-- which it changes in place.
pub record Parser : Type 0 where
  pub closed : List Group
  pub current : Option Group

abbrev pub groups_of : Parser → List Group
groups_of p = elim p.current [ none ↦ p.closed | some g ↦ p.closed ++ g ∷ [] ]

-- A `user-agent` line with a well-formed value.
unfoldable pub add_agent : Text → List Group → Option Group → Parser
add_agent value closed none = record {
  closed = closed;
  current = some (record { agents = value ∷ []; rules = [] });
}
add_agent value closed (some g) = elim g.rules [
  | [] ↦ record { closed = closed; current = some (record g { agents = g.agents ++ value ∷ [] }) }
  | _ ∷ _ ↦ record {
    closed = closed ++ g ∷ [];
    current = some (record { agents = value ∷ []; rules = [] });
  }
]

-- An `allow` or `disallow` line.
unfoldable pub add_rule : Text → Bool → Parser → Parser
add_rule value allowed p = elim p.current [
  | none ↦ p
  | some g ↦ elim (parse_rule value allowed) [
    | none ↦ p
    | some rule ↦ record p { current = some (record g { rules = g.rules ++ rule ∷ [] }) }
  ]
]

-- A line with a colon, by its field and value.
unfoldable pub parse_field : Parser → Text → Text → Parser
unfolding add_agent add_rule
parse_field p field value =
    if text_eq field (codes "user-agent")
    then (if is_product_token value then add_agent value p.closed p.current else p)
    else if text_eq field (codes "allow")
    then add_rule value true p
    else if text_eq field (codes "disallow")
    then add_rule value false p
    else p

unfoldable pub parse_line : Parser → Text → Parser
parse_line p raw_line = elim (split_first b':' (before b'#' raw_line)) [
  | none ↦ p
  | some (raw_field, raw_value) ↦ parse_field p (lower (strip raw_field)) (strip raw_value)
]

abbrev pub no_groups : Parser
no_groups = record { closed = []; current = none }

unfoldable pub parse_groups : Text → List Group
parse_groups robots_text = groups_of (foldl parse_line no_groups (split_lines robots_text))
