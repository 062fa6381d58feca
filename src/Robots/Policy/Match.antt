-- ===== src/Robots/Policy/Match.antt =====
-- The wildcard matcher `_matches` of growth_os/robots/policy.py, with the source's indices.
-- The sentinel `star_index = -1` is `none`; otherwise the pair holds the two star variables.
mod Suffixes
pub mod Spec
use growth_os.Prelude.{
  ℕ, zero, suc, ◌+◌, ◌*◌, Bool, true, false, Option, none, some, List, [], ◌∷◌, ◌++◌, ◌==◌,
  if◌then◌else◌, length, get_elem?,
}
use growth_os.Text.{Text}

-- An element of the pattern or of the target: `int | None`, where `None` is the wildcard.
abbrev pub Token : Type 0
Token = Option ℕ

-- Python's `==` on two such values.
unfoldable pub token_eq : Token → Token → Bool
token_eq none none = true
token_eq (some a) (some b) = a == b
token_eq _ _ = false

pub record Rule : Type 0 where
  pub allowed : Bool
  pub normalized : Text
  pub tokens : List Token
  pub anchored : Bool
  pub specificity : ℕ

pub record Cursor : Type 0 where
  pub pattern_index : ℕ
  pub target_index : ℕ
  pub star : Option (ℕ × ℕ)

abbrev pub start : Cursor
start = record { pattern_index = 0; target_index = 0; star = none }

-- `pattern_index < len(pattern) and pattern[pattern_index] == x`
unfoldable pub same_at : List Token → ℕ → Token → Bool
unfolding token_eq
same_at pattern i x = elim (get_elem? pattern i) [ none ↦ false | some y ↦ token_eq y x ]

-- `pattern_index < len(pattern) and pattern[pattern_index] is None`
unfoldable pub star_at : List Token → ℕ → Bool
star_at pattern i = elim (get_elem? pattern i) [
  | none ↦ false
  | some y ↦ elim y [ none ↦ true | some _ ↦ false ]
]

-- The last two branches of the loop: back to the last star, or give up.
unfoldable pub backtrack : Option (ℕ × ℕ) → Option Cursor
backtrack none = none
backtrack (some (star_index, star_target_index)) = some (record {
  pattern_index = star_index + 1;
  target_index = star_target_index + 1;
  star = some (star_index, star_target_index + 1);
})

-- One round of the `while` loop at the target's element `x`; `none` is `return False`.
unfoldable pub advance : List Token → Token → Cursor → Option Cursor
advance pattern x c =
    if same_at pattern c.pattern_index x
    then some (record c { pattern_index = c.pattern_index + 1; target_index = c.target_index + 1 })
    else if star_at pattern c.pattern_index
    then some (record c {
      pattern_index = c.pattern_index + 1;
      star = some (c.pattern_index, c.target_index);
    })
    else backtrack c.star

-- The final loop skips trailing wildcards; the rounds left are the elements left.
unfoldable pub skip_stars : ℕ → List Token → ℕ → ℕ
unfolding star_at
skip_stars zero pattern i = i
skip_stars (suc n) pattern i = skip_stars n pattern (if star_at pattern i then i + 1 else i)

-- The loop; `none` means that the fuel ran out.
unfoldable pub scan : ℕ → List Token → List Token → Cursor → Option Bool
scan zero pattern target c = none
scan (suc fuel) pattern target c = elim (get_elem? target c.target_index) [
  | none ↦ some (skip_stars (length pattern) pattern c.pattern_index == length pattern)
  | some x ↦ elim (advance pattern x c) [
    | none ↦ some false
    | some c' ↦ scan fuel pattern target c'
  ]
]

-- `rule.tokens if rule.anchored else (*rule.tokens, None)`
unfoldable pub pattern_of : Rule → List Token
pattern_of rule = if rule.anchored then rule.tokens else rule.tokens ++ none ∷ []

-- Rounds that always suffice.
abbrev pub rounds : List Token → List Token → ℕ
rounds pattern target = suc (length pattern + length target * suc (length pattern))

unfoldable pub matches : Rule → List Token → Bool
matches rule target =
    let pattern = pattern_of rule in
    elim (scan (rounds pattern target) pattern target start) [ none ↦ false | some b ↦ b ]
