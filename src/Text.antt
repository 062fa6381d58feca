-- ===== src/Text.antt =====
-- Python's `str` and `bytes`, as sequences of code points and of octets, and the `str` methods that
-- the modelled code calls.
pub mod Utf8
pub mod Equality
use Prim.Native.Char.{code}
use Prim.Native.String.{String}
use mathlib.Core.List.{reverse}
use growth_os.Prelude.{
  ℕ, ◌+◌, Bool, true, false, ◌&&◌, ◌||◌, Option, none, some, List, [], ◌∷◌, ◌++◌, leb, ◌==◌,
  if◌then◌else◌,
}

abbrev pub Text : Type 0
Text = List ℕ

abbrev pub Bytes : Type 0
Bytes = List ℕ

-- The code points of a literal.
abbrev pub codes : String → Text
codes String.[] = []
codes (String.◌∷◌ c s) = code c ∷ codes s

-- Python's `==` on texts.
abbrev pub text_eq : Text → Text → Bool
text_eq [] [] = true
text_eq (a ∷ s) (b ∷ t) = a == b && text_eq s t
text_eq _ _ = false

-- The parts before and after the first `ch`, if there is one: `s.split(ch, 1)`.
unfoldable pub split_first : ℕ → Text → Option (Text × Text)
split_first ch [] = none
split_first ch (c ∷ rest) =
    if c == ch
    then some ([], rest)
    else elim (split_first ch rest) [ none ↦ none | some (a, b) ↦ some (c ∷ a, b) ]

-- `s.split(ch, 1)[0]`
unfoldable pub before : ℕ → Text → Text
before ch [] = []
before ch (c ∷ rest) = if c == ch then [] else c ∷ before ch rest

-- `s.strip(" \t")`
unfoldable pub lstrip : Text → Text
lstrip [] = []
lstrip (c ∷ rest) = if c == 0x20 || c == 0x09 then lstrip rest else c ∷ rest

unfoldable pub strip : Text → Text
unfolding lstrip
strip s = reverse (lstrip (reverse (lstrip s)))

-- `s.lower()`, as far as an ASCII text it is compared with can tell: of the characters beyond
-- ASCII only U+0130 and U+212A have ASCII letters in their lower case.
lower_char : ℕ → Text
lower_char c =
    if leb b'A' c && leb c b'Z'
    then (c + 32) ∷ []
    else if c == 0x0130
    then b'i' ∷ 0x0307 ∷ []
    else if c == 0x212a
    then b'k' ∷ []
    else c ∷ []

unfoldable pub lower : Text → Text
unfolding lower_char
lower [] = []
lower (c ∷ rest) = lower_char c ++ lower rest

-- `s.endswith(chr(ch))`
unfoldable pub ends_with : ℕ → Text → Bool
ends_with ch [] = false
ends_with ch (c ∷ []) = c == ch
ends_with ch (c ∷ d ∷ rest) = ends_with ch (d ∷ rest)

-- `re.split(r"\r\n|\r|\n", s)`: the first line, and the lines after it.
push : ℕ → Text × List Text → Text × List Text
push c (line, lines) = (c ∷ line, lines)

end_line : Text × List Text → Text × List Text
end_line (line, lines) = ([], line ∷ lines)

cut_lines : Text → Text × List Text
unfolding push end_line
cut_lines [] = ([], [])
cut_lines (c ∷ []) = if c == 0x0a || c == 0x0d then ([], [] ∷ []) else (c ∷ [], [])
cut_lines (c ∷ d ∷ rest) = elim (c == 0x0d && d == 0x0a) [
  | true ↦ end_line (cut_lines rest)
  | false ↦ elim (c == 0x0a || c == 0x0d) [
    | true ↦ end_line (cut_lines (d ∷ rest))
    | false ↦ push c (cut_lines (d ∷ rest))
  ]
]

unfoldable pub split_lines : Text → List Text
unfolding cut_lines
split_lines s = let (line, lines) = cut_lines s in line ∷ lines
