-- ===== src/Robots/Policy/Normalize.antt =====
-- Percent-encoding in growth_os/robots/policy.py: `_validate_target` and `_normalize`.
-- `none` is the `ValueError` that `_normalize` raises.
pub mod Laws
pub mod Idempotent
use growth_os.Prelude.{
  ℕ, zero, suc, ◌+◌, ◌-◌, ◌*◌, ◌/◌, ◌%◌, Bool, true, false, not, ◌&&◌, ◌||◌, Option, none, some,
  List, [], ◌∷◌, ◌++◌, ltb, leb, ◌==◌, if◌then◌else◌,
}
use growth_os.Text.{Text, Bytes}
use growth_os.Text.Utf8.{encode_char, is_surrogate}
use growth_os.Robots.Policy.Match.{Token}

-- `_HEX_DIGITS`
unfoldable pub is_hex : ℕ → Bool
is_hex c = leb b'0' c && leb c b'9' || (leb b'A' c && leb c b'F' || leb b'a' c && leb c b'f')

-- `int(c, 16)` for one digit
unfoldable pub hex_value : ℕ → ℕ
hex_value c = if ltb c b'A' then c - 48 else if ltb c b'a' then c - 55 else c - 87

-- a digit of `f"{octet:02X}"`
unfoldable pub hex_digit : ℕ → ℕ
hex_digit n = if ltb n 10 then 48 + n else 55 + n

-- `_UNRESERVED`
unfoldable pub is_unreserved : ℕ → Bool
is_unreserved c =
    leb b'A' c && leb c b'Z'
    || (leb b'a' c && leb c b'z'
        || (leb b'0' c && leb c b'9' || (c == b'-' || (c == b'.' || (c == b'_' || c == b'~')))))

-- What one step appends to `normalized` and to `tokens`.
abbrev pub Piece : Type 0
Piece = Text × List Token

-- `%XX` for an octet
unfoldable pub escaped : ℕ → Piece
unfolding hex_digit
escaped octet =
    (b'%' ∷ hex_digit (octet / 16) ∷ hex_digit (octet % 16) ∷ [], some (256 + octet) ∷ [])

unfoldable pub octet_piece : ℕ → Piece
unfolding is_unreserved escaped
octet_piece octet = if is_unreserved octet then (octet ∷ [], some octet ∷ []) else escaped octet

abbrev pub join : Piece → Piece → Piece
join (n, t) (n', t') = (n ++ n', t ++ t')

abbrev pub join_rest : Piece → Option Piece → Option Piece
join_rest piece none = none
join_rest piece (some rest) = some (join piece rest)

unfoldable pub escape_all : Bytes → Piece
unfolding escaped
escape_all [] = ([], [])
escape_all (octet ∷ octets) = join (escaped octet) (escape_all octets)

-- A character that is no `%`.
unfoldable pub char_piece : Bool → ℕ → Option Piece
char_piece pattern c =
    if pattern && c == b'*'
    then some (c ∷ [], none ∷ [])
    else if ltb c 0x80
    then some (c ∷ [], some c ∷ [])
    else elim (encode_char c) [ none ↦ none | some octets ↦ some (escape_all octets) ]

abbrev pub join_char : Option Piece → Option Piece → Option Piece
join_char none rest = none
join_char (some piece) rest = join_rest piece rest

unfoldable pub normalize : Bool → Text → Option Piece
normalize pattern [] = some ([], [])
normalize pattern (c ∷ []) =
    if c == b'%' then none else join_char (char_piece pattern c) (some ([], []))
normalize pattern (c ∷ a ∷ []) = elim (c == b'%') [
  | true ↦ none
  | false ↦ join_char (char_piece pattern c) (normalize pattern (a ∷ []))
]
normalize pattern (c ∷ a ∷ b ∷ rest) = elim (c == b'%') [
  | true ↦ elim (is_hex a && is_hex b) [
    | true ↦ join_rest (octet_piece (16 * hex_value a + hex_value b)) (normalize pattern rest)
    | false ↦ none
  ]
  | false ↦ join_char (char_piece pattern c) (normalize pattern (a ∷ b ∷ rest))
]

-- Two hexadecimal digits follow.
unfoldable pub hex_pair : Text → Bool
unfolding is_hex
hex_pair (a ∷ b ∷ rest) = is_hex a && is_hex b
hex_pair _ = false

-- The loop of `_validate_target`: no control character or surrogate, and no stray `%`.
unfoldable pub is_valid_chars : Text → Bool
is_valid_chars [] = true
is_valid_chars (c ∷ rest) =
    not (ltb c 0x20 || (c == 0x7f || is_surrogate c))
    && ((if c == b'%' then hex_pair rest else true) && is_valid_chars rest)

unfoldable pub has_hash : Text → Bool
has_hash [] = false
has_hash (c ∷ rest) = c == b'#' || has_hash rest

-- `target_path.startswith("/")` and not `startswith("//")`
unfoldable pub is_rooted : Text → Bool
is_rooted [] = false
is_rooted (c ∷ []) = c == b'/'
is_rooted (c ∷ d ∷ rest) = c == b'/' && not (d == b'/')

-- `_validate_target` returns, rather than raises.
unfoldable pub is_valid_target : Text → Bool
unfolding is_rooted has_hash is_valid_chars hex_pair is_surrogate
is_valid_target target = is_rooted target && (not (has_hash target) && is_valid_chars target)
