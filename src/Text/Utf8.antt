-- ===== src/Text/Utf8.antt =====
-- Python's `str.encode("utf-8")` for one character and `bytes.decode("utf-8", errors="strict")`,
-- as growth_os/robots/policy.py calls them.
use growth_os.Prelude.{
  ℕ, zero, suc, ◌+◌, ◌-◌, ◌*◌, ◌/◌, ◌%◌, Bool, ◌&&◌, Option, none, some, [], ◌∷◌, ltb, leb,
  if◌then◌else◌, length,
}
use growth_os.Text.{Text, Bytes}

unfoldable pub is_surrogate : ℕ → Bool
is_surrogate c = leb 0xd800 c && leb c 0xdfff

-- `none` is the UnicodeEncodeError that a surrogate raises.
unfoldable pub encode_char : ℕ → Option Bytes
unfolding is_surrogate
encode_char c =
    if ltb c 0x80
    then some (c ∷ [])
    else if ltb c 0x800
    then some ((192 + c / 64) ∷ (128 + c % 64) ∷ [])
    else if is_surrogate c
    then none
    else if ltb c 0x10000
    then some ((224 + c / 4096) ∷ (128 + c / 64 % 64) ∷ (128 + c % 64) ∷ [])
    else some
        ((240 + c / 262144) ∷ (128 + c / 4096 % 64) ∷ (128 + c / 64 % 64) ∷ (128 + c % 64) ∷ [])

between : ℕ → ℕ → ℕ → Bool
between lo hi b = leb lo b && leb b hi

-- One character of a well-formed text; the bounds on the second octet exclude overlong forms,
-- surrogates and what lies above U+10FFFF.
decode_two : ℕ → Bytes → Option (ℕ × Bytes)
unfolding between
decode_two a (b ∷ rest) =
    if between 0x80 0xbf b then some ((a - 192) * 64 + (b - 128), rest) else none
decode_two a [] = none

decode_three : ℕ → Bytes → Option (ℕ × Bytes)
unfolding between
decode_three a (b ∷ c ∷ rest) =
    if between (if ltb a 0xe1 then 0xa0 else 0x80) (if between 0xed 0xed a then 0x9f else 0xbf) b
      && between 0x80 0xbf c
    then some ((a - 224) * 4096 + (b - 128) * 64 + (c - 128), rest)
    else none
decode_three a _ = none

decode_four : ℕ → Bytes → Option (ℕ × Bytes)
unfolding between
decode_four a (b ∷ c ∷ d ∷ rest) =
    if between (if ltb a 0xf1 then 0x90 else 0x80) (if ltb a 0xf4 then 0xbf else 0x8f) b
      && between 0x80 0xbf c
      && between 0x80 0xbf d
    then some ((a - 240) * 262144 + (b - 128) * 4096 + (c - 128) * 64 + (d - 128), rest)
    else none
decode_four a _ = none

decode_char : ℕ → Bytes → Option (ℕ × Bytes)
unfolding decode_two decode_three decode_four
decode_char a rest =
    if ltb a 0x80
    then some (a, rest)
    else if ltb a 0xc2
    then none
    else if ltb a 0xe0
    then decode_two a rest
    else if ltb a 0xf0
    then decode_three a rest
    else if ltb a 0xf5
    then decode_four a rest
    else none

-- Each round takes at least one octet, so as many rounds as octets suffice.
decode_rounds : ℕ → Bytes → Option Text
unfolding decode_char
decode_rounds fuel [] = some []
decode_rounds zero (a ∷ rest) = none
decode_rounds (suc fuel) (a ∷ rest) = elim (decode_char a rest) [
  | none ↦ none
  | some (c, rest') ↦ elim (decode_rounds fuel rest') [ none ↦ none | some t ↦ some (c ∷ t) ]
]

-- `none` is the UnicodeDecodeError.
unfoldable pub decode : Bytes → Option Text
unfolding decode_rounds
decode octets = decode_rounds (length octets) octets
