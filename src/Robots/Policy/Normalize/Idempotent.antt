-- ===== src/Robots/Policy/Normalize/Idempotent.antt =====
-- `_normalize` of growth_os/robots/policy.py on what it returned before.
use mathlib.Core.List.{append_assoc}
use growth_os.Prelude.{
  ℕ, ◌+◌, ◌*◌, ◌/◌, ◌%◌, ◌≤◌, ◌<◌, ◌≡◌, refl, sym, subst, ap, ◌∙◌, inl, inr, Bool, true, false,
  ◌&&◌, Bool-cases, some_injective, Option, none, some, List, [], ◌∷◌, ◌++◌, arith, ltb, ◌==◌, All,
}
use growth_os.Text.{Text, Bytes}
use growth_os.Text.Utf8.{encode_char, is_surrogate}
use growth_os.Robots.Policy.Match.{Token}
use growth_os.Robots.Policy.Normalize.{
  is_hex, hex_value, hex_digit, is_unreserved, Piece, octet_piece, escaped, escape_all, join,
  join_rest, char_piece, normalize,
}
use growth_os.Robots.Policy.Normalize.Laws.{
  normalize-char, normalize-percent, normalize-nil, Run, end, char, percent, normalize-Run,
}

-- The piece's text is normalised to the piece, whatever follows it.
abbrev IsStable : Bool → Piece → Type 0
IsStable pattern piece =
    (n : Text) → normalize pattern (piece.0 ++ n) ≡ join_rest piece (normalize pattern n)

is_hex-hex_digit : (k : ℕ) → k < 16 → is_hex (hex_digit k) ≡ true
unfolding is_hex hex_digit
is_hex-hex_digit k h = ground arith

hex_value-hex_digit : (k : ℕ) → k < 16 → hex_value (hex_digit k) ≡ k
unfolding hex_value hex_digit
hex_value-hex_digit k h = ground arith

hex_value-lt : (a : ℕ) → is_hex a ≡ true → hex_value a < 16
unfolding is_hex hex_value
hex_value-lt a h = ground arith

hex_round :
    (o : ℕ) → o < 256 → 16 * hex_value (hex_digit (o / 16)) + hex_value (hex_digit (o % 16)) ≡ o
hex_round o h =
    rw (hex_value-hex_digit (o / 16) (omega arith), hex_value-hex_digit (o % 16) (omega arith))
      (omega arith)

octet_piece-escaped : (o : ℕ) → is_unreserved o ≡ false → octet_piece o ≡ escaped o
unfolding octet_piece
octet_piece-escaped o u = rw u

escaped_text :
    (o : ℕ) (n : Text) → (escaped o).0 ++ n ≡ b'%' ∷ hex_digit (o / 16) ∷ hex_digit (o % 16) ∷ n
unfolding escaped
escaped_text o n = refl

escaped-IsStable :
    (pattern : Bool) (o : ℕ) → o < 256 → is_unreserved o ≡ false → IsStable pattern (escaped o)
escaped-IsStable pattern o h u n = rw escaped_text (
    normalize-percent pattern b'%' (hex_digit (o / 16)) (hex_digit (o % 16)) n refl
      (rw (is_hex-hex_digit (o / 16) (omega arith)) (is_hex-hex_digit (o % 16) (omega arith)))
    ∙ ap (λ (p : Piece). join_rest p (normalize pattern n))
        (ap octet_piece (hex_round o h) ∙ octet_piece-escaped o u))

unreserved_char :
    (pattern : Bool) (o : ℕ)
    → is_unreserved o ≡ true
    → ((o == b'%') ≡ false) × (char_piece pattern o ≡ some (o ∷ [], some o ∷ []))
unfolding is_unreserved char_piece
unreserved_char true o h = (ground arith, ground arith)
unreserved_char false o h = (ground arith, ground arith)

-- A character that is written as itself.
char_IsStable :
    (pattern : Bool) (c : ℕ) (token : Token)
    → (c == b'%') ≡ false
    → char_piece pattern c ≡ some (c ∷ [], token ∷ [])
    → IsStable pattern (c ∷ [], token ∷ [])
char_IsStable pattern c token p e n = rw (normalize-char pattern c n p, e)

octet_piece-IsStable : (pattern : Bool) (o : ℕ) → o < 256 → IsStable pattern (octet_piece o)
unfolding octet_piece
octet_piece-IsStable pattern o h = elim (Bool-cases (is_unreserved o)) [
  | inl u ↦ let (p, e) = unreserved_char pattern o u in rw u (char_IsStable pattern o (some o) p e)
  | inr u ↦ rw u (escaped-IsStable pattern o h u)
]

join_rest-join :
    (a b : Piece) (r : Option Piece) → join_rest (join a b) r ≡ join_rest a (join_rest b r)
join_rest-join a b none = refl
join_rest-join a b (some r) = simp append_assoc

IsStable-join :
    (pattern : Bool) (a b : Piece)
    → IsStable pattern a
    → IsStable pattern b
    → IsStable pattern (join a b)
IsStable-join pattern a b ha hb n =
    rw (append_assoc, ha (b.0 ++ n), hb n) (sym (join_rest-join a b (normalize pattern n)))

abbrev IsHigh : ℕ → Type 0
IsHigh o = (128 ≤ o) × (o < 256)

IsHigh-reserved : (o : ℕ) → IsHigh o → is_unreserved o ≡ false
unfolding is_unreserved
IsHigh-reserved o h = ground arith

join_rest-nil : (r : Option Piece) → r ≡ join_rest ([], []) r
join_rest-nil none = refl
join_rest-nil (some r) = refl

escape_all-IsStable :
    (pattern : Bool) (octets : Bytes) → All IsHigh octets → IsStable pattern (escape_all octets)
unfolding escape_all
escape_all-IsStable pattern [] h = λ n. join_rest-nil (normalize pattern n)
escape_all-IsStable pattern (o ∷ octets) h =
    IsStable-join pattern (escaped o) (escape_all octets)
      (escaped-IsStable pattern o h.0.1 (IsHigh-reserved o h.0))
      (escape_all-IsStable pattern octets h.1)

high : {octets : Bytes} (xs : Bytes) → All IsHigh xs → some xs ≡ some octets → All IsHigh octets
high xs h e = subst (All IsHigh) (some_injective e) h

encode_char-IsHigh :
    (c : ℕ) {octets : Bytes}
    → 128 ≤ c
    → c < 0x110000
    → encode_char c ≡ some octets
    → All IsHigh octets
unfolding encode_char
encode_char-IsHigh c {octets} h b e =
    let large : ltb c 0x80 ≡ false = ground arith in
    elim (Bool-cases (ltb c 0x800)) [
      | inl two ↦ high _ (ground arith) (rw (large, two) at e)
      | inr more ↦ elim (Bool-cases (is_surrogate c)) [
        | inl s ↦ absurd (no_octets (rw (large, more, s) at e))
        | inr s ↦ elim (Bool-cases (ltb c 0x10000)) [
          | inl three ↦ high _ (ground arith) (rw (large, more, s, three) at e)
          | inr four ↦ high _ (ground arith) (rw (large, more, s, four) at e)
        ]
      ]
    ]
  where
    no_octets : ¬ (◌≡◌ {A = Option Bytes} none (some octets))
    no_octets q = cc

high_piece :
    (pattern : Bool) (c : ℕ) {piece : Piece}
    → c < 0x110000
    → 128 ≤ c
    → (o : Option Bytes) → encode_char c ≡ o
    → elim o [ none ↦ none | some octets ↦ some (escape_all octets) ] ≡ some piece
    → IsStable pattern piece
high_piece pattern c b h none p e = cc
high_piece pattern c b h (some octets) p e =
    subst (IsStable pattern) (some_injective e)
      (escape_all-IsStable pattern octets (encode_char-IsHigh c h b p))

char_piece-IsStable :
    (pattern : Bool) (c : ℕ) {piece : Piece}
    → c < 0x110000
    → (c == b'%') ≡ false
    → char_piece pattern c ≡ some piece
    → IsStable pattern piece
unfolding char_piece
char_piece-IsStable pattern c {piece} b p e = elim (Bool-cases (pattern && c == b'*')) [
  | inl w ↦ itself none (rw w)
  | inr w ↦ elim (Bool-cases (ltb c 0x80)) [
    | inl small ↦ itself (some c) (rw (w, small))
    | inr large ↦ high_piece pattern c b (ground arith) (encode_char c) refl (rw (w, large) at e)
  ]
]
  where
    itself :
        (token : Token) → char_piece pattern c ≡ some (c ∷ [], token ∷ []) → IsStable pattern piece
    itself token q =
        subst (IsStable pattern) (some_injective (sym q ∙ e)) (char_IsStable pattern c token p q)

Run-normalize :
    (pattern : Bool) {t : Text} {r : Piece}
    → All (λ c. c < 0x110000) t
    → Run pattern t r
    → normalize pattern r.0 ≡ some r
Run-normalize pattern b end = normalize-nil pattern
Run-normalize pattern b (char c rest piece more h p run) =
    char_piece-IsStable pattern c b.0 h p more.0
    ∙ ap (join_rest piece) (Run-normalize pattern b.1 run)
Run-normalize pattern b (percent c a d rest more p h run) =
    octet_piece-IsStable pattern (16 * hex_value a + hex_value d) (octet-lt a d h) more.0
    ∙ ap (join_rest (octet_piece (16 * hex_value a + hex_value d)))
        (Run-normalize pattern b.1.1.1 run)
  where
    octet-lt : (a d : ℕ) → (is_hex a && is_hex d) ≡ true → 16 * hex_value a + hex_value d < 256
    octet-lt a d h = ground (arith, hex_value-lt a, hex_value-lt d)

-- The normalised text of any text of code points is its own normalised text, with the same tokens.
pub normalize-normalize :
    (pattern : Bool) (t n : Text) (tokens : List Token)
    → All (λ c. c < 0x110000) t
    → normalize pattern t ≡ some (n, tokens)
    → normalize pattern n ≡ some (n, tokens)
normalize-normalize pattern t n tokens b e = Run-normalize pattern b (normalize-Run pattern t e)
