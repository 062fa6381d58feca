-- ===== src/Robots/Policy/Normalize/Laws.antt =====
-- `_normalize` step by step, and that `_validate_target` guards it.
use mathlib.Core.Bool.{false≢true}
use growth_os.Prelude.{
  ℕ, ◌+◌, ◌*◌, ◌≡◌, refl, sym, subst, ◌∙◌, inl, inr, Bool, true, false, ◌&&◌, Bool-cases,
  Option-cases, some_injective, Option, none, some, List, [], ◌∷◌, ◌++◌, arith, ltb, ◌==◌,
  if◌then◌else◌,
}
use growth_os.Text.{Text, Bytes}
use growth_os.Text.Utf8.{encode_char, is_surrogate}
use growth_os.Robots.Policy.Match.{Token}
use growth_os.Robots.Policy.Match.Spec.{IsLiteral}
use growth_os.Robots.Policy.Normalize.{
  is_hex, hex_value, is_unreserved, Piece, octet_piece, escape_all, join, join_rest, char_piece,
  join_char, normalize, hex_pair, is_valid_chars,
}

pub normalize-char :
    (pattern : Bool) (c : ℕ) (rest : Text)
    → (c == b'%') ≡ false
    → normalize pattern (c ∷ rest) ≡ join_char (char_piece pattern c) (normalize pattern rest)
unfolding normalize
normalize-char pattern c [] h = rw h
normalize-char pattern c (a ∷ []) h = rw (normalize, h)
normalize-char pattern c (a ∷ b ∷ rest) h = rw (normalize, h)

pub normalize-percent :
    (pattern : Bool) (c a b : ℕ) (rest : Text)
    → (c == b'%') ≡ true
    → (is_hex a && is_hex b) ≡ true
    → normalize pattern (c ∷ a ∷ b ∷ rest)
      ≡ join_rest (octet_piece (16 * hex_value a + hex_value b)) (normalize pattern rest)
unfolding normalize
normalize-percent pattern c a b rest p h = rw (normalize, p, h)

-- A `%` that two hexadecimal digits do not follow is refused.
pub normalize-stray :
    (pattern : Bool) (c : ℕ) (rest : Text)
    → (c == b'%') ≡ true
    → hex_pair rest ≡ false
    → normalize pattern (c ∷ rest) ≡ none
unfolding normalize hex_pair
normalize-stray pattern c [] p h = rw p
normalize-stray pattern c (a ∷ []) p h = rw (normalize, p)
normalize-stray pattern c (a ∷ b ∷ rest) p h = rw (normalize, p, h)

-- What `_normalize` returns, case by case: a view of a run that does not raise.
pub data Run (pattern : Bool) : Text → Piece → Type 0 where
  end : Run pattern [] ([], [])
  char :
      (c : ℕ) (rest : Text) (piece more : Piece)
      → (c == b'%') ≡ false
      → char_piece pattern c ≡ some piece
      → Run pattern rest more
      → Run pattern (c ∷ rest) (join piece more)
  percent :
      (c a b : ℕ) (rest : Text) (more : Piece)
      → (c == b'%') ≡ true
      → (is_hex a && is_hex b) ≡ true
      → Run pattern rest more
      → Run pattern (c ∷ a ∷ b ∷ rest) (join (octet_piece (16 * hex_value a + hex_value b)) more)

char_step :
    (pattern : Bool) (c : ℕ) (rest : Text) {r : Piece}
    → ((r' : Piece) → normalize pattern rest ≡ some r' → Run pattern rest r')
    → (c == b'%') ≡ false
    → normalize pattern (c ∷ rest) ≡ some r
    → Run pattern (c ∷ rest) r
char_step pattern c rest {r} ih h e =
    go (char_piece pattern c) (normalize pattern rest) refl refl
      (sym (normalize-char pattern c rest h) ∙ e)
  where
    go :
        (piece more : Option Piece)
        → char_piece pattern c ≡ piece
        → normalize pattern rest ≡ more
        → join_char piece more ≡ some r
        → Run pattern (c ∷ rest) r
    go none more p q w = cc
    go (some piece) none p q w = cc
    go (some piece) (some more) p q w =
        subst (Run pattern (c ∷ rest)) (some_injective w) (char c rest piece more h p (ih more q))

percent_step :
    (pattern : Bool) (c a b : ℕ) (rest : Text) {r : Piece}
    → ((r' : Piece) → normalize pattern rest ≡ some r' → Run pattern rest r')
    → (c == b'%') ≡ true
    → (is_hex a && is_hex b) ≡ true
    → normalize pattern (c ∷ a ∷ b ∷ rest) ≡ some r
    → Run pattern (c ∷ a ∷ b ∷ rest) r
percent_step pattern c a b rest {r} ih p h e =
    go (normalize pattern rest) refl (sym (normalize-percent pattern c a b rest p h) ∙ e)
  where
    go :
        (more : Option Piece)
        → normalize pattern rest ≡ more
        → join_rest (octet_piece (16 * hex_value a + hex_value b)) more ≡ some r
        → Run pattern (c ∷ a ∷ b ∷ rest) r
    go none q w = cc
    go (some more) q w =
        subst (Run pattern (c ∷ a ∷ b ∷ rest)) (some_injective w)
          (percent c a b rest more p h (ih more q))

stray_step :
    (pattern : Bool) (c : ℕ) (rest : Text) {r : Piece}
    → (c == b'%') ≡ true
    → hex_pair rest ≡ false
    → normalize pattern (c ∷ rest) ≡ some r
    → ⊥
stray_step pattern c rest p h e = cc (normalize-stray pattern c rest p h)

pub normalize-nil : (pattern : Bool) → normalize pattern [] ≡ some ([], [])
unfolding normalize
normalize-nil pattern = refl

pub normalize-Run :
    (pattern : Bool) (t : Text) {r : Piece} → normalize pattern t ≡ some r → Run pattern t r
unfolding hex_pair
normalize-Run pattern [] e =
    subst (Run pattern []) (some_injective (sym (normalize-nil pattern) ∙ e)) end
normalize-Run pattern (c ∷ []) e = elim (Bool-cases (c == b'%')) [
  | inr h ↦ char_step pattern c [] (λ r' q. normalize-Run pattern [] q) h e
  | inl p ↦ absurd (stray_step pattern c [] p refl e)
]
normalize-Run pattern (c ∷ a ∷ []) e = elim (Bool-cases (c == b'%')) [
  | inr h ↦ char_step pattern c (a ∷ []) (λ r' q. normalize-Run pattern (a ∷ []) q) h e
  | inl p ↦ absurd (stray_step pattern c (a ∷ []) p refl e)
]
normalize-Run pattern (c ∷ a ∷ b ∷ rest) e = elim (Bool-cases (c == b'%')) [
  | inr h ↦ char_step pattern c (a ∷ b ∷ rest) (λ r' q. normalize-Run pattern (a ∷ b ∷ rest) q) h e
  | inl p ↦ elim (Bool-cases (is_hex a && is_hex b)) [
    | inl h ↦ percent_step pattern c a b rest (λ r' q. normalize-Run pattern rest q) p h e
    | inr h ↦ absurd (stray_step pattern c (a ∷ b ∷ rest) p h e)
  ]
]

encode_char_total : (c : ℕ) → is_surrogate c ≡ false → encode_char c ≡ none → ⊥
unfolding encode_char
encode_char_total c h e = ground arith

char_piece_total : (c : ℕ) → is_surrogate c ≡ false → (r : Piece) × (char_piece false c ≡ some r)
unfolding char_piece
char_piece_total c h = elim (Option-cases (encode_char c)) [
  | inl e ↦ absurd (encode_char_total c h e)
  | inr (o, e) ↦ (if ltb c 0x80 then (c ∷ [], some c ∷ []) else escape_all o, ground arith)
]

-- What `_validate_target` asks of a character and of what follows it.
valid_head :
    (c : ℕ) (rest : Text)
    → is_valid_chars (c ∷ rest) ≡ true
    → (is_surrogate c ≡ false)
      × (is_valid_chars rest ≡ true)
      × ((c == b'%') ≡ true → hex_pair rest ≡ true)
unfolding is_valid_chars
valid_head c rest h = ground arith

char_total :
    (c : ℕ) (rest : Text)
    → (c == b'%') ≡ false
    → is_surrogate c ≡ false
    → (r : Piece) × (normalize false rest ≡ some r)
    → (r : Piece) × (normalize false (c ∷ rest) ≡ some r)
char_total c rest p h (more, e) =
    let (piece, q) = char_piece_total c h in
    (join piece more, rw (normalize-char false c rest p, q, e))

percent_total :
    (c a b : ℕ) (rest : Text)
    → (c == b'%') ≡ true
    → (is_hex a && is_hex b) ≡ true
    → (r : Piece) × (normalize false rest ≡ some r)
    → (r : Piece) × (normalize false (c ∷ a ∷ b ∷ rest) ≡ some r)
percent_total c a b rest p h (more, e) = (
  join (octet_piece (16 * hex_value a + hex_value b)) more,
  rw (normalize-percent false c a b rest p h, e),
)

-- A target whose characters `_validate_target` accepts is normalised without an exception.
pub normalize_total :
    (t : Text) → is_valid_chars t ≡ true → (r : Piece) × (normalize false t ≡ some r)
unfolding hex_pair
normalize_total [] h = (([], []), normalize-nil false)
normalize_total (c ∷ []) h =
    let (s, v, p) = valid_head c [] h in
    elim (Bool-cases (c == b'%')) [
      | inl q ↦ absurd (false≢true (p q))
      | inr q ↦ char_total c [] q s (normalize_total [] v)
    ]
normalize_total (c ∷ a ∷ []) h =
    let (s, v, p) = valid_head c (a ∷ []) h in
    elim (Bool-cases (c == b'%')) [
      | inl q ↦ absurd (false≢true (p q))
      | inr q ↦ char_total c (a ∷ []) q s (normalize_total (a ∷ []) v)
    ]
normalize_total (c ∷ a ∷ b ∷ rest) h =
    let (s, v, p) = valid_head c (a ∷ b ∷ rest) h in
    elim (Bool-cases (c == b'%')) [
      | inl q ↦
          percent_total c a b rest q (p q)
            (normalize_total rest (valid_head b rest (valid_head a (b ∷ rest) v).1).1)
      | inr q ↦ char_total c (a ∷ b ∷ rest) q s (normalize_total (a ∷ b ∷ rest) v)
    ]

IsLiteral-append : (s t : List Token) → IsLiteral s → IsLiteral t → IsLiteral (s ++ t)
IsLiteral-append [] t hs ht = ht
IsLiteral-append (none ∷ s) t hs ht = absurd hs
IsLiteral-append (some c ∷ s) t hs ht = IsLiteral-append s t hs ht

escape_all-IsLiteral : (octets : Bytes) → IsLiteral (escape_all octets).1
unfolding escape_all
escape_all-IsLiteral [] = tt
escape_all-IsLiteral (o ∷ octets) = escape_all-IsLiteral octets

char_piece-IsLiteral : (c : ℕ) {piece : Piece} → char_piece false c ≡ some piece → IsLiteral piece.1
unfolding char_piece
char_piece-IsLiteral c {piece} e = go (ltb c 0x80) (encode_char c) e
  where
    go :
        (small : Bool) (octets : Option Bytes)
        → (if small
            then some (c ∷ [], some c ∷ [])
            else elim octets [ none ↦ none | some o ↦ some (escape_all o) ])
          ≡ some piece
        → IsLiteral piece.1
    go true octets q = subst (λ (x : Piece). IsLiteral x.1) (some_injective q) tt
    go false none q = cc
    go false (some o) q =
        subst (λ (x : Piece). IsLiteral x.1) (some_injective q) (escape_all-IsLiteral o)

octet_piece-IsLiteral : (octet : ℕ) → IsLiteral (octet_piece octet).1
unfolding octet_piece
octet_piece-IsLiteral octet = elim (Bool-cases (is_unreserved octet)) [
  | inl e ↦ rw e tt
  | inr e ↦ rw e tt
]

-- A target's tokens hold no wildcard: `*` in a target stands for itself.
pub Run-IsLiteral : {t : Text} {r : Piece} → Run false t r → IsLiteral r.1
Run-IsLiteral end = tt
Run-IsLiteral (char c rest piece more h p run) =
    IsLiteral-append piece.1 more.1 (char_piece-IsLiteral c p) (Run-IsLiteral run)
Run-IsLiteral (percent c a b rest more p h run) =
    IsLiteral-append (octet_piece (16 * hex_value a + hex_value b)).1 more.1
      (octet_piece-IsLiteral (16 * hex_value a + hex_value b)) (Run-IsLiteral run)
