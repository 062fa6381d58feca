-- ===== src/Robots/Policy/Evaluate/Outcomes.antt =====
-- What `evaluate_robots` returns or raises, end to end.
use growth_os.Prelude.{
  ◌≡◌, ◌≢◌, inl, inr, true, false, Bool-cases, some, [], arith, ltb, length, ok, err,
}
use growth_os.Text.{Text, Bytes}
use growth_os.Text.Utf8.{decode}
use growth_os.Robots.Policy.Normalize.{Piece, normalize, is_valid_target, is_valid_chars}
use growth_os.Robots.Policy.Normalize.Laws.{normalize_total}
use growth_os.Robots.Policy.Evaluate.{
  Raised, policy_error, value_error, invalid_input, max_robots_bytes, decide, evaluate_robots,
}

is_valid_target-chars : (t : Text) → is_valid_target t ≡ true → is_valid_chars t ≡ true
unfolding is_valid_target
is_valid_target-chars t h = ground arith

-- The conditions under which `evaluate_robots` decides.
pub record IsAcceptable (robots_txt : Bytes) (robots_text : Text) (target_path : Text)
    : Type 0 where
  pub fits : ltb max_robots_bytes (length robots_txt) ≡ false
  pub decodes : decode robots_txt ≡ some robots_text
  pub valid : is_valid_target target_path ≡ true

-- An input that is accepted gets a decision, and it is the one on the decoded text and the
-- normalised target.
pub evaluate_robots-decide :
    (robots_txt : Bytes) (robots_text target_path : Text)
    → IsAcceptable robots_txt robots_text target_path
    → (target : Piece) × (normalize false target_path ≡ some target)
      × (evaluate_robots robots_txt target_path ≡ ok (decide robots_text target))
unfolding evaluate_robots
evaluate_robots-decide robots_txt robots_text target_path h =
    let (target, e) = normalize_total target_path (is_valid_target-chars target_path h.valid) in
    (target, e, rw (h.fits, h.decodes, h.valid, e))

-- The plain `ValueError` of `_normalize` never leaves `evaluate_robots`.
pub evaluate_robots-ne-value_error :
    (robots_txt : Bytes) (target_path : Text)
    → evaluate_robots robots_txt target_path ≢ err value_error
unfolding evaluate_robots
evaluate_robots-ne-value_error robots_txt target_path e =
    elim (Bool-cases (is_valid_target target_path)) [
      | inr bad ↦ ground arith
      | inl good ↦
          let (target, q) = normalize_total target_path (is_valid_target-chars target_path good) in
          ground (arith, q)
    ]

-- On an empty file only a bad target is an error.
pub evaluate_robots_empty :
    (target_path : Text) (e : Raised)
    → evaluate_robots [] target_path ≡ err e
    → e ≡ policy_error invalid_input
unfolding evaluate_robots decode
evaluate_robots_empty target_path e h = elim (Bool-cases (is_valid_target target_path)) [
  | inr bad ↦ ground arith
  | inl good ↦
      let (target, q) = normalize_total target_path (is_valid_target-chars target_path good) in
      ground (arith, q)
]
