-- ===== src/Acquisition/Robots/Bodies.antt =====
-- `_read_body` and `_content_type` of growth_os/acquisition/robots.py.
use growth_os.Prelude.{
  ℕ, ◌+◌, ◌≤◌, ◌≡◌, sym, inl, inr, Option, none, some, List, [], ◌∷◌, ◌++◌, length, length-append,
  leb, arith, Bool-cases, Option-cases, ok, subst, ok_injective,
}
use growth_os.Text.{Text, Bytes, codes}
use growth_os.Acquisition.Fetched.{RobotsFetchErrorCode}
use growth_os.Acquisition.Transport.{Failure}
use growth_os.Acquisition.Robots.{read_body, content_type}

-- The length of the body, if there is one.
abbrev pub body_length : Option Bytes → ℕ
body_length none = 0
body_length (some body) = length body

pub read_body-length :
    (chunks : List Bytes) (ending : Option Failure) (body result : Bytes)
    → length body ≤ 512000
    → read_body chunks ending body ≡ ok result
    → length result ≤ 512000
unfolding read_body
read_body-length [] none body result low h = subst (λ b. length b ≤ 512000) (ok_injective h) low
read_body-length [] (some failure) body result low h = cc
read_body-length (chunk ∷ chunks) ending body result low h =
    elim (Bool-cases (leb (length body + length chunk) 512000)) [
      | inr over ↦ cc (rw (read_body, over) at h)
      | inl fits ↦
          read_body-length chunks ending (body ++ chunk) result
            (subst (λ n. n ≤ 512000) (sym (length-append body chunk)) (ground arith))
            (rw (read_body, fits) at h)
    ]

pub content_type_plain :
    (declared_error : Text → Option RobotsFetchErrorCode) (values : List Text) (kind : Text)
    → content_type declared_error values ≡ ok kind
    → kind ≡ codes "text/plain"
unfolding content_type
content_type_plain declared_error [] kind h = cc
content_type_plain declared_error (v ∷ []) kind h = elim (Option-cases (declared_error v)) [
  | inl fine ↦ sym (ok_injective (rw (content_type, fine) at h))
  | inr (code, bad) ↦ cc (rw (content_type, bad) at h)
]
content_type_plain declared_error (v ∷ w ∷ values) kind h = cc
