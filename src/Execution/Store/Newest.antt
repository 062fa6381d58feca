-- ===== src/Execution/Store/Newest.antt =====
-- `latest_run` of growth_os/execution_repository.py: the run with the highest attempt number.
use growth_os.Prelude.{
  ◌≤◌, ◌<◌, ◌≡◌, refl, sym, ap, ◌∙◌, ◌⊎◌, inl, inr, Option, none, some, List, [], ◌∷◌, map, arith,
  ltb, Within, Bool-cases, Option-cases, some_injective,
}
use mathlib.Core.Option.{map as map_some}
use growth_os.Execution.Store.{ExecutionRun, newer, newest}

newer-map :
    (f : ExecutionRun → ExecutionRun) (r : ExecutionRun) (m : Option ExecutionRun)
    → ((s : ExecutionRun) → (f s).attempt_number ≡ s.attempt_number)
    → newer (f r) (map_some f m) ≡ map_some f (newer r m)
unfolding newer
newer-map f r none same = refl
newer-map f r (some s) same =
    let test : ltb (f r).attempt_number (f s).attempt_number
        ≡ ltb r.attempt_number s.attempt_number =
      rw (same r, same s) in
    elim (Bool-cases (ltb r.attempt_number s.attempt_number)) [
      | inl less ↦ rw (test ∙ less, less)
      | inr more ↦ rw (test ∙ more, more)
    ]

pub newest-map :
    (f : ExecutionRun → ExecutionRun) (rs : List ExecutionRun)
    → ((s : ExecutionRun) → (f s).attempt_number ≡ s.attempt_number)
    → newest (map f rs) ≡ map_some f (newest rs)
unfolding newest
newest-map f [] same = refl
newest-map f (r ∷ rs) same = rw (newest-map f rs same, newer-map f r (newest rs) same)

newer_cases :
    (r s : ExecutionRun) (m : Option ExecutionRun) → newer r m ≡ some s → (r ≡ s) ⊎ (m ≡ some s)
unfolding newer
newer_cases r s none h = inl (some_injective h)
newer_cases r s (some t) h = elim (Bool-cases (ltb r.attempt_number t.attempt_number)) [
  | inl less ↦ inr (rw less at h)
  | inr more ↦ inl (some_injective (rw more at h))
]

pub newest-Within : (r : ExecutionRun) (rs : List ExecutionRun) → newest rs ≡ some r → Within r rs
unfolding newest
newest-Within r [] h = cc
newest-Within r (s ∷ rs) h = elim (newer_cases s r (newest rs) h) [
  | inl e ↦ inl (sym e)
  | inr rest ↦ inr (newest-Within r rs rest)
]

newer_max :
    (r s : ExecutionRun) (m : Option ExecutionRun)
    → newer r m ≡ some s
    → (r.attempt_number ≤ s.attempt_number)
      × ((t : ExecutionRun) → m ≡ some t → t.attempt_number ≤ s.attempt_number)
unfolding newer
newer_max r s none h = (rw (some_injective h) (omega arith), λ t e. cc)
newer_max r s (some u) h = elim (Bool-cases (ltb r.attempt_number u.attempt_number)) [
  | inl less ↦
      let same = ap (λ x. x.attempt_number) (some_injective (rw less at h)) in
      (ground arith, λ t e. let e' = ap (λ x. x.attempt_number) (some_injective e) in omega arith)
  | inr more ↦
      let same = ap (λ x. x.attempt_number) (some_injective (rw more at h)) in
      (omega arith, λ t e. let e' = ap (λ x. x.attempt_number) (some_injective e) in ground arith)
]

newer-none : (r : ExecutionRun) (m : Option ExecutionRun) → newer r m ≡ none → ⊥
unfolding newer
newer-none r none h = cc
newer-none r (some s) h = elim (Bool-cases (ltb r.attempt_number s.attempt_number)) [
  | inl less ↦ cc (rw less at h)
  | inr more ↦ cc (rw more at h)
]

pub newest-none : (s : ExecutionRun) (rs : List ExecutionRun) → newest rs ≡ none → Within s rs → ⊥
unfolding newest
newest-none s [] h w = w
newest-none s (t ∷ rs) h w = newer-none t (newest rs) h

-- A newer run beats the others.
pub newest_first :
    (r : ExecutionRun) (rs : List ExecutionRun)
    → ((s : ExecutionRun) → Within s rs → s.attempt_number < r.attempt_number)
    → newest (r ∷ rs) ≡ some r
unfolding newest newer
newest_first r rs top = elim (Option-cases (newest rs)) [
  | inl e ↦ rw e
  | inr (s, e) ↦
      let less = top s (newest-Within s rs e) in
      rw e (elim (Bool-cases (ltb r.attempt_number s.attempt_number)) [
        | inl lower ↦ ground arith
        | inr more ↦ rw more
      ])
]

-- A run of the list is not after the newest.
pub newest_max :
    (r s : ExecutionRun) (rs : List ExecutionRun)
    → newest rs ≡ some r
    → Within s rs
    → s.attempt_number ≤ r.attempt_number
unfolding newest
newest_max r s [] h w = absurd w
newest_max r s (t ∷ rs) h w = elim w [
  | inl e ↦ rw e ((newer_max t r (newest rs) h).0)
  | inr m ↦ elim (Option-cases (newest rs)) [
    | inl e ↦ absurd (newest-none s rs e m)
    | inr (u, e) ↦
        let low = newest_max u s rs e m in
        let high = (newer_max t r (newest rs) h).1 u e in omega arith
  ]
]
