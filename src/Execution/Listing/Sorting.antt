-- ===== src/Execution/Listing/Sorting.antt =====
-- A sorting of runs by descending attempt, as the query of `list_jobs_with_latest_runs` in
-- growth_os/execution_repository.py asks for.
use growth_os.Prelude.{
  ℕ, ◌≤◌, ◌≡◌, ap, ◌⊎◌, inl, inr, some, List, [], ◌∷◌, arith, ◌==◌, ltb, if◌then◌else◌, Within,
  Bool-cases, some_injective,
}
use growth_os.Execution.Store.{ExecutionRun, find}

unfoldable pub place_run : ExecutionRun → List ExecutionRun → List ExecutionRun
place_run r [] = r ∷ []
place_run r (s ∷ ss) =
    let rest = place_run r ss in
    if ltb r.attempt_number s.attempt_number then s ∷ rest else r ∷ s ∷ ss

unfoldable pub sort_runs : List ExecutionRun → List ExecutionRun
sort_runs [] = []
sort_runs (r ∷ rs) = place_run r (sort_runs rs)

-- Later runs have no higher attempt.
abbrev Descending : List ExecutionRun → Type 0
Descending [] = Unit
Descending (r ∷ rs) =
    ((s : ExecutionRun) → Within s rs → s.attempt_number ≤ r.attempt_number) × Descending rs

place_run_keeps :
    (r s : ExecutionRun) (rs : List ExecutionRun)
    → (s ≡ r) ⊎ Within s rs
    → Within s (place_run r rs)
unfolding place_run
place_run_keeps r s [] h = elim h [ inl e ↦ inl e | inr m ↦ absurd m ]
place_run_keeps r s (t ∷ ts) h = elim (Bool-cases (ltb r.attempt_number t.attempt_number)) [
  | inr front ↦ rw front (elim h [ inl e ↦ inl e | inr m ↦ inr m ])
  | inl after ↦ rw after (elim h [
    | inl e ↦ inr (place_run_keeps r s ts (inl e))
    | inr m ↦ elim m [ inl e ↦ inl e | inr n ↦ inr (place_run_keeps r s ts (inr n)) ]
  ])
]

place_run_adds :
    (r s : ExecutionRun) (rs : List ExecutionRun)
    → Within s (place_run r rs)
    → (s ≡ r) ⊎ Within s rs
unfolding place_run
place_run_adds r s [] h = h
place_run_adds r s (t ∷ ts) h = elim (Bool-cases (ltb r.attempt_number t.attempt_number)) [
  | inr front ↦ (rw front at h)
  | inl after ↦ elim (rw after at h) [
    | inl e ↦ inr (inl e)
    | inr m ↦ elim (place_run_adds r s ts m) [ inl e ↦ inl e | inr n ↦ inr (inr n) ]
  ]
]

place_run-Descending :
    (r : ExecutionRun) (rs : List ExecutionRun) → Descending rs → Descending (place_run r rs)
unfolding place_run
place_run-Descending r [] d = (λ s w. absurd w, tt)
place_run-Descending r (t ∷ ts) d = elim (Bool-cases (ltb r.attempt_number t.attempt_number)) [
  | inr front ↦ rw front (
    λ s w. elim w [
      | inl e ↦ let same = ap (λ x. x.attempt_number) e in ground arith
      | inr m ↦ let below = d.0 s m in ground arith
    ],
    d,
  )
  | inl after ↦ rw after (
    λ s w. elim (place_run_adds r s ts w) [
      | inl e ↦ let same = ap (λ x. x.attempt_number) e in ground arith
      | inr m ↦ d.0 s m
    ],
    place_run-Descending r ts d.1,
  )
]

pub sort_runs_keeps :
    (rs : List ExecutionRun) (r : ExecutionRun) → Within r rs → Within r (sort_runs rs)
unfolding sort_runs
sort_runs_keeps [] r w = w
sort_runs_keeps (s ∷ rs) r w =
    place_run_keeps s r (sort_runs rs)
      (elim w [ inl e ↦ inl e | inr m ↦ inr (sort_runs_keeps rs r m) ])

pub sort_runs_adds :
    (rs : List ExecutionRun) (r : ExecutionRun) → Within r (sort_runs rs) → Within r rs
unfolding sort_runs
sort_runs_adds [] r w = w
sort_runs_adds (s ∷ rs) r w = elim (place_run_adds s r (sort_runs rs) w) [
  | inl e ↦ inl e
  | inr m ↦ inr (sort_runs_adds rs r m)
]

sort_runs-Descending : (rs : List ExecutionRun) → Descending (sort_runs rs)
unfolding sort_runs
sort_runs-Descending [] = tt
sort_runs-Descending (r ∷ rs) = place_run-Descending r (sort_runs rs) (sort_runs-Descending rs)

find-Descending :
    (rs : List ExecutionRun) (job_id : ℕ) (r s : ExecutionRun)
    → Descending rs
    → find (λ t. t.job_id == job_id) rs ≡ some r
    → Within s rs
    → s.job_id ≡ job_id
    → s.attempt_number ≤ r.attempt_number
unfolding find
find-Descending [] job_id r s d h w own = absurd w
find-Descending (t ∷ ts) job_id r s d h w own = elim (Bool-cases (t.job_id == job_id)) [
  | inl hit ↦
      let same = ap (λ x. x.attempt_number) (some_injective (rw hit at h)) in
      elim w [
        | inl e ↦ let here = ap (λ x. x.attempt_number) e in omega arith
        | inr m ↦ let below = d.0 s m in omega arith
      ]
  | inr miss ↦ elim w [
    | inl e ↦ let here = ap (λ x. x.job_id) e in ground arith
    | inr m ↦ find-Descending ts job_id r s d.1 (rw miss at h) m own
  ]
]

-- The first run of a job in the sorted list is one of its highest attempt.
pub sort_runs_newest :
    (rs : List ExecutionRun) (job_id : ℕ) (r : ExecutionRun)
    → find (λ s. s.job_id == job_id) (sort_runs rs) ≡ some r
    → (s : ExecutionRun) → Within s rs
    → s.job_id ≡ job_id
    → s.attempt_number ≤ r.attempt_number
sort_runs_newest rs job_id r h s w own =
    find-Descending (sort_runs rs) job_id r s (sort_runs-Descending rs) h (sort_runs_keeps rs s w)
      own
