-- ===== src/Execution/Service/Effects/Hindrances.antt =====
-- Why `reserve_retry` of growth_os/execution_service.py fails.
use growth_os.Prelude.{
  ℕ, ◌≤◌, ◌<◌, ◌≡◌, refl, ap, ◌⊎◌, inl, inr, Bool, true, false, not, ◌&&◌, ◌||◌, Option, none, ◌==◌,
  leb, Within, Bool-cases, Option-cases, err, arith, subst,
}
use growth_os.Execution.Status.{ExecutionStatus, failed, status_eq, status_eq_refl}
use growth_os.Execution.Store.{ExecutionJob, ExecutionRun, Db, keep, get_job, latest_run, is_run_of}
use growth_os.Execution.Store.Rows.{
  and_left, and_right, not-true, nat_eq_sound, find_sound, keep-Within,
}
use growth_os.Execution.Store.Newest.{newest-none}
use growth_os.Execution.Service.{
  ServiceError, not_found, invalid_state, get_job_and_run, check_retry, apply_retry, reserve_retry,
}
use growth_os.Execution.Service.Retried.{is_run_of_complete}
use growth_os.Execution.Service.Reads.{or_false}
use growth_os.Execution.Service.Effects.{IsLastRun, latest_run-IsLastRun}
use growth_os.Execution.Service.Effects.Blocked.{IsBlocked, apply_retry-none}
use growth_os.Execution.Service.Effects.Refusals.{no_job, find-none, failed as failed_with}

-- No job with the identifier was read, or one without a run.
abbrev IsMissing : Db → ℕ → ℕ → Type 0
IsMissing reads tenant job_id =
    ((j : ExecutionJob) → Within j reads.jobs → (j.id ≡ job_id) × (j.tenant_id ≡ tenant) → ⊥)
    ⊎ ((r : ExecutionRun) → Within r reads.runs → (r.tenant_id ≡ tenant) × (r.job_id ≡ job_id) → ⊥)

-- The job and the run that were read do not admit the retry.
abbrev IsUnready : ExecutionJob → ExecutionRun → ℕ → Type 0
IsUnready job run attempt =
    (job.status ≡ failed → ⊥)
    ⊎ ((run.status ≡ failed → ⊥)
        ⊎ ((run.attempt_number ≡ attempt → ⊥) ⊎ (run.max_attempts ≤ run.attempt_number)))

-- Why `reserve_retry` fails.
abbrev pub IsHindered : Db → Db → ℕ → ℕ → ℕ → ℕ → ℕ → ServiceError → Type 0
IsHindered reads now tenant job_id attempt run_id audit_id e =
    ((e ≡ not_found) × IsMissing reads tenant job_id)
    ⊎ ((e ≡ invalid_state)
        × ((job : ExecutionJob) × ((run : ExecutionRun) × ((Within job reads.jobs
                  × ((job.id ≡ job_id) × (job.tenant_id ≡ tenant)))
                × (IsLastRun reads tenant job_id run
                    × (IsUnready job run attempt
                        ⊎ IsBlocked now tenant job_id run run_id audit_id))))))

or_cases : (a b : Bool) → (a || b) ≡ true → (a ≡ true) ⊎ (b ≡ true)
or_cases true b h = inl refl
or_cases false b h = inr h

status_differs : (s t : ExecutionStatus) → not (status_eq s t) ≡ true → s ≡ t → ⊥
status_differs s t h e = cc (not-true _ h, ap (λ x. status_eq x t) e, status_eq_refl t)

number_differs : (a b : ℕ) → not (a == b) ≡ true → a ≡ b → ⊥
number_differs a b h e = ground arith

number_below : (a b : ℕ) → leb a b ≡ true → a ≤ b
number_below a b h = ground arith

not_below : (a b : ℕ) → leb a b ≡ false → b < a
not_below a b h = ground arith

-- The test of `check_retry`.
abbrev not_ready : ExecutionJob → ExecutionRun → ℕ → Bool
not_ready job run attempt =
    not (status_eq job.status failed)
    || (not (status_eq run.status failed)
        || (not (run.attempt_number == attempt) || leb run.max_attempts run.attempt_number))

ready_below :
    (job : ExecutionJob) (run : ExecutionRun) (attempt : ℕ)
    → not_ready job run attempt ≡ false
    → run.attempt_number < run.max_attempts
ready_below job run attempt h =
    let first = or_false (not (status_eq job.status failed)) _ h in
    let second = or_false (not (status_eq run.status failed)) _ first.1 in
    let third = or_false (not (run.attempt_number == attempt)) _ second.1 in
    not_below run.max_attempts run.attempt_number third.1

unready :
    (job : ExecutionJob) (run : ExecutionRun) (attempt : ℕ)
    → not_ready job run attempt ≡ true
    → IsUnready job run attempt
unready job run attempt h = elim (or_cases _ _ h) [
  | inl a ↦ inl (status_differs job.status failed a)
  | inr h₁ ↦ elim (or_cases _ _ h₁) [
    | inl b ↦ inr (inl (status_differs run.status failed b))
    | inr h₂ ↦ elim (or_cases _ _ h₂) [
      | inl c ↦ inr (inr (inl (number_differs run.attempt_number attempt c)))
      | inr d ↦ inr (inr (inr (number_below run.max_attempts run.attempt_number d)))
    ]
  ]
]

no_run :
    (reads : Db) (tenant job_id : ℕ)
    → latest_run reads tenant job_id ≡ none
    → (r : ExecutionRun) → Within r reads.runs
    → (r.tenant_id ≡ tenant) × (r.job_id ≡ job_id)
    → ⊥
unfolding latest_run
no_run reads tenant job_id h r here (own, of_job) =
    newest-none r (keep (is_run_of tenant job_id) reads.runs) h (
      keep-Within (is_run_of tenant job_id) r reads.runs here
        (is_run_of_complete tenant job_id r own of_job))

pub reserve_retry-err :
    (reads now : Db) (tenant job_id attempt : ℕ) (actor_id : Option ℕ) (run_id audit_id : ℕ)
    (e : ServiceError)
    → reserve_retry reads now tenant job_id attempt actor_id run_id audit_id ≡ (err e, now)
    → IsHindered reads now tenant job_id attempt run_id audit_id e
unfolding reserve_retry check_retry get_job_and_run get_job
reserve_retry-err reads now tenant job_id attempt actor_id run_id audit_id e h =
    elim (Option-cases (get_job reads tenant job_id)) [
      | inl absent ↦ inl (
        failed_with (rw (reserve_retry, check_retry, get_job_and_run, absent)) h,
        inl (no_job tenant job_id reads.jobs (find-none _ reads.jobs absent)),
      )
      | inr (job, found) ↦
          let test : ExecutionJob → Bool = λ j. j.id == job_id && j.tenant_id == tenant in
          let read = find_sound test job reads.jobs found in
          let same_id : job.id ≡ job_id = nat_eq_sound (and_left (job.id == job_id) _ read.1) in
          let same_tenant : job.tenant_id ≡ tenant =
            nat_eq_sound (and_right (job.id == job_id) _ read.1) in
          elim (Option-cases (latest_run reads tenant job.id)) [
            | inl absent ↦ inl (
              failed_with (rw (reserve_retry, check_retry, get_job_and_run, found, absent)) h,
              inr (
                  subst
                    (λ n.
                      (r : ExecutionRun)
                      → Within r reads.runs
                      → (r.tenant_id ≡ tenant) × (r.job_id ≡ n)
                      → ⊥)
                    same_id (no_run reads tenant job.id absent)),
            )
            | inr (run, latest) ↦
                let last =
                  subst (λ n. IsLastRun reads tenant n run) same_id
                    (latest_run-IsLastRun reads tenant job.id run latest) in
                let why : (e ≡ invalid_state)
                    × (IsUnready job run attempt
                        ⊎ IsBlocked now tenant job.id run run_id audit_id) =
                  elim (Bool-cases (not_ready job run attempt)) [
                    | inl bad ↦ (
                      failed_with
                          (rw (reserve_retry, check_retry, get_job_and_run, found, latest, bad)) h,
                      inl (unready job run attempt bad),
                    )
                    | inr good ↦
                        elim (Option-cases
                          (apply_retry tenant job run actor_id run_id audit_id now)) [
                            | inl lost ↦ (
                              failed_with
                                  (rw (
                                    reserve_retry, check_retry, get_job_and_run, found, latest,
                                    good, lost,
                                  ))
                                  h,
                              inr (
                                  apply_retry-none now tenant job run actor_id run_id audit_id
                                    (ready_below job run attempt good) lost),
                            )
                            | inr (db, committed) ↦ cc (
                                rw
                                  (
                                    reserve_retry, check_retry, get_job_and_run, found, latest,
                                    good, committed,
                                  )
                                  at h)
                          ]
                  ] in
                inr (
                  why.0,
                  (
                    job,
                    (
                      run,
                      (
                        (read.0, (same_id, same_tenant)),
                        (
                          last,
                          subst
                              (λ n.
                                IsUnready job run attempt
                                ⊎ IsBlocked now tenant n run run_id audit_id)
                              same_id why.1,
                        ),
                      ),
                    ),
                  ),
                )
          ]
    ]
