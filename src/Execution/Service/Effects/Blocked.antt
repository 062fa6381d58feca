-- ===== src/Execution/Service/Effects/Blocked.antt =====
-- Why the statements of `reserve_retry` of growth_os/execution_service.py fail.
use growth_os.Prelude.{
  ℕ, ◌+◌, ◌<◌, ◌≡◌, ap, ◌∙◌, ◌⊎◌, inl, inr, true, false, ◌&&◌, Option, none, ◌∷◌, map, ◌==◌, leb,
  Within, Bool-cases, arith,
}
use growth_os.Execution.Status.{failed, queued}
use growth_os.Execution.Store.{
  ExecutionJob, ExecutionRun, AuditEvent, Db, any, is_run_of, hits_job, set_job,
  compare_and_set_job_status, insert_run, admits_run, insert_audit, admits_audit,
}
use growth_os.Execution.Store.Rows.{
  and_left, and_right, nat_eq_sound, any_sound, any_refuse, map-Within,
}
use growth_os.Execution.Store.Updates.{hits_job_sound, set_job_keys}
use growth_os.Execution.Store.Statements.{compare_and_set_job_status-some, insert_run-some}
use growth_os.Execution.Service.{next_run, apply_retry}
use growth_os.Execution.Service.Moved.{hits_job_complete}
use growth_os.Execution.Service.Reads.{not-false}
use growth_os.Execution.Service.Retry.{retry_event}
use growth_os.Execution.Service.Effects.{IsJob}
use growth_os.Execution.Service.Effects.Refusals.{no_job, and_then-none, and_false, audit_refused}

-- The statements do not meet the job's failed row, or a row of theirs meets a constraint: the run's
-- identifier or attempt is taken, its bound or its delay is out of range, the event's identifier is
-- taken, or the tenant does not exist.
abbrev pub IsBlocked : Db → ℕ → ℕ → ExecutionRun → ℕ → ℕ → Type 0
IsBlocked now tenant job_id run run_id audit_id =
    ((j : ExecutionJob) → Within j now.jobs → IsJob tenant job_id failed j → ⊥)
    ⊎ (((s : ExecutionRun) × (Within s now.runs × (s.id ≡ run_id)))
        ⊎ (((s : ExecutionRun) × (Within s now.runs
                × (((s.tenant_id ≡ tenant) × (s.job_id ≡ job_id))
                    × (s.attempt_number ≡ run.attempt_number + 1))))
            ⊎ (((10 < run.max_attempts) ⊎ (86400 < run.retry_delay_seconds))
                ⊎ (((a : AuditEvent) × (Within a now.audits × (a.id ≡ audit_id)))
                    ⊎ (Within tenant now.tenants → ⊥)))))

out_of_range :
    (attempt bound delay : ℕ)
    → attempt < bound
    → (leb 1 (attempt + 1)
        && (leb 1 bound && (leb bound 10 && (leb (attempt + 1) bound && leb delay 86400))))
      ≡ false
    → (10 < bound) ⊎ (86400 < delay)
out_of_range attempt bound delay below h = elim (Bool-cases (leb bound 10)) [
  | inr high ↦ inl (ground arith)
  | inl low ↦ elim (Bool-cases (leb delay 86400)) [
    | inr late ↦ inr (ground arith)
    | inl soon ↦ ground arith
  ]
]

abbrev add_run : ExecutionRun → Db → Db
add_run run db = record db { runs = run ∷ db.runs }

-- The row of the next run is refused, though its job is there.
run_refused :
    (now : Db) (tenant : ℕ) (job : ExecutionJob) (run : ExecutionRun) (run_id audit_id : ℕ)
    → run.attempt_number < run.max_attempts
    → any (hits_job tenant job.id failed) now.jobs ≡ true
    → admits_run
        (record now { jobs = map (set_job tenant job.id failed queued) now.jobs })
        (next_run tenant job run run_id)
      ≡ false
    → IsBlocked now tenant job.id run run_id audit_id
unfolding admits_run is_run_of
run_refused now tenant job run run_id audit_id below hit h = elim (and_false _ _ h) [
  | inl taken ↦
      let row = any_sound (λ s. s.id == run_id) now.runs (not-false _ taken) in
      inr (inl (row.0, (row.1.0, nat_eq_sound row.1.1)))
  | inr h₁ ↦ elim (and_false _ _ h₁) [
    | inl taken ↦
        let row =
          any_sound (λ s. is_run_of tenant job.id s && s.attempt_number == run.attempt_number + 1)
            now.runs (not-false _ taken) in
        let keys = and_left (is_run_of tenant job.id row.0) _ row.1.1 in
        inr (
          inr (
            inl (
              row.0,
              (
                row.1.0,
                (
                  (
                    nat_eq_sound (and_left (row.0.tenant_id == tenant) _ keys),
                    nat_eq_sound (and_right (row.0.tenant_id == tenant) _ keys),
                  ),
                  nat_eq_sound (and_right (is_run_of tenant job.id row.0) _ row.1.1),
                ),
              ),
            )))
    | inr h₂ ↦ elim (and_false _ _ h₂) [
      | inl lost ↦
          let row = any_sound (hits_job tenant job.id failed) now.jobs hit in
          let keys = hits_job_sound tenant job.id failed row.0 row.1.1 in
          let set = set_job tenant job.id failed queued in
          let kept = set_job_keys tenant job.id failed queued row.0 in
          absurd (
            no_job tenant job.id (map set now.jobs) lost (set row.0)
              (map-Within set row.0 now.jobs row.1.0) (kept.0 ∙ keys.0, kept.1 ∙ keys.1.0))
      | inr h₃ ↦ inr (
          inr (
            inr (
              inl (
                out_of_range run.attempt_number run.max_attempts run.retry_delay_seconds below
                  h₃))))
    ]
  ]
]

pub apply_retry-none :
    (now : Db) (tenant : ℕ) (job : ExecutionJob) (run : ExecutionRun) (actor_id : Option ℕ)
    (run_id audit_id : ℕ)
    → run.attempt_number < run.max_attempts
    → apply_retry tenant job run actor_id run_id audit_id now ≡ none
    → IsBlocked now tenant job.id run run_id audit_id
unfolding apply_retry compare_and_set_job_status insert_run insert_audit admits_audit
apply_retry-none now tenant job run actor_id run_id audit_id below h =
    let next = next_run tenant job run run_id in
    elim (and_then-none (compare_and_set_job_status tenant job.id failed queued now) _ h) [
      | inl lost ↦ elim (Bool-cases (any (hits_job tenant job.id failed) now.jobs)) [
        | inl hit ↦ cc (rw hit at lost)
        | inr miss ↦ inl λ j here is. cc (
          any_refuse (hits_job tenant job.id failed) j now.jobs miss here,
          hits_job_complete tenant job.id failed j is.0 is.1.0 is.1.1,
        )
      ]
      | inr (db₁, (set, h₁)) ↦
          let hit = compare_and_set_job_status-some tenant job.id failed queued now db₁ set in
          elim (and_then-none (insert_run next db₁) _ h₁) [
            | inl refused ↦ elim (Bool-cases (admits_run db₁ next)) [
              | inl fits ↦ cc (rw fits at refused)
              | inr bad ↦
                  run_refused now tenant job run run_id audit_id below hit.0
                    (ap (λ d. admits_run d next) hit.1 ∙ bad)
            ]
            | inr (db₂, (added, h₂)) ↦
                let event = retry_event tenant job run run_id actor_id audit_id in
                let same = (insert_run-some db₁ db₂ next added).1 in
                elim (Bool-cases (admits_audit db₂ event)) [
                  | inl fits ↦ cc (rw fits at h₂)
                  | inr bad ↦ inr (
                      inr (
                        inr (
                          inr (
                            audit_refused now event (
                              ap (λ d. admits_audit (add_run next d) event) hit.1
                              ∙ ap (λ d. admits_audit d event) same
                              ∙ bad)))))
                ]
          ]
    ]
