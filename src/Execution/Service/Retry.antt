-- ===== src/Execution/Service/Retry.antt =====
-- `reserve_retry` of growth_os/execution_service.py.
use growth_os.Prelude.{
  ℕ, ◌+◌, ◌<◌, ◌≡◌, refl, sym, ap, ◌∙◌, ◌⊎◌, inl, inr, true, false, not, ◌||◌, ◌&&◌, Option, some,
  ◌∷◌, map, arith, ◌==◌, leb, Option-cases, ok, err, Result-cases, bind_ok, raise_if_ok,
  ok_injective, subst,
}
use growth_os.Execution.Status.{failed, queued, status_eq, status_eq_sound}
use growth_os.Execution.Store.{
  ExecutionJob, ExecutionRun, Db, AuditEvent, retry_details, any, hits_job, set_job, is_run_of,
  compare_and_set_job_status, insert_run, admits_run,
}
use growth_os.Execution.Store.Rows.{and_left, and_right, not-true, nat_eq_sound, any_sound}
use growth_os.Execution.Store.Statements.{
  compare_and_set_job_status-some, insert_run-some, insert_audit-some,
}
use growth_os.Execution.Service.{
  ServiceError, invalid_state, JobResult, get_job_and_run, check_retry, apply_retry, next_run,
  reserve_retry, audit_event,
}
use growth_os.Execution.Service.Consistent.{IsConsistent, Persists}
use growth_os.Execution.Service.Reads.{
  and_then-some, or_false, not-false, Found, get_job_and_run_sound,
}
use growth_os.Execution.Service.Retried.{retried-Consistent}

pub check_retry_sound :
    (reads : Db) (tenant job_id attempt : ℕ) (job : ExecutionJob) (run : ExecutionRun)
    → check_retry reads tenant job_id attempt ≡ ok (job, run)
    → Found reads tenant job_id job run
      × ((job.status ≡ failed)
          × ((run.status ≡ failed)
              × ((run.attempt_number ≡ attempt) × (run.attempt_number < run.max_attempts))))
unfolding check_retry
check_retry_sound reads tenant job_id attempt job run h =
    let found = bind_ok (get_job_and_run reads tenant job_id) _ (job, run) h in
    let agree =
      raise_if_ok
        (not (status_eq found.0.0.status failed)
          || (not (status_eq found.0.1.status failed)
              || (not (found.0.1.attempt_number == attempt)
                  || leb found.0.1.max_attempts found.0.1.attempt_number)))
        invalid_state _ (job, run) found.1.1 in
    let same : found.0 ≡ (job, run) = ok_injective agree.1 in
    let first = or_false _ _ agree.0 in
    let second = or_false _ _ first.1 in
    let third = or_false _ _ second.1 in
    let below = third.1 in
    subst
      (λ p.
        Found reads tenant job_id p.0 p.1
        × ((p.0.status ≡ failed)
            × ((p.1.status ≡ failed)
                × ((p.1.attempt_number ≡ attempt) × (p.1.attempt_number < p.1.max_attempts)))))
      same
      (
        get_job_and_run_sound reads tenant job_id found.0.0 found.0.1 found.1.0,
        (
          status_eq_sound found.0.0.status failed (not-false _ first.0),
          (
            status_eq_sound found.0.1.status failed (not-false _ second.0),
            (nat_eq_sound (not-false _ third.0), ground arith),
          ),
        ),
      )

-- The event that `reserve_retry` records.
abbrev pub retry_event : ℕ → ExecutionJob → ExecutionRun → ℕ → Option ℕ → ℕ → AuditEvent
retry_event tenant job prior run_id actor_id audit_id =
    audit_event audit_id tenant "execution_job.retry_reserved" "execution_job" job.id actor_id
      (retry_details prior.id run_id prior.attempt_number (prior.attempt_number + 1))

-- The state that `reserve_retry` commits.
abbrev pub retried_db : Db → ℕ → ExecutionJob → ExecutionRun → ℕ → Option ℕ → ℕ → Db
retried_db now tenant job prior run_id actor_id audit_id = record now {
  jobs = map (set_job tenant job.id failed queued) now.jobs;
  runs = next_run tenant job prior run_id ∷ now.runs;
  audits = retry_event tenant job prior run_id actor_id audit_id ∷ now.audits;
}

-- What `reserve_retry` reports.
abbrev pub retried_result : ℕ → ExecutionJob → ExecutionRun → ℕ → JobResult
retried_result tenant job prior run_id = record {
  job = record job { status = queued };
  latest_run = next_run tenant job prior run_id;
  created = false;
}

abbrev add_event : AuditEvent → Db → Db
add_event event db = record db { audits = event ∷ db.audits }

abbrev add_run : ExecutionRun → Db → Db
add_run run db = record db { runs = run ∷ db.runs }

pub apply_retry_sound :
    (tenant : ℕ) (job : ExecutionJob) (prior : ExecutionRun) (actor_id : Option ℕ)
    (run_id audit_id : ℕ) (now db : Db)
    → apply_retry tenant job prior actor_id run_id audit_id now ≡ some db
    → (any (hits_job tenant job.id failed) now.jobs ≡ true)
      × ((admits_run
              (record now { jobs = map (set_job tenant job.id failed queued) now.jobs })
              (next_run tenant job prior run_id)
            ≡ true)
          × (retried_db now tenant job prior run_id actor_id audit_id ≡ db))
unfolding apply_retry
apply_retry_sound tenant job prior actor_id run_id audit_id now db h =
    let event = retry_event tenant job prior run_id actor_id audit_id in
    let run = next_run tenant job prior run_id in
    let first = and_then-some (compare_and_set_job_status tenant job.id failed queued now) _ db h in
    let job_hit =
      compare_and_set_job_status-some tenant job.id failed queued now first.0 first.1.0 in
    let second = and_then-some (insert_run run first.0) _ db first.1.1 in
    let added = insert_run-some first.0 second.0 run second.1.0 in
    let last = (insert_audit-some second.0 db event second.1.1).1 in
    (
      job_hit.0,
      (
        ap (λ d. admits_run d run) job_hit.1 ∙ added.0,
        ap (λ d. add_event event (add_run run d)) job_hit.1 ∙ ap (add_event event) added.1 ∙ last,
      ),
    )

-- A call fails and leaves the database, or it reports and commits one retry.
pub reserve_retry_cases :
    (reads now : Db) (tenant job_id attempt : ℕ) (actor_id : Option ℕ) (run_id audit_id : ℕ)
    → ((e : ServiceError) × (reserve_retry reads now tenant job_id attempt actor_id run_id audit_id
          ≡ (err e, now)))
      ⊎ ((job : ExecutionJob) × ((prior : ExecutionRun) × ((db : Db) × ((check_retry reads tenant
                    job_id attempt
                  ≡ ok (job, prior))
                × ((apply_retry tenant job prior actor_id run_id audit_id now ≡ some db)
                    × (reserve_retry reads now tenant job_id attempt actor_id run_id audit_id
                        ≡ (ok (retried_result tenant job prior run_id), db)))))))
unfolding reserve_retry
reserve_retry_cases reads now tenant job_id attempt actor_id run_id audit_id =
    elim (Result-cases (check_retry reads tenant job_id attempt)) [
      | inr (e, failing) ↦ inl (e, rw (reserve_retry, failing))
      | inl ((job, prior), checked) ↦
          elim (Option-cases (apply_retry tenant job prior actor_id run_id audit_id now)) [
            | inl lost ↦ inl (invalid_state, rw (reserve_retry, checked, lost))
            | inr (db, committed) ↦
                inr (
                  job,
                  (prior, (db, (checked, (committed, rw (reserve_retry, checked, committed))))),
                )
          ]
    ]

-- An error and the same state, or one retry below the bound.
abbrev FailsOrRetries : Db → Db → ℕ → ℕ → ℕ → Option ℕ → ℕ → ℕ → Type 0
FailsOrRetries reads now tenant job_id attempt actor_id run_id audit_id =
    ((e : ServiceError) × (reserve_retry reads now tenant job_id attempt actor_id run_id audit_id
        ≡ (err e, now)))
    ⊎ ((job : ExecutionJob) × ((prior : ExecutionRun) × ((reserve_retry reads now tenant job_id
                attempt actor_id run_id audit_id
              ≡ (
                ok (retried_result tenant job prior run_id),
                retried_db now tenant job prior run_id actor_id audit_id,
              ))
            × ((any (hits_job tenant job.id failed) now.jobs ≡ true)
                × ((job.id ≡ job_id)
                    × ((prior.attempt_number ≡ attempt) × (attempt < prior.max_attempts)))))))

-- The state after a call is the old one or one with the three statements applied.
pub reserve_retry-retried_db :
    (reads now : Db) (tenant job_id attempt : ℕ) (actor_id : Option ℕ) (run_id audit_id : ℕ)
    → FailsOrRetries reads now tenant job_id attempt actor_id run_id audit_id
reserve_retry-retried_db reads now tenant job_id attempt actor_id run_id audit_id =
    elim (reserve_retry_cases reads now tenant job_id attempt actor_id run_id audit_id) [
      | inl failing ↦ inl failing
      | inr (job, (prior, (db, (checked, (committed, result))))) ↦
          let sound = check_retry_sound reads tenant job_id attempt job prior checked in
          let effect =
            apply_retry_sound tenant job prior actor_id run_id audit_id now db committed in
          let bound = sound.1.1.1.1 in
          let is_attempt = sound.1.1.1.0 in
          inr (
            job,
            (
              prior,
              (
                result
                    ∙ ap (λ d. (ok (retried_result tenant job prior run_id), d)) (sym effect.1.1),
                (effect.0, (sound.0.job_id_is, (is_attempt, omega arith))),
              ),
            ),
          )
    ]

-- The keys of `execution_runs` hold of an admitted run.
pub admits_run_sound :
    (db : Db) (r : ExecutionRun)
    → admits_run db r ≡ true
    → (any (λ s. s.id == r.id) db.runs ≡ false)
      × (any (λ s. is_run_of r.tenant_id r.job_id s && s.attempt_number == r.attempt_number) db.runs
          ≡ false)
unfolding admits_run
admits_run_sound db r h =
    let rest = and_right (not (any (λ s. s.id == r.id) db.runs)) _ h in
    (not-true _ (and_left _ _ h), not-true _ (and_left _ _ rest))

-- Whatever other transactions committed between its reads and its statements, as long as no run
-- was lost, `reserve_retry` keeps the rows in agreement.
pub reserve_retry-IsConsistent :
    (reads now : Db) (tenant job_id attempt : ℕ) (actor_id : Option ℕ) (run_id audit_id : ℕ)
    → Persists reads now
    → IsConsistent now
    → IsConsistent (reserve_retry reads now tenant job_id attempt actor_id run_id audit_id).1
unfolding Persists
reserve_retry-IsConsistent reads now tenant job_id attempt actor_id run_id audit_id kept c =
    elim (reserve_retry_cases reads now tenant job_id attempt actor_id run_id audit_id) [
      | inl (e, same) ↦ subst (λ o. IsConsistent o.1) (sym same) c
      | inr (job, (prior, (db, (checked, (committed, result))))) ↦
          let sound = check_retry_sound reads tenant job_id attempt job prior checked in
          let effect =
            apply_retry_sound tenant job prior actor_id run_id audit_id now db committed in
          let row = any_sound (hits_job tenant job.id failed) now.jobs effect.0 in
          let old = kept prior sound.0.run_read in
          let keys = admits_run_sound _ (next_run tenant job prior run_id) effect.1.0 in
          subst (λ o. IsConsistent o.1) (sym result)
            (subst IsConsistent effect.1.1 (
              retried-Consistent now.jobs now.runs c (next_run tenant job prior run_id) old.0 refl
                old.1.0 (old.1.1.1.0 ∙ sound.0.run_tenant_is) (old.1.1.1.1.0 ∙ sound.0.run_job_is)
                (ap (λ n. n + 1) (sym old.1.1.1.1.1)) keys.0 keys.1 row.0 row.1.0 row.1.1))
    ]
