-- ===== src/Execution/Service/Effects/Retries.antt =====
-- What `reserve_retry` of growth_os/execution_service.py commits, row by row.
use growth_os.Prelude.{
  ℕ, ◌+◌, ◌<◌, ◌≡◌, refl, sym, ap, ◌∙◌, ◌⊎◌, inl, inr, false, Option, none, List, ◌∷◌, map, Within,
  Result, ok, err, arith,
}
use growth_os.Execution.Status.{failed, queued}
use growth_os.Execution.Store.{ExecutionJob, ExecutionRun, Db, retry_details, hits_job, set_job}
use growth_os.Execution.Store.Rows.{any_sound}
use growth_os.Execution.Store.Updates.{hits_job_sound}
use growth_os.Execution.Service.{ServiceError, JobResult, reserve_retry}
use growth_os.Execution.Service.Retry.{
  reserve_retry_cases, check_retry_sound, apply_retry_sound, retried_result,
}
use growth_os.Execution.Service.Effects.Hindrances.{IsHindered, reserve_retry-err}
use growth_os.Execution.Service.Effects.{
  IsJob, IsLastRun, IsUpdate, Found-IsLastRun, set_job-IsUpdate,
}

-- The run that a retry adds, and the outcome, for a job's identifier and an attempt number.
abbrev retried_run : ℕ → ℕ → ℕ → ExecutionRun → ℕ → ExecutionRun
retried_run tenant job_id attempt prior run_id = record {
  id = run_id;
  tenant_id = tenant;
  job_id = job_id;
  status = queued;
  attempt_number = attempt + 1;
  max_attempts = prior.max_attempts;
  retry_delay_seconds = prior.retry_delay_seconds;
  last_error_code = none;
}

abbrev retried :
    Db
    → ℕ
    → ExecutionJob
    → ExecutionRun
    → ℕ
    → Option ℕ
    → ℕ
    → ℕ
    → ℕ
    → Result ServiceError JobResult × Db
retried now tenant job prior run_id actor_id audit_id job_id attempt = (
  ok (record {
    job = record job { status = queued };
    latest_run = retried_run tenant job_id attempt prior run_id;
    created = false;
  }),
  record now {
    jobs = map (set_job tenant job_id failed queued) now.jobs;
    runs = retried_run tenant job_id attempt prior run_id ∷ now.runs;
    audits =
        record {
          id = audit_id;
          tenant_id = tenant;
          event_type = "execution_job.retry_reserved";
          resource_type = "execution_job";
          resource_id = job_id;
          actor_id = actor_id;
          details = retry_details prior.id run_id attempt (attempt + 1);
        }
        ∷ now.audits;
  },
)

-- The outcome of a retry: the job and its last run were read as failed, the run has the attempt
-- number that the caller expects, below its bound; the job's row is in the database as failed; this
-- row alone is queued, and the run of the next attempt and one event are added; the answer shows
-- both.
pub record IsRetry (reads now : Db) (tenant job_id attempt : ℕ) (actor_id : Option ℕ)
    (run_id audit_id : ℕ) (out : Result ServiceError JobResult × Db) : Type 0 where
  pub job : ExecutionJob
  pub prior : ExecutionRun
  pub next : ExecutionRun
  pub jobs : List ExecutionJob
  pub job_read : Within job reads.jobs × IsJob tenant job_id failed job
  pub prior_read : IsLastRun reads tenant job_id prior × (prior.status ≡ failed)
  pub is_expected : prior.attempt_number ≡ attempt
  pub is_below : attempt < prior.max_attempts
  pub job_held : (j : ExecutionJob) × (Within j now.jobs × IsJob tenant job_id failed j)
  pub jobs_updated :
      IsUpdate (IsJob tenant job_id failed) (λ j. record j { status = queued }) now.jobs jobs
  pub next_is : next ≡ record {
    id = run_id;
    tenant_id = tenant;
    job_id = job_id;
    status = queued;
    attempt_number = attempt + 1;
    max_attempts = prior.max_attempts;
    retry_delay_seconds = prior.retry_delay_seconds;
    last_error_code = none;
  }
  pub outcome : out ≡ (
    ok (record { job = record job { status = queued }; latest_run = next; created = false }),
    record now {
      jobs = jobs;
      runs = next ∷ now.runs;
      audits =
          record {
            id = audit_id;
            tenant_id = tenant;
            event_type = "execution_job.retry_reserved";
            resource_type = "execution_job";
            resource_id = job_id;
            actor_id = actor_id;
            details = retry_details prior.id run_id attempt (attempt + 1);
          }
          ∷ now.audits;
    },
  )

-- `reserve_retry` either fails and leaves the database as it is, with `not_found` where it read no such
-- job of the tenant or no run of it, or with the invalid transition where the job or the run that it
-- read does not admit the retry, the job is no longer failed, or a row to add meets a constraint; or
-- it read the tenant's job with
-- the identifier and the job's run of the highest attempt, both failed, that attempt is the one that
-- the caller expects and is below the run's bound, the database still holds the job's row as failed,
-- and the call commits exactly the return of the job's failed row to `queued`, a queued run of the
-- job with the next attempt number and the same bound and delay, and one audit event, keeps every
-- other row, and reports the job and the new run.
pub reserve_retry-IsRetry :
    (reads now : Db) (tenant job_id attempt : ℕ) (actor_id : Option ℕ) (run_id audit_id : ℕ)
    → ((e : ServiceError) × ((reserve_retry reads now tenant job_id attempt actor_id run_id audit_id
            ≡ (err e, now))
          × IsHindered reads now tenant job_id attempt run_id audit_id e))
      ⊎ IsRetry reads now tenant job_id attempt actor_id run_id audit_id
          (reserve_retry reads now tenant job_id attempt actor_id run_id audit_id)
reserve_retry-IsRetry reads now tenant job_id attempt actor_id run_id audit_id =
    elim (reserve_retry_cases reads now tenant job_id attempt actor_id run_id audit_id) [
      | inl (e, failing) ↦ inl (
        e,
        (
          failing,
          reserve_retry-err reads now tenant job_id attempt actor_id run_id audit_id e failing,
        ),
      )
      | inr (job, (prior, (db, (checked, (committed, result))))) ↦
          let sound = check_retry_sound reads tenant job_id attempt job prior checked in
          let found = sound.0 in
          let same = found.job_id_is in
          let at = sound.1.1.1.0 in
          let below = sound.1.1.1.1 in
          let effect =
            apply_retry_sound tenant job prior actor_id run_id audit_id now db committed in
          let job_row = any_sound (hits_job tenant job.id failed) now.jobs effect.0 in
          let held = hits_job_sound tenant job.id failed job_row.0 job_row.1.1 in
          inr (record {
            job = job;
            prior = prior;
            next = retried_run tenant job_id attempt prior run_id;
            jobs = map (set_job tenant job_id failed queued) now.jobs;
            job_read = (found.job_read, (same, (found.job_tenant_is, sound.1.0)));
            prior_read = (Found-IsLastRun reads tenant job_id job prior found, sound.1.1.0);
            is_expected = at;
            is_below = omega arith;
            job_held = (job_row.0, (job_row.1.0, (held.0 ∙ same, held.1)));
            jobs_updated = set_job-IsUpdate tenant job_id failed queued now.jobs;
            next_is = refl;
            outcome =
                result
                ∙ ap (λ d. (ok (retried_result tenant job prior run_id), d)) (sym effect.1.1)
                ∙ ap
                    (λ n.
                      retried now tenant job prior run_id actor_id audit_id n prior.attempt_number)
                    same
                ∙ ap (λ a. retried now tenant job prior run_id actor_id audit_id job_id a) at;
          })
    ]
