-- ===== src/Execution/Service/Effects/Moves.antt =====
-- What `transition_job` of growth_os/execution_service.py commits, row by row.
use growth_os.Prelude.{
  ℕ, ◌≡◌, sym, ap, ◌∙◌, ◌⊎◌, inl, inr, true, false, Option, List, ◌∷◌, map, Within, Result, ok, err,
}
use growth_os.Execution.Status.{ExecutionStatus, is_valid_transition}
use growth_os.Execution.Store.{
  ExecutionJob, ExecutionRun, Db, transition_details, hits_job, set_job, hits_run, set_run,
}
use growth_os.Execution.Store.Rows.{any_sound}
use growth_os.Execution.Store.Updates.{hits_job_sound, hits_run_sound}
use growth_os.Execution.Service.{ServiceError, JobResult, transition_job, transitioned}
use growth_os.Execution.Service.Reads.{check_transition_sound}
use growth_os.Execution.Service.Transition.{
  moved_db, transition_event, transition_job_cases, apply_transition_sound,
}
use growth_os.Execution.Service.Effects.{
  IsJob, IsRun, IsLastRun, IsUpdate, Found-IsLastRun, set_job-IsUpdate, set_run-IsUpdate,
}

-- The outcome of a move: the job and its last run were read in the expected status, from which the
-- table allows the move; their rows, still in that status, are in the database; these rows alone get
-- the new status, and one event is added; the answer shows both.
pub record IsMove (reads now : Db) (tenant job_id : ℕ) (expected target : ExecutionStatus)
    (actor_id : Option ℕ) (audit_id : ℕ) (out : Result ServiceError JobResult × Db) : Type 0 where
  pub job : ExecutionJob
  pub run : ExecutionRun
  pub jobs : List ExecutionJob
  pub runs : List ExecutionRun
  pub is_allowed : is_valid_transition expected target ≡ true
  pub job_read : Within job reads.jobs × IsJob tenant job_id expected job
  pub run_read : IsLastRun reads tenant job_id run × (run.status ≡ expected)
  pub job_held : (j : ExecutionJob) × (Within j now.jobs × IsJob tenant job_id expected j)
  pub run_held : (r : ExecutionRun) × (Within r now.runs × IsRun tenant run.id expected r)
  pub jobs_updated :
      IsUpdate (IsJob tenant job_id expected) (λ j. record j { status = target }) now.jobs jobs
  pub runs_updated :
      IsUpdate (IsRun tenant run.id expected) (λ r. record r { status = target }) now.runs runs
  pub outcome : out ≡ (
    ok (record {
      job = record job { status = target };
      latest_run = record run { status = target };
      created = false;
    }),
    record now {
      jobs = jobs;
      runs = runs;
      audits =
          record {
            id = audit_id;
            tenant_id = tenant;
            event_type = "execution_job.transitioned";
            resource_type = "execution_job";
            resource_id = job_id;
            actor_id = actor_id;
            details = transition_details expected target run.id;
          }
          ∷ now.audits;
    },
  )

-- `transition_job` either fails and leaves the database as it is, or it read the tenant's job with
-- the identifier and the job's run of the highest attempt, both in the expected status, the table
-- allows the move, the database still holds both rows in that status, and the call commits exactly
-- the new status of the rows with the job's and the run's identifier, tenant and expected status and
-- one audit event, keeps every other row, and reports the job and the run in the new status.
pub transition_job-IsMove :
    (reads now : Db) (tenant job_id : ℕ) (expected target : ExecutionStatus) (actor_id : Option ℕ)
    (audit_id : ℕ)
    → ((e : ServiceError) × (transition_job reads now tenant job_id expected target actor_id
            audit_id
          ≡ (err e, now)))
      ⊎ IsMove reads now tenant job_id expected target actor_id audit_id
          (transition_job reads now tenant job_id expected target actor_id audit_id)
unfolding transitioned
transition_job-IsMove reads now tenant job_id expected target actor_id audit_id =
    elim (transition_job_cases reads now tenant job_id expected target actor_id audit_id) [
      | inl failing ↦ inl failing
      | inr (job, (run, (db, (checked, (committed, result))))) ↦
          let sound = check_transition_sound reads tenant job_id expected target job run checked in
          let found = sound.1.0 in
          let same = found.job_id_is in
          let effect =
            apply_transition_sound tenant job run expected target actor_id audit_id now db
              committed in
          let job_row = any_sound (hits_job tenant job.id expected) now.jobs effect.0 in
          let run_row = any_sound (hits_run tenant run.id expected) now.runs effect.1.0 in
          let held = hits_job_sound tenant job.id expected job_row.0 job_row.1.1 in
          inr (record {
            job = job;
            run = run;
            jobs = map (set_job tenant job_id expected target) now.jobs;
            runs = map (set_run tenant run.id expected target) now.runs;
            is_allowed = sound.0;
            job_read = (found.job_read, (same, (found.job_tenant_is, sound.1.1.0)));
            run_read = (Found-IsLastRun reads tenant job_id job run found, sound.1.1.1);
            job_held = (job_row.0, (job_row.1.0, (held.0 ∙ same, held.1)));
            run_held = (
              run_row.0,
              (run_row.1.0, hits_run_sound tenant run.id expected run_row.0 run_row.1.1),
            );
            jobs_updated = set_job-IsUpdate tenant job_id expected target now.jobs;
            runs_updated = set_run-IsUpdate tenant run.id expected target now.runs;
            outcome =
                result
                ∙ ap (λ d. (ok (transitioned job run target), d)) (sym effect.1.1)
                ∙ ap
                    (λ n. (
                      ok (transitioned job run target),
                      moved_db now tenant n run.id expected target
                          (transition_event tenant n run.id expected target actor_id audit_id),
                    ))
                    same;
          })
    ]
