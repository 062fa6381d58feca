-- ===== src/Execution/Service/Effects/Creations.antt =====
-- What `create_job` of growth_os/execution_service.py answers and commits, row by row.
use text.Mathlib.Text.{◌==◌ as str_eq}
use growth_os.Prelude.{
  ℕ, ◌≡◌, refl, sym, ap, ◌∙◌, ◌⊎◌, inl, inr, true, false, not, ◌&&◌, none, some, ◌∷◌, ◌==◌, Within,
  ok, ok_injective, subst, arith,
}
use growth_os.Execution.Status.{queued}
use growth_os.Execution.Store.{ExecutionJob, Workspace, Db, no_details, admits_job, any}
use growth_os.Execution.Store.Rows.{
  and_left, and_right, not-true, nat_eq_sound, any_sound, any_refuse,
}
use growth_os.Execution.Service.{JobResult, JobRequest, create_job, add_job}
use growth_os.Execution.Service.Create.{
  Agrees, FoundIn, created_result, create_job_cases, add_job_sound,
}
use growth_os.Execution.Service.Effects.{IsLastRun, latest_run-IsLastRun}

-- The result is a job of the database that agrees with the request, with its last run.
abbrev pub IsEarlier : Db → ℕ → JobRequest → JobResult → Type 0
IsEarlier db tenant request result =
    Within result.job db.jobs
    × (IsLastRun db tenant result.job.id result.latest_run
        × (Agrees tenant request result × (result.created ≡ false)))

FoundIn-IsEarlier :
    (db : Db) (tenant : ℕ) (request : JobRequest) (result : JobResult)
    → FoundIn db tenant request result
    → IsEarlier db tenant request result
FoundIn-IsEarlier db tenant request result found = (
  found.1.1.0,
  (
    latest_run-IsLastRun db tenant result.job.id result.latest_run found.1.1.1,
    (found.0, found.1.0),
  ),
)

-- The outcome of a creation: the workspace is the tenant's, the tenant had no job with the key, and
-- the job, its first run and one event are added.
pub record IsCreation (now : Db) (tenant : ℕ) (request : JobRequest) (job_id run_id audit_id : ℕ)
    (result : JobResult) (after : Db) : Type 0 where
  pub workspace_held :
      (w : Workspace) × (Within w now.workspaces
        × ((w.id ≡ request.workspace_id) × (w.tenant_id ≡ tenant)))
  pub is_new :
      (j : ExecutionJob)
      → Within j now.jobs
      → (j.tenant_id ≡ tenant) × (str_eq j.idempotency_key request.idempotency_key ≡ true)
      → ⊥
  pub job_is : result.job ≡ record {
    id = job_id;
    tenant_id = tenant;
    workspace_id = request.workspace_id;
    kind = request.kind;
    idempotency_key = request.idempotency_key;
    status = queued;
  }
  pub run_is : result.latest_run ≡ record {
    id = run_id;
    tenant_id = tenant;
    job_id = job_id;
    status = queued;
    attempt_number = 1;
    max_attempts = request.max_attempts;
    retry_delay_seconds = request.retry_delay_seconds;
    last_error_code = none;
  }
  pub is_created : result.created ≡ true
  pub committed : after ≡ record now {
    jobs = result.job ∷ now.jobs;
    runs = result.latest_run ∷ now.runs;
    audits =
        record {
          id = audit_id;
          tenant_id = tenant;
          event_type = "execution_job.created";
          resource_type = "execution_job";
          resource_id = job_id;
          actor_id = none;
          details = no_details;
        }
        ∷ now.audits;
  }

created-IsCreation :
    (now : Db) (tenant : ℕ) (request : JobRequest) (job_id run_id audit_id : ℕ) (db : Db)
    → add_job tenant request job_id run_id audit_id now ≡ some db
    → IsCreation now tenant request job_id run_id audit_id
        (created_result tenant request job_id run_id)
        db
unfolding admits_job
created-IsCreation now tenant request job_id run_id audit_id db done =
    let effect = add_job_sound tenant request job_id run_id audit_id now db done in
    let rest = and_right (not (any (λ k. k.id == job_id) now.jobs)) _ effect.0 in
    let unique = not-true _ (and_left _ _ rest) in
    let held =
      any_sound (λ w. w.id == request.workspace_id && w.tenant_id == tenant) now.workspaces
        (and_right
          (not (
            any (λ k. k.tenant_id == tenant && str_eq k.idempotency_key request.idempotency_key)
              now.jobs))
          _ rest) in
    record {
      workspace_held = (
        held.0,
        (
          held.1.0,
          (
            nat_eq_sound (and_left (held.0.id == request.workspace_id) _ held.1.1),
            nat_eq_sound (and_right (held.0.id == request.workspace_id) _ held.1.1),
          ),
        ),
      );
      is_new = λ j here same.
          let differs =
            any_refuse
              (λ k. k.tenant_id == tenant && str_eq k.idempotency_key request.idempotency_key) j
              now.jobs unique here in
          let own = same.0 in let key = same.1 in ground arith;
      job_is = refl;
      run_is = refl;
      is_created = refl;
      committed = sym effect.1.1;
    }

-- A result of `create_job` either is a job of the tenant that the call read, with the idempotency
-- key, the workspace, the kind, the bound of attempts and the retry delay of the request and its run of the highest attempt,
-- not marked as created, and the database is left as it is; or the workspace is the tenant's and no
-- job of the tenant has the key, the result is the requested job, queued, with a queued run of
-- attempt 1, marked as created, and the call commits exactly these two rows and one audit event.
pub create_job-IsCreation :
    (reads now : Db) (tenant : ℕ) (request : JobRequest) (job_id run_id audit_id : ℕ)
    (result : JobResult)
    → (create_job reads now tenant request job_id run_id audit_id).0 ≡ ok result
    → (((create_job reads now tenant request job_id run_id audit_id).1 ≡ now)
        × (IsEarlier reads tenant request result ⊎ IsEarlier now tenant request result))
      ⊎ IsCreation now tenant request job_id run_id audit_id result
          (create_job reads now tenant request job_id run_id audit_id).1
create_job-IsCreation reads now tenant request job_id run_id audit_id result h =
    elim (create_job_cases reads now tenant request job_id run_id audit_id) [
      | inl (same, sound) ↦ inl (
        same,
        elim (sound result h) [
          | inl found ↦ inl (FoundIn-IsEarlier reads tenant request result found)
          | inr found ↦ inr (FoundIn-IsEarlier now tenant request result found)
        ],
      )
      | inr (db, (committed, answer)) ↦
          let made = created-IsCreation now tenant request job_id run_id audit_id db committed in
          let same : created_result tenant request job_id run_id ≡ result =
            ok_injective (sym (ap (λ o. o.0) answer) ∙ h) in
          inr (
            subst (λ d. IsCreation now tenant request job_id run_id audit_id result d)
              (sym (ap (λ o. o.1) answer))
              (subst (λ r. IsCreation now tenant request job_id run_id audit_id r db) same made))
    ]
