-- ===== src/Execution/Service/Create.antt =====
-- `create_job` of growth_os/execution_service.py.
use text.Mathlib.Text.{◌==◌ as str_eq}
use growth_os.Prelude.{
  ℕ, ◌≡◌, refl, sym, ap, ◌∙◌, ◌⊎◌, inl, inr, true, false, not, ◌||◌, ◌&&◌, none, some, ◌∷◌, arith,
  ◌==◌, Within, Option-cases, ok, bind_ok, or_raise_ok, raise_if_ok, ok_injective, or_raise, subst,
}
use growth_os.Execution.Store.{
  ExecutionJob, ExecutionRun, Db, AuditEvent, no_details, any, get_job_by_idempotency_key,
  get_workspace, latest_run, insert_job, insert_run, admits_job, admits_run,
}
use growth_os.Execution.Store.Rows.{
  and_left, and_right, not-true, nat_eq_sound, any_refuse, find_sound,
}
use growth_os.Execution.Store.Statements.{insert_job-some, insert_run-some, insert_audit-some}
use growth_os.Execution.Service.{
  not_found, conflict, JobResult, JobRequest, idempotent_job_result, new_job, first_run, add_job,
  losing_create, winning_create, create_job, audit_event,
}
use growth_os.Execution.Service.Consistent.{IsConsistent}
use growth_os.Execution.Service.Created.{created-Consistent}
use growth_os.Execution.Service.Reads.{and_then-some, or_false, not-false}
use growth_os.Execution.Service.Retry.{admits_run_sound}

abbrev pub created_event : ℕ → ℕ → ℕ → AuditEvent
created_event tenant job_id audit_id =
    audit_event audit_id tenant "execution_job.created" "execution_job" job_id none no_details

-- The state that `create_job` commits.
abbrev pub created_db : Db → ExecutionJob → ExecutionRun → AuditEvent → Db
created_db now job run event = record now {
  jobs = job ∷ now.jobs;
  runs = run ∷ now.runs;
  audits = event ∷ now.audits;
}

abbrev add_event : AuditEvent → Db → Db
add_event event db = record db { audits = event ∷ db.audits }

abbrev add_run : ExecutionRun → Db → Db
add_run run db = record db { runs = run ∷ db.runs }

pub add_job_sound :
    (tenant : ℕ) (request : JobRequest) (job_id run_id audit_id : ℕ) (now db : Db)
    → add_job tenant request job_id run_id audit_id now ≡ some db
    → (admits_job now (new_job tenant request job_id) ≡ true)
      × ((admits_run
              (record now { jobs = new_job tenant request job_id ∷ now.jobs })
              (first_run tenant request job_id run_id)
            ≡ true)
          × (created_db now
                (new_job tenant request job_id)
                (first_run tenant request job_id run_id)
                (created_event tenant job_id audit_id)
              ≡ db))
unfolding add_job
add_job_sound tenant request job_id run_id audit_id now db h =
    let event = created_event tenant job_id audit_id in
    let job = new_job tenant request job_id in
    let run = first_run tenant request job_id run_id in
    let first = and_then-some (insert_job job now) _ db h in
    let job_in = insert_job-some now first.0 job first.1.0 in
    let second = and_then-some (insert_run run first.0) _ db first.1.1 in
    let run_in = insert_run-some first.0 second.0 run second.1.0 in
    let last = (insert_audit-some second.0 db event second.1.1).1 in
    (
      job_in.0,
      (
        ap (λ d. admits_run d run) job_in.1 ∙ run_in.0,
        ap (λ d. add_event event (add_run run d)) job_in.1 ∙ ap (add_event event) run_in.1 ∙ last,
      ),
    )

-- What a result found for an earlier job agrees on with the request.
abbrev pub Agrees : ℕ → JobRequest → JobResult → Type 0
Agrees tenant request result =
    (result.job.tenant_id ≡ tenant)
    × ((str_eq result.job.idempotency_key request.idempotency_key ≡ true)
        × ((result.job.workspace_id ≡ request.workspace_id)
            × ((str_eq result.job.kind request.kind ≡ true)
                × ((result.latest_run.max_attempts ≡ request.max_attempts)
                    × (result.latest_run.retry_delay_seconds ≡ request.retry_delay_seconds)))))

-- A result found in a database: a job of it that agrees with the request, and its latest run.
abbrev pub FoundIn : Db → ℕ → JobRequest → JobResult → Type 0
FoundIn db tenant request result =
    Agrees tenant request result
    × ((result.created ≡ false)
        × (Within result.job db.jobs
            × (latest_run db tenant result.job.id ≡ some result.latest_run)))

idempotent_job_result_sound :
    (db : Db) (tenant : ℕ) (job : ExecutionJob) (request : JobRequest) (result : JobResult)
    → get_job_by_idempotency_key db tenant request.idempotency_key ≡ some job
    → idempotent_job_result db tenant job request ≡ ok result
    → FoundIn db tenant request result
unfolding idempotent_job_result get_job_by_idempotency_key
idempotent_job_result_sound db tenant job request result found h =
    let key =
      find_sound (λ j. j.tenant_id == tenant && str_eq j.idempotency_key request.idempotency_key)
        job db.jobs found in
    let step = bind_ok (or_raise (latest_run db tenant job.id) not_found) _ result h in
    let agree =
      raise_if_ok
        (not (job.workspace_id == request.workspace_id)
          || (not (str_eq job.kind request.kind)
              || (not (step.0.max_attempts == request.max_attempts)
                  || not (step.0.retry_delay_seconds == request.retry_delay_seconds))))
        conflict _ result step.1.1 in
    let first = or_false _ _ agree.0 in
    let second = or_false _ _ first.1 in
    let third = or_false _ _ second.1 in
    subst (FoundIn db tenant request) (ok_injective agree.1) (
      (
        nat_eq_sound (and_left (job.tenant_id == tenant) _ key.1),
        (
          and_right (job.tenant_id == tenant) _ key.1,
          (
            nat_eq_sound (not-false _ first.0),
            (
              not-false _ second.0,
              (nat_eq_sound (not-false _ third.0), nat_eq_sound (not-false _ third.1)),
            ),
          ),
        ),
      ),
      (refl, (key.0, or_raise_ok (latest_run db tenant job.id) not_found step.0 step.1.0)),
    )

losing_sound :
    (now : Db) (tenant : ℕ) (request : JobRequest) (result : JobResult)
    → losing_create now tenant request ≡ ok result
    → FoundIn now tenant request result
unfolding losing_create
losing_sound now tenant request result h =
    let step =
      bind_ok (or_raise (get_job_by_idempotency_key now tenant request.idempotency_key) conflict) _
        result h in
    idempotent_job_result_sound now tenant step.0 request result
      (or_raise_ok _ conflict step.0 step.1.0) step.1.1

-- What `create_job` reports of a new job.
abbrev pub created_result : ℕ → JobRequest → ℕ → ℕ → JobResult
created_result tenant request job_id run_id = record {
  job = new_job tenant request job_id;
  latest_run = first_run tenant request job_id run_id;
  created = true;
}

-- A call leaves the database and answers with an error or with an earlier job, or it commits the
-- new rows.
pub create_job_cases :
    (reads now : Db) (tenant : ℕ) (request : JobRequest) (job_id run_id audit_id : ℕ)
    → (((create_job reads now tenant request job_id run_id audit_id).1 ≡ now)
        × ((result : JobResult)
            → (create_job reads now tenant request job_id run_id audit_id).0 ≡ ok result
            → FoundIn reads tenant request result ⊎ FoundIn now tenant request result))
      ⊎ ((db : Db) × ((add_job tenant request job_id run_id audit_id now ≡ some db)
            × (create_job reads now tenant request job_id run_id audit_id
                ≡ (ok (created_result tenant request job_id run_id), db))))
unfolding create_job winning_create
create_job_cases reads now tenant request job_id run_id audit_id =
    elim (Option-cases (get_job_by_idempotency_key reads tenant request.idempotency_key)) [
      | inr (existing, found) ↦
          rw (create_job, found)
            (inl (
              refl,
              λ result h.
                  inl (idempotent_job_result_sound reads tenant existing request result found h),
            ))
      | inl absent ↦ elim (Option-cases (get_workspace reads tenant request.workspace_id)) [
        | inl lost ↦ rw (create_job, absent, lost) (inl (refl, λ result h. cc))
        | inr (space, found) ↦
            elim (Option-cases (add_job tenant request job_id run_id audit_id now)) [
              | inr (db, committed) ↦
                  inr (db, (committed, rw (create_job, absent, found, winning_create, committed)))
              | inl refused ↦
                  rw (create_job, absent, found, winning_create, refused)
                    (inl (refl, λ result h. inr (losing_sound now tenant request result h)))
            ]
      ]
    ]

-- Where the tenant has a job with the idempotency key when the statements run, `create_job` adds
-- nothing, even if its reads came before that job.
pub create_job_existing :
    (reads now : Db) (tenant : ℕ) (request : JobRequest) (job_id run_id audit_id : ℕ)
    (job : ExecutionJob)
    → Within job now.jobs
    → job.tenant_id ≡ tenant
    → str_eq job.idempotency_key request.idempotency_key ≡ true
    → (create_job reads now tenant request job_id run_id audit_id).1 ≡ now
unfolding admits_job
create_job_existing reads now tenant request job_id run_id audit_id job w own key =
    elim (create_job_cases reads now tenant request job_id run_id audit_id) [
      | inl (same, sound) ↦ same
      | inr (db, (committed, answer)) ↦
          let admitted = (add_job_sound tenant request job_id run_id audit_id now db committed).0 in
          let unique =
            not-true _
              (and_left _ _ (and_right (not (any (λ k. k.id == job_id) now.jobs)) _ admitted)) in
          let differs =
            any_refuse
              (λ k. k.tenant_id == tenant && str_eq k.idempotency_key request.idempotency_key) job
              now.jobs unique w in
          ground arith
    ]

-- `create_job` keeps the rows in agreement, whatever its reads saw.
pub create_job-IsConsistent :
    (reads now : Db) (tenant : ℕ) (request : JobRequest) (job_id run_id audit_id : ℕ)
    → IsConsistent now
    → IsConsistent (create_job reads now tenant request job_id run_id audit_id).1
unfolding admits_job
create_job-IsConsistent reads now tenant request job_id run_id audit_id c =
    elim (create_job_cases reads now tenant request job_id run_id audit_id) [
      | inl (same, sound) ↦ subst IsConsistent (sym same) c
      | inr (db, (committed, answer)) ↦
          let effect = add_job_sound tenant request job_id run_id audit_id now db committed in
          let keys = admits_run_sound _ (first_run tenant request job_id run_id) effect.1.0 in
          subst (λ o. IsConsistent o.1) (sym answer)
            (subst IsConsistent effect.1.1 (
              created-Consistent now.jobs now.runs c (new_job tenant request job_id)
                (first_run tenant request job_id run_id) refl refl refl refl
                (not-true _ (and_left _ _ effect.0)) keys.0))
    ]

-- A call leaves the database or commits the new rows.
pub create_job_effect :
    (reads now : Db) (tenant : ℕ) (request : JobRequest) (job_id run_id audit_id : ℕ)
    → ((create_job reads now tenant request job_id run_id audit_id).1 ≡ now)
      ⊎ ((create_job reads now tenant request job_id run_id audit_id).1
          ≡ created_db now
              (new_job tenant request job_id)
              (first_run tenant request job_id run_id)
              (created_event tenant job_id audit_id))
create_job_effect reads now tenant request job_id run_id audit_id =
    elim (create_job_cases reads now tenant request job_id run_id audit_id) [
      | inl (same, sound) ↦ inl same
      | inr (db, (committed, answer)) ↦ inr (
          ap (λ o. o.1) answer
          ∙ sym (add_job_sound tenant request job_id run_id audit_id now db committed).1.1)
    ]
