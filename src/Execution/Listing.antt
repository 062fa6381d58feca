-- ===== src/Execution/Listing.antt =====
-- The listings of growth_os/execution_repository.py and growth_os/execution_service.py. The
-- database sorts rows by `created_at` and `id`: `order` and `order_runs` stand for its sorting.
pub mod Complete
pub mod Page
pub mod Sorting
use Prim.Native.String.{String}
use text.Mathlib.Text.{◌==◌ as str_eq}
use growth_os.Prelude.{
  ℕ, zero, suc, Bool, true, false, ◌&&◌, Option, none, some, List, [], ◌∷◌, map, ◌==◌, length, drop,
  Result, ok, err, raise_if, or_raise, ◌>>=◌, ◌>>◌,
}
use growth_os.Execution.Status.{ExecutionStatus, status_eq}
use growth_os.Execution.Store.{
  ExecutionJob, ExecutionRun, ActionProposal, AuditEvent, ProposalStatus, RiskLevel, Db, any, find,
  keep, get_job, get_workspace, is_run_of,
}
use growth_os.Execution.Service.{ServiceError, not_found, JobResult}

unfoldable pub take : {A : Type 0} → ℕ → List A → List A
take zero xs = []
take (suc n) [] = []
take (suc n) (x ∷ xs) = x ∷ take n xs

-- A condition that is added to the predicate only where its argument is given.
abbrev pub given : {A : Type 0} → Option A → (A → Bool) → Bool
given none test = true
given (some a) test = test a

-- `limit(...).offset(...)` of the sorted rows, and the count of the rows.
unfoldable pub page : {A : Type 0} → (A → Bool) → (List A → List A) → ℕ → ℕ → List A → List A × ℕ
unfolding take
page predicate order limit offset rows =
    let selected = keep predicate rows in
    (take limit (drop offset (order selected)), length selected)

-- The predicate of `list_jobs_with_latest_runs`.
unfoldable pub is_listed_job :
    ℕ → Option ℕ → Option ExecutionStatus → Option String → ExecutionJob → Bool
is_listed_job tenant workspace_id status kind j =
    j.tenant_id == tenant
    && (given workspace_id (λ w. j.workspace_id == w)
        && (given status (λ s. status_eq j.status s) && given kind (λ k. str_eq j.kind k)))

-- The runs of the jobs of a page, as the database sorts them.
unfoldable pub runs_of_page :
    (List ExecutionRun → List ExecutionRun) → ℕ → List ExecutionJob → Db → List ExecutionRun
runs_of_page order_runs tenant jobs db =
    order_runs (keep (λ r. r.tenant_id == tenant && any (λ j. j.id == r.job_id) jobs) db.runs)

-- `latest_by_job.get(job.id)`: the first run of the job, since `setdefault` keeps the first.
unfoldable pub with_latest :
    List ExecutionRun → List ExecutionJob → List (ExecutionJob × Option ExecutionRun)
with_latest runs [] = []
with_latest runs (j ∷ js) = (j, find (λ r. r.job_id == j.id) runs) ∷ with_latest runs js

unfoldable pub list_jobs_with_latest_runs :
    (List ExecutionJob → List ExecutionJob)
    → (List ExecutionRun → List ExecutionRun)
    → Db
    → ℕ
    → Option ℕ
    → Option ExecutionStatus
    → Option String
    → ℕ
    → ℕ
    → List (ExecutionJob × Option ExecutionRun) × ℕ
list_jobs_with_latest_runs order order_runs db tenant workspace_id status kind limit offset =
    let found = page (is_listed_job tenant workspace_id status kind) order limit offset db.jobs in
    (with_latest (runs_of_page order_runs tenant found.0 db) found.0, found.1)

-- The loop of `list_jobs`: a job without a run is an error.
unfoldable pub job_results :
    List (ExecutionJob × Option ExecutionRun) → Result ServiceError (List JobResult)
job_results [] = ok []
job_results ((j, none) ∷ rest) = err not_found
job_results ((j, some r) ∷ rest) = do
  results ← job_results rest
  ok (record { job = j; latest_run = r; created = false } ∷ results)

-- The workspace that a listing names must be the tenant's.
unfoldable pub owns_workspace : Db → ℕ → Option ℕ → Result ServiceError (Unit {0})
owns_workspace db tenant none = ok tt
owns_workspace db tenant (some workspace_id) = do
  workspace ← or_raise (get_workspace db tenant workspace_id) not_found
  ok tt

unfoldable pub list_jobs :
    (List ExecutionJob → List ExecutionJob)
    → (List ExecutionRun → List ExecutionRun)
    → Db
    → ℕ
    → Option ℕ
    → Option ExecutionStatus
    → Option String
    → ℕ
    → ℕ
    → Result ServiceError (List JobResult × ℕ)
list_jobs order order_runs db tenant workspace_id status kind limit offset = do
  owns_workspace db tenant workspace_id
  let found =
      list_jobs_with_latest_runs order order_runs db tenant workspace_id status kind limit offset
  results ← job_results found.0
  ok (results, found.1)

unfoldable pub list_runs :
    (List ExecutionRun → List ExecutionRun)
    → Db
    → ℕ
    → ℕ
    → ℕ
    → ℕ
    → Result ServiceError (List ExecutionRun × ℕ)
list_runs order_runs db tenant job_id limit offset = do
  job ← or_raise (get_job db tenant job_id) not_found
  ok (page (is_run_of tenant job_id) order_runs limit offset db.runs)

-- A member's place, by which members are compared.
abbrev pub status_place : ProposalStatus → ℕ
status_place ProposalStatus.awaiting_approval = 0
status_place ProposalStatus.approved = 1
status_place ProposalStatus.rejected = 2

abbrev pub risk_place : RiskLevel → ℕ
risk_place RiskLevel.read_only = 0
risk_place RiskLevel.low = 1
risk_place RiskLevel.medium = 2
risk_place RiskLevel.high = 3

abbrev pub same_bool : Bool → Bool → Bool
same_bool true b = b
same_bool false true = false
same_bool false false = true

-- The predicate of `list_proposals`.
unfoldable pub is_listed_proposal :
    ℕ → Option ℕ → Option ProposalStatus → Option RiskLevel → Option Bool → ActionProposal → Bool
is_listed_proposal tenant job_id status risk_level requires_approval p =
    p.tenant_id == tenant
    && (given job_id (λ j. p.job_id == j)
        && (given status (λ s. status_place p.status == status_place s)
            && (given risk_level (λ r. risk_place p.risk_level == risk_place r)
                && given requires_approval (λ b. same_bool p.requires_approval b))))

-- The job that a listing names must be the tenant's.
unfoldable pub owns_job : Db → ℕ → Option ℕ → Result ServiceError (Unit {0})
owns_job db tenant none = ok tt
owns_job db tenant (some job_id) = do job ← or_raise (get_job db tenant job_id) not_found; ok tt

unfoldable pub list_proposals :
    (List ActionProposal → List ActionProposal)
    → Db
    → ℕ
    → Option ℕ
    → Option ProposalStatus
    → Option RiskLevel
    → Option Bool
    → ℕ
    → ℕ
    → Result ServiceError (List ActionProposal × ℕ)
list_proposals order db tenant job_id status risk_level requires_approval limit offset = do
  owns_job db tenant job_id
  ok (
      page (is_listed_proposal tenant job_id status risk_level requires_approval) order limit offset
        db.proposals)

-- An event without an actor meets no actor's condition.
abbrev pub is_actor : ℕ → Option ℕ → Bool
is_actor i none = false
is_actor i (some actor) = actor == i

-- The predicate of `list_audit_events`.
unfoldable pub is_listed_event :
    ℕ → Option String → Option String → Option ℕ → Option ℕ → AuditEvent → Bool
is_listed_event tenant event_type resource_type resource_id actor_id e =
    e.tenant_id == tenant
    && (given event_type (λ t. str_eq e.event_type t)
        && (given resource_type (λ t. str_eq e.resource_type t)
            && (given resource_id (λ i. e.resource_id == i)
                && given actor_id (λ i. is_actor i e.actor_id))))

unfoldable pub list_audit_events :
    (List AuditEvent → List AuditEvent)
    → Db
    → ℕ
    → Option String
    → Option String
    → Option ℕ
    → Option ℕ
    → ℕ
    → ℕ
    → List AuditEvent × ℕ
list_audit_events order db tenant event_type resource_type resource_id actor_id limit offset =
    page (is_listed_event tenant event_type resource_type resource_id actor_id) order limit offset
      db.audits
