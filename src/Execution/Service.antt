-- ===== src/Execution/Service.antt =====
-- growth_os/execution_service.py: the methods of `ExecutionService`.
-- A method runs against two states of the database: `reads`, where its queries run, and `now`,
-- where its statements run and its transaction commits. They differ by what other transactions
-- committed in between; from the first statement on the rows that it writes are locked. A method
-- returns its result or error with the committed state; after a rollback this is `now`. The
-- identifiers that `uuid4` draws are arguments.
pub mod Consistent
pub mod Moved
pub mod Progress
pub mod Reviewed
pub mod Created
pub mod Retried
pub mod Reads
pub mod Transition
pub mod Retry
pub mod Create
pub mod Effects
pub mod Proposals
use Prim.Native.String.{String}
use text.Mathlib.Text.{◌==◌ as str_eq}
use growth_os.Prelude.{
  ℕ, ◌+◌, Bool, true, false, not, ◌&&◌, ◌||◌, Option, none, some, List, leb, ◌==◌, if◌then◌else◌,
  Result, ok, err, raise_if, or_raise, ◌>>=◌, ◌>>◌,
}
use growth_os.Execution.Status.{ExecutionStatus, queued, failed, status_eq, is_valid_transition}
use growth_os.Execution.Store.{
  RiskLevel, ProposalStatus, ApprovalDecisionValue, ExecutionJob, ExecutionRun, ActionProposal,
  ApprovalDecision, AuditDetails, no_details, transition_details, retry_details, decision_details,
  AuditEvent, Db, get_job, get_proposal, get_workspace, get_job_by_idempotency_key, latest_run,
  compare_and_set_job_status, compare_and_set_run_status, insert_job, insert_run, is_high,
  insert_proposal, update_proposal, insert_decision, insert_audit,
}

-- growth_os/api/errors.py, with the message of the last.
pub data ServiceError : Type 0 where
  not_found conflict : ServiceError
  invalid_state_transition : String → ServiceError

abbrev pub invalid_state : ServiceError
invalid_state = invalid_state_transition "Invalid state transition"

pub record JobResult : Type 0 where
  pub job : ExecutionJob
  pub latest_run : ExecutionRun
  pub created : Bool

abbrev pub Outcome : Type 0 → Type 0
Outcome A = Result ServiceError A × Db

-- `get_owned(ExecutionJob, ...)` and then `_required_run`
unfoldable pub get_job_and_run : Db → ℕ → ℕ → Result ServiceError (ExecutionJob × ExecutionRun)
get_job_and_run db tenant job_id = do
  job ← or_raise (get_job db tenant job_id) not_found
  run ← or_raise (latest_run db tenant job.id) not_found
  ok (job, run)

-- `get_job`
unfoldable pub get_job_result : Db → ℕ → ℕ → Result ServiceError JobResult
unfolding get_job_and_run
get_job_result db tenant job_id = do
  found ← get_job_and_run db tenant job_id
  ok (record { job = found.0; latest_run = found.1; created = false })

-- One statement after another; each may fail.
abbrev pub and_then : {A B : Type 0} → Option A → (A → Option B) → Option B
and_then none f = none
and_then (some a) f = f a

-- The arguments of `create_job`.
pub record JobRequest : Type 0 where
  pub workspace_id : ℕ
  pub kind : String
  pub idempotency_key : String
  pub max_attempts : ℕ
  pub retry_delay_seconds : ℕ

-- `_idempotent_job_result`
unfoldable pub idempotent_job_result :
    Db → ℕ → ExecutionJob → JobRequest → Result ServiceError JobResult
idempotent_job_result db tenant job request = do
  run ← or_raise (latest_run db tenant job.id) not_found
  raise_if
      (not (job.workspace_id == request.workspace_id)
        || (not (str_eq job.kind request.kind)
            || (not (run.max_attempts == request.max_attempts)
                || not (run.retry_delay_seconds == request.retry_delay_seconds))))
      conflict
  ok (record { job = job; latest_run = run; created = false })

-- The rows that `create_job` adds.
abbrev pub new_job : ℕ → JobRequest → ℕ → ExecutionJob
new_job tenant request job_id = record {
  id = job_id;
  tenant_id = tenant;
  workspace_id = request.workspace_id;
  kind = request.kind;
  idempotency_key = request.idempotency_key;
  status = queued;
}

abbrev pub first_run : ℕ → JobRequest → ℕ → ℕ → ExecutionRun
first_run tenant request job_id run_id = record {
  id = run_id;
  tenant_id = tenant;
  job_id = job_id;
  status = queued;
  attempt_number = 1;
  max_attempts = request.max_attempts;
  retry_delay_seconds = request.retry_delay_seconds;
  last_error_code = none;
}

-- `_audit`
abbrev pub audit_event : ℕ → ℕ → String → String → ℕ → Option ℕ → AuditDetails → AuditEvent
audit_event audit_id tenant event_type resource_type resource_id actor_id details = record {
  id = audit_id;
  tenant_id = tenant;
  event_type = event_type;
  resource_type = resource_type;
  resource_id = resource_id;
  actor_id = actor_id;
  details = details;
}

-- The flush of the three new rows, in the order of their dependencies.
unfoldable pub add_job : ℕ → JobRequest → ℕ → ℕ → ℕ → Db → Option Db
add_job tenant request job_id run_id audit_id db =
    and_then (insert_job (new_job tenant request job_id) db) λ db₁.
      and_then (insert_run (first_run tenant request job_id run_id) db₁) λ db₂.
        insert_audit
          (audit_event audit_id tenant "execution_job.created" "execution_job" job_id none
            no_details)
          db₂

-- The `except IntegrityError` branch of `create_job`.
unfoldable pub losing_create : Db → ℕ → JobRequest → Result ServiceError JobResult
unfolding idempotent_job_result
losing_create now tenant request = do
  winner ← or_raise (get_job_by_idempotency_key now tenant request.idempotency_key) conflict
  idempotent_job_result now tenant winner request

-- The `try` block of `create_job`.
unfoldable pub winning_create : ℕ → JobRequest → ℕ → ℕ → ℕ → Db → Outcome JobResult
winning_create tenant request job_id run_id audit_id now =
    elim (add_job tenant request job_id run_id audit_id now) [
      | none ↦ (losing_create now tenant request, now)
      | some db ↦ (
        ok (record {
          job = new_job tenant request job_id;
          latest_run = first_run tenant request job_id run_id;
          created = true;
        }),
        db,
      )
    ]

unfoldable pub create_job : Db → Db → ℕ → JobRequest → ℕ → ℕ → ℕ → Outcome JobResult
create_job reads now tenant request job_id run_id audit_id =
    elim (get_job_by_idempotency_key reads tenant request.idempotency_key) [
      | some existing ↦ (idempotent_job_result reads tenant existing request, now)
      | none ↦ elim (get_workspace reads tenant request.workspace_id) [
        | none ↦ (err not_found, now)
        | some _ ↦ winning_create tenant request job_id run_id audit_id now
      ]
    ]

-- The statements of `transition_job`: both updates must find their row.
unfoldable pub apply_transition :
    ℕ
    → ExecutionJob
    → ExecutionRun
    → ExecutionStatus
    → ExecutionStatus
    → Option ℕ
    → ℕ
    → Db
    → Option Db
apply_transition tenant job run expected target actor_id audit_id db =
    and_then (compare_and_set_job_status tenant job.id expected target db) λ db₁.
      and_then (compare_and_set_run_status tenant run.id expected target db₁) λ db₂.
        insert_audit
          (audit_event audit_id tenant "execution_job.transitioned" "execution_job" job.id actor_id
            (transition_details expected target run.id))
          db₂

-- What the two `refresh` calls read back.
unfoldable pub transitioned : ExecutionJob → ExecutionRun → ExecutionStatus → JobResult
transitioned job run target = record {
  job = record job { status = target };
  latest_run = record run { status = target };
  created = false;
}

-- The checks of `transition_job` before its first statement.
unfoldable pub check_transition :
    Db
    → ℕ
    → ℕ
    → ExecutionStatus
    → ExecutionStatus
    → Result ServiceError (ExecutionJob × ExecutionRun)
check_transition reads tenant job_id expected target = do
  raise_if (not (is_valid_transition expected target)) invalid_state
  found ← get_job_and_run reads tenant job_id
  raise_if (not (status_eq found.0.status expected) || not (status_eq found.1.status expected))
      invalid_state
  ok found

unfoldable pub transition_job :
    Db → Db → ℕ → ℕ → ExecutionStatus → ExecutionStatus → Option ℕ → ℕ → Outcome JobResult
transition_job reads now tenant job_id expected target actor_id audit_id =
    elim (check_transition reads tenant job_id expected target) [
      | err error ↦ (err error, now)
      | ok (job, run) ↦
          elim (apply_transition tenant job run expected target actor_id audit_id now) [
            | none ↦ (err invalid_state, now)
            | some db ↦ (ok (transitioned job run target), db)
          ]
    ]

-- The run that `reserve_retry` adds.
abbrev pub next_run : ℕ → ExecutionJob → ExecutionRun → ℕ → ExecutionRun
next_run tenant job prior_run run_id = record {
  id = run_id;
  tenant_id = tenant;
  job_id = job.id;
  status = queued;
  attempt_number = prior_run.attempt_number + 1;
  max_attempts = prior_run.max_attempts;
  retry_delay_seconds = prior_run.retry_delay_seconds;
  last_error_code = none;
}

-- The checks of `reserve_retry` before its first statement.
unfoldable pub check_retry : Db → ℕ → ℕ → ℕ → Result ServiceError (ExecutionJob × ExecutionRun)
check_retry reads tenant job_id expected_attempt_number = do
  found ← get_job_and_run reads tenant job_id
  raise_if
      (not (status_eq found.0.status failed)
        || (not (status_eq found.1.status failed)
            || (not (found.1.attempt_number == expected_attempt_number)
                || leb found.1.max_attempts found.1.attempt_number)))
      invalid_state
  ok found

-- The statements of `reserve_retry`.
unfoldable pub apply_retry : ℕ → ExecutionJob → ExecutionRun → Option ℕ → ℕ → ℕ → Db → Option Db
apply_retry tenant job prior_run actor_id run_id audit_id db =
    and_then (compare_and_set_job_status tenant job.id failed queued db) λ db₁.
      and_then (insert_run (next_run tenant job prior_run run_id) db₁) λ db₂.
        insert_audit
          (audit_event audit_id tenant "execution_job.retry_reserved" "execution_job" job.id
            actor_id
            (retry_details prior_run.id run_id prior_run.attempt_number
              (prior_run.attempt_number + 1)))
          db₂

unfoldable pub reserve_retry : Db → Db → ℕ → ℕ → ℕ → Option ℕ → ℕ → ℕ → Outcome JobResult
reserve_retry reads now tenant job_id expected_attempt_number actor_id run_id audit_id =
    elim (check_retry reads tenant job_id expected_attempt_number) [
      | err error ↦ (err error, now)
      | ok (job, prior_run) ↦ elim (apply_retry tenant job prior_run actor_id run_id audit_id now) [
        | none ↦ (err invalid_state, now)
        | some db ↦ (
          ok (record {
            job = record job { status = queued };
            latest_run = next_run tenant job prior_run run_id;
            created = false;
          }),
          db,
        )
      ]
    ]

-- The arguments of `create_proposal`.
pub record ProposalRequest : Type 0 where
  pub job_id : ℕ
  pub action_type : String
  pub description : String
  pub risk_level : RiskLevel
  pub requires_approval : Bool

abbrev pub new_proposal : ℕ → ProposalRequest → ℕ → ActionProposal
new_proposal tenant request proposal_id = record {
  id = proposal_id;
  tenant_id = tenant;
  job_id = request.job_id;
  action_type = request.action_type;
  description = request.description;
  risk_level = request.risk_level;
  requires_approval = request.requires_approval;
  status =
      if request.requires_approval
      then ProposalStatus.awaiting_approval
      else ProposalStatus.approved;
}

unfoldable pub add_proposal : ℕ → ProposalRequest → ℕ → ℕ → Db → Option Db
add_proposal tenant request proposal_id audit_id db =
    and_then (insert_proposal (new_proposal tenant request proposal_id) db) λ db₁.
      insert_audit
        (audit_event audit_id tenant "action_proposal.created" "action_proposal" proposal_id none
          no_details)
        db₁

unfoldable pub create_proposal : Db → Db → ℕ → ProposalRequest → ℕ → ℕ → Outcome ActionProposal
create_proposal reads now tenant request proposal_id audit_id =
    elim (get_job reads tenant request.job_id) [
      | none ↦ (err not_found, now)
      | some _ ↦
          if is_high request.risk_level && not request.requires_approval
          then (err (invalid_state_transition "High-risk actions require explicit approval"), now)
          else elim (add_proposal tenant request proposal_id audit_id now) [
            | none ↦ (err conflict, now)
            | some db ↦ (ok (new_proposal tenant request proposal_id), db)
          ]
    ]

-- `ProposalStatus(decision.value)`
unfoldable pub decided_status : ApprovalDecisionValue → ProposalStatus
decided_status ApprovalDecisionValue.approved = ProposalStatus.approved
decided_status ApprovalDecisionValue.rejected = ProposalStatus.rejected

-- `f"action_proposal.{decision.value}"`
unfoldable pub decision_event : ApprovalDecisionValue → String
decision_event ApprovalDecisionValue.approved = "action_proposal.approved"
decision_event ApprovalDecisionValue.rejected = "action_proposal.rejected"

unfoldable pub is_awaiting : ProposalStatus → Bool
is_awaiting ProposalStatus.awaiting_approval = true
is_awaiting _ = false

abbrev pub decision_record :
    ℕ → ActionProposal → ApprovalDecisionValue → ℕ → Option String → ℕ → ApprovalDecision
decision_record tenant proposal decision decided_by reason decision_id = record {
  id = decision_id;
  tenant_id = tenant;
  proposal_id = proposal.id;
  decision = decision;
  decided_by = decided_by;
  reason = reason;
}

unfoldable pub add_decision : ApprovalDecision → ℕ → Db → Option Db
unfolding decided_status decision_event
add_decision decided audit_id db =
    and_then
      (insert_decision decided
        (update_proposal decided.proposal_id (decided_status decided.decision) db))
      λ db₁.
        insert_audit
          (audit_event audit_id decided.tenant_id (decision_event decided.decision)
            "action_proposal" decided.proposal_id (some decided.decided_by)
            (decision_details decided.id))
          db₁

abbrev pub finalized : ServiceError
finalized = invalid_state_transition "Proposal has already been finalized"

unfoldable pub decide_proposal :
    Db → Db → ℕ → ℕ → ApprovalDecisionValue → ℕ → Option String → ℕ → ℕ → Outcome ApprovalDecision
decide_proposal reads now tenant proposal_id decision decided_by reason decision_id audit_id =
    elim (get_proposal reads tenant proposal_id) [
      | none ↦ (err not_found, now)
      | some proposal ↦
          if not (is_awaiting proposal.status)
          then (err finalized, now)
          else (let decided =
                decision_record tenant proposal decision decided_by reason decision_id in
              elim (add_decision decided audit_id now) [
                | none ↦ (err finalized, now)
                | some db ↦ (ok decided, db)
              ])
    ]
