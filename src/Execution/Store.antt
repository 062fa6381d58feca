-- ===== src/Execution/Store.antt =====
-- The execution tables of growth_os/db/models.py and the statements of
-- growth_os/execution_repository.py. An identifier is a number. An insertion is refused where a
-- key, a unique constraint, a foreign key or a check of the models is violated: `none` is the
-- `IntegrityError`. Rows stand in no particular order; `created_at` and `updated_at` are left out.
pub mod Rows
pub mod Newest
pub mod Statements
pub mod Updates
use Prim.Native.String.{String}
use text.Mathlib.Text.{◌==◌ as str_eq}
use growth_os.Prelude.{
  ℕ, ◌+◌, Bool, true, false, not, ◌&&◌, ◌||◌, Option, none, some, List, [], ◌∷◌, map, ltb, leb,
  ◌==◌, if◌then◌else◌,
}
use growth_os.Text.{Text}
use growth_os.Execution.Status.{ExecutionStatus, status_eq}

pub data RiskLevel : Type 0 where
  read_only low medium high : RiskLevel

pub data ProposalStatus : Type 0 where
  awaiting_approval approved rejected : ProposalStatus

pub data ApprovalDecisionValue : Type 0 where
  approved rejected : ApprovalDecisionValue

pub record Workspace : Type 0 where
  pub id : ℕ
  pub tenant_id : ℕ
  pub name : Text

pub record ExecutionJob : Type 0 where
  pub id : ℕ
  pub tenant_id : ℕ
  pub workspace_id : ℕ
  pub kind : String
  pub idempotency_key : String
  pub status : ExecutionStatus

pub record ExecutionRun : Type 0 where
  pub id : ℕ
  pub tenant_id : ℕ
  pub job_id : ℕ
  pub status : ExecutionStatus
  pub attempt_number : ℕ
  pub max_attempts : ℕ
  pub retry_delay_seconds : ℕ
  pub last_error_code : Option String

pub record ActionProposal : Type 0 where
  pub id : ℕ
  pub tenant_id : ℕ
  pub job_id : ℕ
  pub action_type : String
  pub description : String
  pub risk_level : RiskLevel
  pub requires_approval : Bool
  pub status : ProposalStatus

pub record ApprovalDecision : Type 0 where
  pub id : ℕ
  pub tenant_id : ℕ
  pub proposal_id : ℕ
  pub decision : ApprovalDecisionValue
  pub decided_by : ℕ
  pub reason : Option String

-- The dictionaries that the services write to `details`.
pub data AuditDetails : Type 0 where
  no_details : AuditDetails
  transition_details : ExecutionStatus → ExecutionStatus → ℕ → AuditDetails
  retry_details : ℕ → ℕ → ℕ → ℕ → AuditDetails
  decision_details : ℕ → AuditDetails
  field_details : ℕ → List String → AuditDetails

pub record AuditEvent : Type 0 where
  pub id : ℕ
  pub tenant_id : ℕ
  pub event_type : String
  pub resource_type : String
  pub resource_id : ℕ
  pub actor_id : Option ℕ
  pub details : AuditDetails

pub record Db : Type 0 where
  pub tenants : List ℕ
  pub workspaces : List Workspace
  pub jobs : List ExecutionJob
  pub runs : List ExecutionRun
  pub proposals : List ActionProposal
  pub decisions : List ApprovalDecision
  pub audits : List AuditEvent

unfoldable pub any : {A : Type 0} → (A → Bool) → List A → Bool
any test [] = false
any test (x ∷ xs) = test x || any test xs

-- `scalar(select(...).where(...))`
unfoldable pub find : {A : Type 0} → (A → Bool) → List A → Option A
find test [] = none
find test (x ∷ xs) = if test x then some x else find test xs

unfoldable pub keep : {A : Type 0} → (A → Bool) → List A → List A
keep test [] = []
keep test (x ∷ xs) = let rest = keep test xs in if test x then x ∷ rest else rest

-- `get_owned(ExecutionJob, ...)`
unfoldable pub get_job : Db → ℕ → ℕ → Option ExecutionJob
get_job db tenant job_id = find (λ j. j.id == job_id && j.tenant_id == tenant) db.jobs

-- `get_owned(ActionProposal, ...)`
unfoldable pub get_proposal : Db → ℕ → ℕ → Option ActionProposal
get_proposal db tenant proposal_id =
    find (λ p. p.id == proposal_id && p.tenant_id == tenant) db.proposals

-- `FoundationRepository.get_owned(Workspace, ...)`
unfoldable pub get_workspace : Db → ℕ → ℕ → Option Workspace
get_workspace db tenant workspace_id =
    find (λ w. w.id == workspace_id && w.tenant_id == tenant) db.workspaces

unfoldable pub get_job_by_idempotency_key : Db → ℕ → String → Option ExecutionJob
get_job_by_idempotency_key db tenant key =
    find (λ j. j.tenant_id == tenant && str_eq j.idempotency_key key) db.jobs

-- `order_by(attempt_number.desc()).limit(1)`
unfoldable pub newer : ExecutionRun → Option ExecutionRun → Option ExecutionRun
newer r none = some r
newer r (some s) = if ltb r.attempt_number s.attempt_number then some s else some r

unfoldable pub newest : List ExecutionRun → Option ExecutionRun
unfolding newer
newest [] = none
newest (r ∷ rs) = newer r (newest rs)

unfoldable pub is_run_of : ℕ → ℕ → ExecutionRun → Bool
is_run_of tenant job_id r = r.tenant_id == tenant && r.job_id == job_id

unfoldable pub latest_run : Db → ℕ → ℕ → Option ExecutionRun
latest_run db tenant job_id = newest (keep (is_run_of tenant job_id) db.runs)

-- The `WHERE` clause of `compare_and_set_job_status`, and the row that `SET` leaves.
unfoldable pub hits_job : ℕ → ℕ → ExecutionStatus → ExecutionJob → Bool
hits_job tenant job_id expected j =
    j.id == job_id && (j.tenant_id == tenant && status_eq j.status expected)

unfoldable pub set_job : ℕ → ℕ → ExecutionStatus → ExecutionStatus → ExecutionJob → ExecutionJob
set_job tenant job_id expected target j =
    if hits_job tenant job_id expected j then record j { status = target } else j

-- `none` where no row was updated: the method returns `False`.
unfoldable pub compare_and_set_job_status :
    ℕ → ℕ → ExecutionStatus → ExecutionStatus → Db → Option Db
compare_and_set_job_status tenant job_id expected target db =
    if any (hits_job tenant job_id expected) db.jobs
    then some (record db { jobs = map (set_job tenant job_id expected target) db.jobs })
    else none

unfoldable pub hits_run : ℕ → ℕ → ExecutionStatus → ExecutionRun → Bool
hits_run tenant run_id expected r =
    r.id == run_id && (r.tenant_id == tenant && status_eq r.status expected)

unfoldable pub set_run : ℕ → ℕ → ExecutionStatus → ExecutionStatus → ExecutionRun → ExecutionRun
set_run tenant run_id expected target r =
    if hits_run tenant run_id expected r then record r { status = target } else r

unfoldable pub compare_and_set_run_status :
    ℕ → ℕ → ExecutionStatus → ExecutionStatus → Db → Option Db
compare_and_set_run_status tenant run_id expected target db =
    if any (hits_run tenant run_id expected) db.runs
    then some (record db { runs = map (set_run tenant run_id expected target) db.runs })
    else none

-- Keys and constraints of `execution_jobs`.
unfoldable pub admits_job : Db → ExecutionJob → Bool
admits_job db j =
    not (any (λ k. k.id == j.id) db.jobs)
    && (not (
          any (λ k. k.tenant_id == j.tenant_id && str_eq k.idempotency_key j.idempotency_key)
            db.jobs)
        && any (λ w. w.id == j.workspace_id && w.tenant_id == j.tenant_id) db.workspaces)

unfoldable pub insert_job : ExecutionJob → Db → Option Db
insert_job j db = if admits_job db j then some (record db { jobs = j ∷ db.jobs }) else none

-- Keys, constraints and checks of `execution_runs`.
unfoldable pub admits_run : Db → ExecutionRun → Bool
admits_run db r =
    not (any (λ s. s.id == r.id) db.runs)
    && (not (
          any (λ s. is_run_of r.tenant_id r.job_id s && s.attempt_number == r.attempt_number)
            db.runs)
        && (any (λ j. j.id == r.job_id && j.tenant_id == r.tenant_id) db.jobs
            && (leb 1 r.attempt_number
                && (leb 1 r.max_attempts
                    && (leb r.max_attempts 10
                        && (leb r.attempt_number r.max_attempts
                            && leb r.retry_delay_seconds 86400))))))

unfoldable pub insert_run : ExecutionRun → Db → Option Db
insert_run r db = if admits_run db r then some (record db { runs = r ∷ db.runs }) else none

unfoldable pub is_high : RiskLevel → Bool
is_high high = true
is_high _ = false

-- Keys, constraints and the check of `action_proposals`.
unfoldable pub admits_proposal : Db → ActionProposal → Bool
unfolding is_high
admits_proposal db p =
    not (any (λ q. q.id == p.id) db.proposals)
    && (any (λ j. j.id == p.job_id && j.tenant_id == p.tenant_id) db.jobs
        && (not (is_high p.risk_level) || p.requires_approval))

unfoldable pub insert_proposal : ActionProposal → Db → Option Db
insert_proposal p db =
    if admits_proposal db p then some (record db { proposals = p ∷ db.proposals }) else none

-- The `UPDATE` that the session sends for the changed proposal.
unfoldable pub update_proposal : ℕ → ProposalStatus → Db → Db
update_proposal proposal_id status db = record db {
  proposals =
      map (λ p. if p.id == proposal_id then record p { status = status } else p) db.proposals;
}

-- Keys and constraints of `approval_decisions`.
unfoldable pub admits_decision : Db → ApprovalDecision → Bool
admits_decision db d =
    not (any (λ e. e.id == d.id) db.decisions)
    && (not (any (λ e. e.tenant_id == d.tenant_id && e.proposal_id == d.proposal_id) db.decisions)
        && any (λ p. p.id == d.proposal_id && p.tenant_id == d.tenant_id) db.proposals)

unfoldable pub insert_decision : ApprovalDecision → Db → Option Db
insert_decision d db =
    if admits_decision db d then some (record db { decisions = d ∷ db.decisions }) else none

-- The key and the foreign key of `audit_events`.
unfoldable pub admits_audit : Db → AuditEvent → Bool
admits_audit db a =
    not (any (λ b. b.id == a.id) db.audits) && any (λ t. t == a.tenant_id) db.tenants

unfoldable pub insert_audit : AuditEvent → Db → Option Db
insert_audit a db = if admits_audit db a then some (record db { audits = a ∷ db.audits }) else none
