-- ===== src/Execution/Tests.antt =====
-- The execution subsystem on concrete data: a job that is created, claimed, failed, retried, and a
-- proposal that is decided once.
use growth_os.Prelude.{
  All, length, ℕ, ◌≡◌, refl, subst, ◌↔◌, ◌⊎◌, map, inl, true, false, none, some, List, [], ◌∷◌, ok,
  err,
}
use growth_os.Text.{codes}
use growth_os.Execution.Status.{
  allowed_transitions, status_eq, ExecutionStatus, queued, running, awaiting_approval, approved,
  failed, succeeded, is_member, terminal_statuses, is_valid_transition, terminal_iff, History,
  created, moved, AfterApproval, History-AfterApproval,
}
use growth_os.Execution.Store.{
  admits_audit, admits_decision, admits_job, admits_proposal, admits_run, any,
  compare_and_set_job_status, compare_and_set_run_status, find, get_job, get_job_by_idempotency_key,
  get_proposal, get_workspace, hits_job, hits_run, insert_audit, insert_decision, insert_job,
  insert_proposal, insert_run, is_high, is_run_of, keep, latest_run, newer, newest, set_job,
  set_run, update_proposal, Db, ExecutionJob, ExecutionRun, ActionProposal, ApprovalDecision,
  RiskLevel, ProposalStatus, ApprovalDecisionValue,
}
use growth_os.Execution.Service.{
  JobResult, add_decision, add_job, add_proposal, apply_retry, apply_transition, check_retry,
  check_transition, decided_status, decision_event, get_job_and_run, idempotent_job_result,
  is_awaiting, losing_create, transitioned, winning_create, JobRequest, ProposalRequest,
  ServiceError, create_job, transition_job, reserve_retry, create_proposal, decide_proposal,
  new_job, first_run,
}
use growth_os.Execution.Service.Consistent.{IsConsistent}
use growth_os.Execution.Service.Reviewed.{IsReviewed}
use growth_os.Execution.Service.Effects.Moves.{IsMove, transition_job-IsMove}
use growth_os.Execution.Service.Effects.Retries.{IsRetry, reserve_retry-IsRetry}
use growth_os.Execution.Service.Effects.Creations.{IsEarlier, IsCreation, create_job-IsCreation}
use growth_os.Execution.Service.Effects.Hindrances.{IsHindered}
use growth_os.Execution.Service.Effects.Refusals.{IsRefusal}
use growth_os.Execution.Service.Effects.Proposals.{IsProposal, create_proposal-IsProposal}
use growth_os.Execution.Listing.Page.{IsListed, IsSelection, IsPage}
use growth_os.Execution.Service.Create.{
  created_db, created_event, created_result, create_job_existing, create_job-IsConsistent,
}
use growth_os.Execution.Service.Proposals.{decide_proposal_existing}
use growth_os.Execution.Listing.{owns_workspace, list_jobs}
use growth_os.Execution.Listing.Complete.{ListedRow, list_jobs_complete}
use growth_os.Execution.Listing.Sorting.{
  sort_runs, sort_runs_keeps, sort_runs_adds, sort_runs_newest,
}
use growth_os.Execution.Histories.{
  Call, create, transition, retry, propose, decide, commit, Commits, start, call,
  Commits-IsConsistent,
}

abbrev empty_db : Db
empty_db = record {
  tenants = 1 ∷ [];
  workspaces = record { id = 7; tenant_id = 1; name = codes "Main" } ∷ [];
  jobs = [];
  runs = [];
  proposals = [];
  decisions = [];
  audits = [];
}

abbrev request : JobRequest
request = record {
  workspace_id = 7;
  kind = "crawl";
  idempotency_key = "key-1";
  max_attempts = 2;
  retry_delay_seconds = 60;
}

abbrev proposal_request : ProposalRequest
proposal_request = record {
  job_id = 10;
  action_type = "publish";
  description = "Publish a page";
  risk_level = RiskLevel.high;
  requires_approval = true;
}

empty_db-IsConsistent : IsConsistent empty_db
empty_db-IsConsistent = record {
  tracked = λ j w. absurd w;
  settled = λ r w. absurd w;
  one_job = λ j k w. absurd w;
  one_run = λ r s w. absurd w;
  owned = λ r w. absurd w;
  contiguous = λ r n w. absurd w;
}

empty_db-IsReviewed : IsReviewed empty_db
empty_db-IsReviewed = record {
  one_proposal = λ p q w. absurd w;
  high_asks = λ p w. absurd w;
  approval_given = λ p w. absurd w;
  one_decision = λ d e w. absurd w;
}

abbrev job₁ : ExecutionJob
job₁ = record {
  id = 10;
  tenant_id = 1;
  workspace_id = 7;
  kind = "crawl";
  idempotency_key = "key-1";
  status = queued;
}

abbrev run_row : ℕ → ExecutionStatus → ℕ → ExecutionRun
run_row run_id status attempt = record {
  id = run_id;
  tenant_id = 1;
  job_id = 10;
  status = status;
  attempt_number = attempt;
  max_attempts = 2;
  retry_delay_seconds = 60;
  last_error_code = none;
}

-- The states that a creation, a claim, a failure and a retry leave, one after another.
abbrev db₁ : Db
db₁ = commit empty_db empty_db (create 1 request 10 20 30)

abbrev db₂ : Db
db₂ = commit db₁ db₁ (transition 1 10 queued running none 31)

abbrev db₃ : Db
db₃ = commit db₂ db₂ (transition 1 10 running failed (some 5) 32)

abbrev db₄ : Db
db₄ = commit db₃ db₃ (retry 1 10 1 none 21 33)

abbrev db₅ : Db
db₅ = commit db₄ db₄ (propose 1 proposal_request 40 34)

abbrev db₆ : Db
db₆ = commit db₅ db₅ (decide 1 40 ApprovalDecisionValue.approved 9 none 50 35)

abbrev statuses : List ExecutionRun → List (ℕ × ExecutionStatus)
statuses [] = []
statuses (r ∷ rs) = (r.attempt_number, r.status) ∷ statuses rs

abbrev proposal_states : List ActionProposal → List ProposalStatus
proposal_states [] = []
proposal_states (p ∷ ps) = p.status ∷ proposal_states ps

-- The state that a call leaves, computed.
run : Db → Db → Call → Db
unfolding reserve_retry check_retry get_job_and_run get_job find transition_job check_transition
    is_valid_transition create_job get_job_by_idempotency_key get_workspace winning_create add_job
    insert_job admits_job any insert_run add_decision add_proposal apply_retry apply_transition
    create_proposal decide_proposal decided_status decision_event idempotent_job_result is_awaiting
    losing_create transitioned allowed_transitions is_member status_eq admits_audit admits_decision
    admits_proposal admits_run compare_and_set_job_status compare_and_set_run_status get_proposal
    hits_job hits_run insert_audit insert_decision insert_proposal is_high is_run_of keep latest_run
    newer newest set_job set_run update_proposal commit
run reads now c = commit reads now c

abbrev state₁ : Db
state₁ = run empty_db empty_db (create 1 request 10 20 30)

abbrev state₂ : Db
state₂ = run state₁ state₁ (transition 1 10 queued running none 31)

abbrev state₃ : Db
state₃ = run state₂ state₂ (transition 1 10 running failed (some 5) 32)

abbrev state₄ : Db
state₄ = run state₃ state₃ (retry 1 10 1 none 21 33)

abbrev state₅ : Db
state₅ = run state₄ state₄ (propose 1 proposal_request 40 34)

abbrev state₆ : Db
state₆ = run state₅ state₅ (decide 1 40 ApprovalDecisionValue.approved 9 none 50 35)

run_statuses : statuses state₄.runs ≡ ((2, queued) ∷ (1, failed) ∷ [])
unfolding run
run_statuses = refl

-- A claim whose reads came before another claim changes nothing.
stale_transition : run state₁ state₂ (transition 1 10 queued running none 36) ≡ state₂
unfolding run
stale_transition = refl

-- A second creation with the key changes nothing.
repeated_create : run empty_db state₁ (create 1 request 11 22 37) ≡ state₁
unfolding run
repeated_create = refl

exhausted_retry : run state₄ state₄ (retry 1 10 2 none 23 38) ≡ state₄
unfolding run
exhausted_retry = refl

decided_states : proposal_states state₆.proposals ≡ (ProposalStatus.approved ∷ [])
unfolding run
decided_states = refl

second_decision :
    run state₅ state₆ (decide 1 40 ApprovalDecisionValue.rejected 9 none 51 39) ≡ state₆
unfolding run
second_decision = refl

terminal_iff_example :
    (is_member succeeded terminal_statuses ≡ true)
    ↔ ((t : ExecutionStatus) → is_valid_transition succeeded t ≡ false)
terminal_iff_example = terminal_iff succeeded

approved-History : History approved (awaiting_approval ∷ running ∷ queued ∷ [])
unfolding is_valid_transition
approved-History = moved approved (moved awaiting_approval (moved running created refl) refl) refl

History-AfterApproval_example : AfterApproval approved (awaiting_approval ∷ running ∷ queued ∷ [])
History-AfterApproval_example =
    History-AfterApproval approved (awaiting_approval ∷ running ∷ queued ∷ []) approved-History

-- Two workers claim the job with the reads of the same state; then the claimed run fails and is
-- retried.
claims : Commits empty_db (commit db₁ db₂ (transition 1 10 queued running none 36))
claims =
    let first = call (create 1 request 10 20 30) (start empty_db) (start empty_db) in
    call (transition 1 10 queued running none 36) first
      (call (transition 1 10 queued running none 31) (start db₁) (start db₁))

Commits-IsConsistent_example :
    IsConsistent (commit db₁ db₂ (transition 1 10 queued running none 36))
    × IsReviewed (commit db₁ db₂ (transition 1 10 queued running none 36))
Commits-IsConsistent_example =
    Commits-IsConsistent empty_db (commit db₁ db₂ (transition 1 10 queued running none 36)) claims
      empty_db-IsConsistent empty_db-IsReviewed

transition_job-IsMove_example :
    ((e : ServiceError) × (transition_job db₁ db₁ 1 10 queued running none 31 ≡ (err e, db₁)))
    ⊎ IsMove db₁ db₁ 1 10 queued running none 31
        (transition_job db₁ db₁ 1 10 queued running none 31)
transition_job-IsMove_example = transition_job-IsMove db₁ db₁ 1 10 queued running none 31

reserve_retry-IsRetry_example :
    ((e : ServiceError) × ((reserve_retry db₃ db₃ 1 10 1 none 21 33 ≡ (err e, db₃))
        × IsHindered db₃ db₃ 1 10 1 21 33 e))
    ⊎ IsRetry db₃ db₃ 1 10 1 none 21 33 (reserve_retry db₃ db₃ 1 10 1 none 21 33)
reserve_retry-IsRetry_example = reserve_retry-IsRetry db₃ db₃ 1 10 1 none 21 33

create_proposal-IsProposal_example :
    ((e : ServiceError) × ((create_proposal db₁ db₁ 1 proposal_request 40 34 ≡ (err e, db₁))
        × IsRefusal db₁ db₁ 1 proposal_request 40 34 e))
    ⊎ IsProposal db₁ 1 proposal_request 40 34 (create_proposal db₁ db₁ 1 proposal_request 40 34)
create_proposal-IsProposal_example = create_proposal-IsProposal db₁ db₁ 1 proposal_request 40 34

created_ok :
    (create_job empty_db empty_db 1 request 10 20 30).0 ≡ ok (created_result 1 request 10 20)
unfolding reserve_retry check_retry get_job_and_run get_job find transition_job check_transition
    is_valid_transition create_job get_job_by_idempotency_key get_workspace winning_create add_job
    insert_job admits_job any insert_run add_decision add_proposal apply_retry apply_transition
    create_proposal decide_proposal decided_status decision_event idempotent_job_result is_awaiting
    losing_create transitioned allowed_transitions is_member status_eq admits_audit admits_decision
    admits_proposal admits_run compare_and_set_job_status compare_and_set_run_status get_proposal
    hits_job hits_run insert_audit insert_decision insert_proposal is_high is_run_of keep latest_run
    newer newest set_job set_run update_proposal commit
created_ok = refl

create_job-IsCreation_example :
    (((create_job empty_db empty_db 1 request 10 20 30).1 ≡ empty_db)
      × (IsEarlier empty_db 1 request (created_result 1 request 10 20)
          ⊎ IsEarlier empty_db 1 request (created_result 1 request 10 20)))
    ⊎ IsCreation empty_db 1 request 10 20 30
        (created_result 1 request 10 20)
        (create_job empty_db empty_db 1 request 10 20 30).1
create_job-IsCreation_example =
    create_job-IsCreation empty_db empty_db 1 request 10 20 30 (created_result 1 request 10 20)
      created_ok

abbrev earlier_decision : ApprovalDecision
earlier_decision = record {
  id = 50;
  tenant_id = 1;
  proposal_id = 40;
  decision = ApprovalDecisionValue.approved;
  decided_by = 9;
  reason = none;
}

abbrev seeded : Db
seeded = record empty_db {
  jobs = job₁ ∷ [];
  runs = run_row 20 queued 1 ∷ [];
  decisions = earlier_decision ∷ [];
}

create_job_existing_example : (create_job empty_db seeded 1 request 11 22 37).1 ≡ seeded
create_job_existing_example =
    create_job_existing empty_db seeded 1 request 11 22 37 job₁ (inl refl) refl refl

decide_proposal_existing_example :
    (e : ServiceError) × (decide_proposal db₅ seeded 1 40 ApprovalDecisionValue.rejected 9 none 51
        39
      ≡ (err e, seeded))
decide_proposal_existing_example =
    decide_proposal_existing db₅ seeded 1 40 ApprovalDecisionValue.rejected 9 none 51 39
      earlier_decision (inl refl) refl refl

abbrev started : Db
started =
    created_db empty_db (new_job 1 request 10) (first_run 1 request 10 20) (created_event 1 10 30)

started_is : (create_job empty_db empty_db 1 request 10 20 30).1 ≡ started
unfolding reserve_retry check_retry get_job_and_run get_job find transition_job check_transition
    is_valid_transition create_job get_job_by_idempotency_key get_workspace winning_create add_job
    insert_job admits_job any insert_run add_decision add_proposal apply_retry apply_transition
    create_proposal decide_proposal decided_status decision_event idempotent_job_result is_awaiting
    losing_create transitioned allowed_transitions is_member status_eq admits_audit admits_decision
    admits_proposal admits_run compare_and_set_job_status compare_and_set_run_status get_proposal
    hits_job hits_run insert_audit insert_decision insert_proposal is_high is_run_of keep latest_run
    newer newest set_job set_run update_proposal commit
started_is = refl

started-IsConsistent : IsConsistent started
started-IsConsistent =
    subst IsConsistent started_is
      (create_job-IsConsistent empty_db empty_db 1 request 10 20 30 empty_db-IsConsistent)

owns_none : owns_workspace started 1 none ≡ ok tt
unfolding owns_workspace
owns_none = refl

list_jobs_complete_example :
    (selected : List ExecutionJob) × ((results : List JobResult) × ((list_jobs
            (λ js. js)
            sort_runs
            started
            1
            none
            none
            none
            20
            0
          ≡ ok (results, length selected))
        × (IsSelection (IsListed 1 none none none) started.jobs selected
            × (IsPage 20 0 selected (map (λ x. x.job) results)
                × All (ListedRow started 1) results))))
list_jobs_complete_example =
    list_jobs_complete sort_runs sort_runs_keeps sort_runs_adds sort_runs_newest started
      started-IsConsistent 1 (λ js. js) (λ js j w. w) none none none 20 0 owns_none
