-- ===== src/Execution/Service/Effects/Proposals.antt =====
-- What `create_proposal` of growth_os/execution_service.py commits, row by row.
use growth_os.Prelude.{
  ℕ, ◌≡◌, refl, sym, ap, ◌∙◌, ◌⊎◌, inl, inr, Bool, true, false, not, ◌&&◌, none, ◌∷◌, ◌==◌, Within,
  Bool-cases, Result, ok, err,
}
use growth_os.Execution.Store.{
  ExecutionJob, ActionProposal, ProposalStatus, RiskLevel, Db, no_details, admits_proposal, is_high,
  any,
}
use growth_os.Execution.Store.Rows.{and_left, and_right, nat_eq_sound, any_sound}
use growth_os.Execution.Service.{ServiceError, ProposalRequest, create_proposal, new_proposal}
use growth_os.Execution.Service.Effects.Refusals.{IsRefusal, create_proposal_refused}
use growth_os.Execution.Service.Proposals.{create_proposal_cases, add_proposal_sound}

-- The outcome of a proposal: its job is the tenant's, the row has the fields of the request and
-- awaits approval where it requires it, and else is approved; one of high risk awaits approval.
pub record IsProposal (now : Db) (tenant : ℕ) (request : ProposalRequest) (proposal_id audit_id : ℕ)
    (out : Result ServiceError ActionProposal × Db) : Type 0 where
  pub proposal : ActionProposal
  pub job_held :
      (j : ExecutionJob) × (Within j now.jobs × ((j.id ≡ request.job_id) × (j.tenant_id ≡ tenant)))
  pub keys_are :
      (proposal.id ≡ proposal_id)
      × ((proposal.tenant_id ≡ tenant) × (proposal.job_id ≡ request.job_id))
  pub texts_are :
      (proposal.action_type ≡ request.action_type) × (proposal.description ≡ request.description)
  pub risk_is :
      (proposal.risk_level ≡ request.risk_level)
      × (proposal.requires_approval ≡ request.requires_approval)
  pub status_is :
      ((request.requires_approval ≡ true) × (proposal.status ≡ ProposalStatus.awaiting_approval))
      ⊎ ((request.requires_approval ≡ false) × (proposal.status ≡ ProposalStatus.approved))
  pub is_safe :
      (proposal.risk_level ≡ RiskLevel.high → ⊥)
      ⊎ ((proposal.requires_approval ≡ true) × (proposal.status ≡ ProposalStatus.awaiting_approval))
  pub outcome : out ≡ (
    ok proposal,
    record now {
      proposals = proposal ∷ now.proposals;
      audits =
          record {
            id = audit_id;
            tenant_id = tenant;
            event_type = "action_proposal.created";
            resource_type = "action_proposal";
            resource_id = proposal_id;
            actor_id = none;
            details = no_details;
          }
          ∷ now.audits;
    },
  )

status_cases :
    (tenant : ℕ) (request : ProposalRequest) (proposal_id : ℕ)
    → ((request.requires_approval ≡ true)
        × ((new_proposal tenant request proposal_id).status ≡ ProposalStatus.awaiting_approval))
      ⊎ ((request.requires_approval ≡ false)
          × ((new_proposal tenant request proposal_id).status ≡ ProposalStatus.approved))
status_cases tenant request proposal_id = elim (Bool-cases request.requires_approval) [
  | inl asks ↦ inl (asks, rw asks)
  | inr free ↦ inr (free, rw free)
]

safe_cases :
    (risk : RiskLevel) (asks : Bool)
    → (is_high risk && not asks) ≡ false
    → (risk ≡ RiskLevel.high → ⊥) ⊎ (asks ≡ true)
unfolding is_high
safe_cases risk true h = inr refl
safe_cases RiskLevel.high false h = cc
safe_cases RiskLevel.read_only false h = inl (λ e. cc)
safe_cases RiskLevel.low false h = inl (λ e. cc)
safe_cases RiskLevel.medium false h = inl (λ e. cc)

-- `create_proposal` either fails and leaves the database as it is, with `not_found` where it read no
-- such job of the tenant, with the invalid transition where the risk is high and no approval is
-- required, or with a conflict where the proposal's or the event's identifier is taken or the job or
-- the tenant is no more; or the tenant has the job of the request and the call reports the proposal with the request's fields and commits exactly its row
-- and one audit event: the row awaits approval where the request requires it and is approved where
-- it does not, and a row of high risk requires approval and awaits it.
pub create_proposal-IsProposal :
    (reads now : Db) (tenant : ℕ) (request : ProposalRequest) (proposal_id audit_id : ℕ)
    → ((e : ServiceError) × ((create_proposal reads now tenant request proposal_id audit_id
            ≡ (err e, now))
          × IsRefusal reads now tenant request proposal_id audit_id e))
      ⊎ IsProposal now tenant request proposal_id audit_id
          (create_proposal reads now tenant request proposal_id audit_id)
unfolding admits_proposal
create_proposal-IsProposal reads now tenant request proposal_id audit_id =
    elim (create_proposal_cases reads now tenant request proposal_id audit_id) [
      | inl (e, failing) ↦ inl (
        e,
        (failing, create_proposal_refused reads now tenant request proposal_id audit_id e failing),
      )
      | inr (db, (safe, (committed, answer))) ↦
          let effect = add_proposal_sound tenant request proposal_id audit_id now db committed in
          let p = new_proposal tenant request proposal_id in
          let held =
            any_sound (λ j. j.id == request.job_id && j.tenant_id == tenant) now.jobs
              (and_left _ _
                (and_right (not (any (λ q. q.id == proposal_id) now.proposals)) _ effect.0)) in
          inr (record {
            proposal = p;
            job_held = (
              held.0,
              (
                held.1.0,
                (
                  nat_eq_sound (and_left (held.0.id == request.job_id) _ held.1.1),
                  nat_eq_sound (and_right (held.0.id == request.job_id) _ held.1.1),
                ),
              ),
            );
            keys_are = (refl, (refl, refl));
            texts_are = (refl, refl);
            risk_is = (refl, refl);
            status_is = status_cases tenant request proposal_id;
            is_safe = elim (safe_cases request.risk_level request.requires_approval safe) [
              | inl calm ↦ inl calm
              | inr asks ↦ inr (asks, rw asks)
            ];
            outcome = answer ∙ ap (λ d. (ok p, d)) (sym effect.1);
          })
    ]
