-- ===== src/Execution/Service/Reviewed.antt =====
-- The rows of `action_proposals` and `approval_decisions` between the transactions of
-- growth_os/execution_service.py, and the changes of `create_proposal` and `decide_proposal`.
use growth_os.Prelude.{
  ℕ, ◌≡◌, refl, sym, ap, ◌∙◌, ◌⊎◌, inl, inr, Bool, true, false, not, ◌||◌, ◌&&◌, List, ◌∷◌, arith,
  ◌==◌, if◌then◌else◌, Within, Bool-cases, map,
}
use growth_os.Execution.Store.{
  RiskLevel, high, ProposalStatus, ApprovalDecisionValue, ActionProposal, ApprovalDecision, Db, any,
  is_high,
}
use growth_os.Execution.Store.Rows.{
  and_left, and_right, nat_eq_sound, any_refuse, any_sound, Within-map,
}
use growth_os.Execution.Service.{ProposalRequest, new_proposal, decided_status}

-- What holds of `action_proposals` and `approval_decisions` between the transactions: identifiers
-- are not shared, a high risk asks for approval, where approval is asked for and given there is
-- the decision that gave it, and a proposal has at most one decision.
pub record Reviewed (proposals : List ActionProposal) (decisions : List ApprovalDecision)
    : Type 0 where
  pub one_proposal :
      (p q : ActionProposal) → Within p proposals → Within q proposals → p.id ≡ q.id → p ≡ q
  pub high_asks :
      (p : ActionProposal) → Within p proposals → p.risk_level ≡ high → p.requires_approval ≡ true
  pub approval_given :
      (p : ActionProposal)
      → Within p proposals
      → p.requires_approval ≡ true
      → p.status ≡ ProposalStatus.approved
      → (d : ApprovalDecision) × (Within d decisions
          × ((d.proposal_id ≡ p.id)
              × ((d.tenant_id ≡ p.tenant_id) × (d.decision ≡ ApprovalDecisionValue.approved))))
  pub one_decision :
      (d e : ApprovalDecision)
      → Within d decisions
      → Within e decisions
      → d.tenant_id ≡ e.tenant_id
      → d.proposal_id ≡ e.proposal_id
      → d ≡ e

abbrev pub IsReviewed : Db → Type 0
IsReviewed db = Reviewed db.proposals db.decisions

new_status :
    (asks : Bool)
    → asks ≡ true
    → (if asks then ProposalStatus.awaiting_approval else ProposalStatus.approved)
      ≡ ProposalStatus.approved
    → ⊥
new_status true h e = cc
new_status false h e = cc

asks_if_high :
    (risk : RiskLevel) (asks : Bool)
    → (not (is_high risk) || asks) ≡ true
    → risk ≡ high
    → asks ≡ true
unfolding is_high
asks_if_high risk asks h e = (rw e at h)

-- A new proposal that its constraints admit keeps the invariant.
pub added_proposal :
    (proposals : List ActionProposal) (decisions : List ApprovalDecision) (tenant : ℕ)
    (request : ProposalRequest) (proposal_id : ℕ)
    → Reviewed proposals decisions
    → any (λ q. q.id == proposal_id) proposals ≡ false
    → (not (is_high request.risk_level) || request.requires_approval) ≡ true
    → Reviewed (new_proposal tenant request proposal_id ∷ proposals) decisions
added_proposal proposals decisions tenant request proposal_id c fresh asks =
    let clash : (u : ActionProposal) → Within u proposals → u.id ≡ proposal_id → ⊥ = λ u w same.
      let differs = any_refuse (λ q. q.id == proposal_id) u proposals fresh w in ground arith in
    record {
      one_proposal = λ p q wp wq e. elim wp [
        | inl ep ↦ elim wq [
          | inl eq ↦ ep ∙ sym eq
          | inr mq ↦ absurd (clash q mq (sym e ∙ ap (λ x. x.id) ep))
        ]
        | inr mp ↦ elim wq [
          | inl eq ↦ absurd (clash p mp (e ∙ ap (λ x. x.id) eq))
          | inr mq ↦ c.one_proposal p q mp mq e
        ]
      ];
      high_asks = λ p w is. elim w [
        | inl e ↦
            ap (λ x. x.requires_approval) e
            ∙ asks_if_high request.risk_level request.requires_approval asks
                (sym (ap (λ x. x.risk_level) e) ∙ is)
        | inr m ↦ c.high_asks p m is
      ];
      approval_given = λ p w ask given. elim w [
        | inl e ↦ absurd (
            new_status request.requires_approval (sym (ap (λ x. x.requires_approval) e) ∙ ask)
              (sym (ap (λ x. x.status) e) ∙ given))
        | inr m ↦ c.approval_given p m ask given
      ];
      one_decision = c.one_decision;
    }

-- The row that `update_proposal` leaves.
abbrev pub set_proposal : ℕ → ProposalStatus → ActionProposal → ActionProposal
set_proposal proposal_id status p = if p.id == proposal_id then record p { status = status } else p

set_proposal_keys :
    (proposal_id : ℕ) (status : ProposalStatus) (p : ActionProposal)
    → ((set_proposal proposal_id status p).id ≡ p.id)
      × (((set_proposal proposal_id status p).tenant_id ≡ p.tenant_id)
          × (((set_proposal proposal_id status p).risk_level ≡ p.risk_level)
              × ((set_proposal proposal_id status p).requires_approval ≡ p.requires_approval)))
set_proposal_keys proposal_id status p = elim (Bool-cases (p.id == proposal_id)) [
  | inl hit ↦ rw hit (refl, (refl, (refl, refl)))
  | inr miss ↦ rw miss (refl, (refl, (refl, refl)))
]

set_proposal_cases :
    (proposal_id : ℕ) (status : ProposalStatus) (p : ActionProposal)
    → ((p.id ≡ proposal_id) × ((set_proposal proposal_id status p).status ≡ status))
      ⊎ (set_proposal proposal_id status p ≡ p)
set_proposal_cases proposal_id status p = elim (Bool-cases (p.id == proposal_id)) [
  | inl hit ↦ inl (nat_eq_sound hit, rw hit)
  | inr miss ↦ inr (rw miss)
]

decided_approved :
    (decision : ApprovalDecisionValue)
    → decided_status decision ≡ ProposalStatus.approved
    → decision ≡ ApprovalDecisionValue.approved
unfolding decided_status
decided_approved ApprovalDecisionValue.approved h = refl
decided_approved ApprovalDecisionValue.rejected h = cc

-- A decision that its constraints admit, with the change of the proposal, keeps the invariant.
pub decided :
    (proposals : List ActionProposal) (decisions : List ApprovalDecision) (d : ApprovalDecision)
    → Reviewed proposals decisions
    → any (λ e. e.tenant_id == d.tenant_id && e.proposal_id == d.proposal_id) decisions ≡ false
    → any
        (λ p. p.id == d.proposal_id && p.tenant_id == d.tenant_id)
        (map (set_proposal d.proposal_id (decided_status d.decision)) proposals)
      ≡ true
    → Reviewed
        (map (set_proposal d.proposal_id (decided_status d.decision)) proposals)
        (d ∷ decisions)
decided proposals decisions d c fresh present =
    let status = decided_status d.decision in
    let set = set_proposal d.proposal_id status in
    let clash : (u : ApprovalDecision)
        → Within u decisions
        → u.tenant_id ≡ d.tenant_id
        → u.proposal_id ≡ d.proposal_id
        → ⊥ =
      λ u w same_tenant same_id.
        let differs =
          any_refuse (λ e. e.tenant_id == d.tenant_id && e.proposal_id == d.proposal_id) u decisions
            fresh w in
        ground arith in
    let found =
      any_sound (λ p. p.id == d.proposal_id && p.tenant_id == d.tenant_id) (map set proposals)
        present in
    let source = Within-map set found.0 proposals found.1.0 in
    let found_id = nat_eq_sound (and_left (found.0.id == d.proposal_id) _ found.1.1) in
    let found_tenant = nat_eq_sound (and_right (found.0.id == d.proposal_id) _ found.1.1) in
    let source_keys = set_proposal_keys d.proposal_id status source.0 in
    let source_id : source.0.id ≡ d.proposal_id =
      sym source_keys.0 ∙ sym (ap (λ x. x.id) source.1.1) ∙ found_id in
    let source_tenant : source.0.tenant_id ≡ d.tenant_id =
      sym source_keys.1.0 ∙ sym (ap (λ x. x.tenant_id) source.1.1) ∙ found_tenant in
    record {
      one_proposal = λ p q wp wq e.
          let old = Within-map set p proposals wp in
          let other = Within-map set q proposals wq in
          let old_id = ap (λ x. x.id) old.1.1 ∙ (set_proposal_keys d.proposal_id status old.0).0 in
          let other_id =
            ap (λ x. x.id) other.1.1 ∙ (set_proposal_keys d.proposal_id status other.0).0 in
          old.1.1
          ∙ ap set (c.one_proposal old.0 other.0 old.1.0 other.1.0 (sym old_id ∙ e ∙ other_id))
          ∙ sym other.1.1;
      high_asks = λ p w is.
          let old = Within-map set p proposals w in
          let keys = set_proposal_keys d.proposal_id status old.0 in
          ap (λ x. x.requires_approval) old.1.1
          ∙ keys.1.1.1
          ∙ c.high_asks old.0 old.1.0 (sym keys.1.1.0 ∙ sym (ap (λ x. x.risk_level) old.1.1) ∙ is);
      approval_given = λ p w ask given.
          let old = Within-map set p proposals w in
          let keys = set_proposal_keys d.proposal_id status old.0 in
          let same_id = ap (λ x. x.id) old.1.1 ∙ keys.0 in
          let same_tenant = ap (λ x. x.tenant_id) old.1.1 ∙ keys.1.0 in
          elim (set_proposal_cases d.proposal_id status old.0) [
            | inl (hit, now_status) ↦
                let same = c.one_proposal old.0 source.0 old.1.0 source.1.0 (hit ∙ sym source_id) in
                (
                  d,
                  (
                    inl refl,
                    (
                      sym hit ∙ sym same_id,
                      (
                        sym source_tenant ∙ sym (ap (λ x. x.tenant_id) same) ∙ sym same_tenant,
                        decided_approved d.decision
                            (sym now_status ∙ sym (ap (λ x. x.status) old.1.1) ∙ given),
                      ),
                    ),
                  ),
                )
            | inr miss ↦
                let kept = old.1.1 ∙ miss in
                let given_by =
                  c.approval_given old.0 old.1.0 (sym (ap (λ x. x.requires_approval) kept) ∙ ask)
                    (sym (ap (λ x. x.status) kept) ∙ given) in
                (
                  given_by.0,
                  (
                    inr given_by.1.0,
                    (
                      given_by.1.1.0 ∙ sym same_id,
                      (given_by.1.1.1.0 ∙ sym same_tenant, given_by.1.1.1.1),
                    ),
                  ),
                )
          ];
      one_decision = λ u v wu wv e f. elim wu [
        | inl eu ↦ elim wv [
          | inl ev ↦ eu ∙ sym ev
          | inr mv ↦
              absurd
                (clash v mv (sym e ∙ ap (λ x. x.tenant_id) eu) (sym f ∙ ap (λ x. x.proposal_id) eu))
        ]
        | inr mu ↦ elim wv [
          | inl ev ↦
              absurd (clash u mu (e ∙ ap (λ x. x.tenant_id) ev) (f ∙ ap (λ x. x.proposal_id) ev))
          | inr mv ↦ c.one_decision u v mu mv e f
        ]
      ];
    }
