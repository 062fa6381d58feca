-- ===== src/Execution/Service/Proposals.antt =====
-- `create_proposal` and `decide_proposal` of growth_os/execution_service.py.
use Prim.Native.String.{String}
use growth_os.Prelude.{
  ℕ, ◌≡◌, sym, ap, ◌∙◌, ◌⊎◌, inl, inr, Bool, true, false, not, ◌||◌, ◌&&◌, Option, none, some, ◌∷◌,
  arith, ◌==◌, Within, Bool-cases, Option-cases, ok, err, subst, map,
}
use growth_os.Execution.Store.{
  ApprovalDecisionValue, ActionProposal, ApprovalDecision, Db, any, get_job, get_proposal, is_high,
  insert_proposal, insert_decision, admits_proposal, admits_decision, update_proposal,
}
use growth_os.Execution.Store.Rows.{
  and_left, and_right, not-true, nat_eq_sound, any_refuse, find_sound,
}
use growth_os.Execution.Store.Statements.{
  insert_proposal-some, insert_decision-some, insert_audit-some,
}
use growth_os.Execution.Service.{
  ServiceError, not_found, conflict, invalid_state_transition, ProposalRequest, new_proposal,
  add_proposal, create_proposal, decided_status, is_awaiting, decision_record, add_decision,
  finalized, decide_proposal,
}
use growth_os.Execution.Service.Reads.{and_then-some}
use growth_os.Execution.Service.Reviewed.{IsReviewed, added_proposal, decided, set_proposal}
use growth_os.Execution.Store.{AuditEvent, no_details, decision_details}
use growth_os.Execution.Service.{audit_event, decision_event}

abbrev add_event : AuditEvent → Db → Db
add_event event db = record db { audits = event ∷ db.audits }

abbrev pub proposal_event : ℕ → ℕ → ℕ → AuditEvent
proposal_event tenant proposal_id audit_id =
    audit_event audit_id tenant "action_proposal.created" "action_proposal" proposal_id none
      no_details

-- The state that `create_proposal` commits.
abbrev pub proposed_db : Db → ActionProposal → AuditEvent → Db
proposed_db now proposal event = record now {
  proposals = proposal ∷ now.proposals;
  audits = event ∷ now.audits;
}

pub add_proposal_sound :
    (tenant : ℕ) (request : ProposalRequest) (proposal_id audit_id : ℕ) (now db : Db)
    → add_proposal tenant request proposal_id audit_id now ≡ some db
    → (admits_proposal now (new_proposal tenant request proposal_id) ≡ true)
      × (proposed_db now
            (new_proposal tenant request proposal_id)
            (proposal_event tenant proposal_id audit_id)
          ≡ db)
unfolding add_proposal
add_proposal_sound tenant request proposal_id audit_id now db h =
    let proposal = new_proposal tenant request proposal_id in
    let event = proposal_event tenant proposal_id audit_id in
    let first = and_then-some (insert_proposal proposal now) _ db h in
    let added = insert_proposal-some now first.0 proposal first.1.0 in
    (added.0, ap (add_event event) added.1 ∙ (insert_audit-some first.0 db event first.1.1).1)

-- A call fails and leaves the database, or it reports and commits one proposal.
pub create_proposal_cases :
    (reads now : Db) (tenant : ℕ) (request : ProposalRequest) (proposal_id audit_id : ℕ)
    → ((e : ServiceError) × (create_proposal reads now tenant request proposal_id audit_id
          ≡ (err e, now)))
      ⊎ ((db : Db) × (((is_high request.risk_level && not request.requires_approval) ≡ false)
            × ((add_proposal tenant request proposal_id audit_id now ≡ some db)
                × (create_proposal reads now tenant request proposal_id audit_id
                    ≡ (ok (new_proposal tenant request proposal_id), db)))))
unfolding create_proposal
create_proposal_cases reads now tenant request proposal_id audit_id =
    elim (Option-cases (get_job reads tenant request.job_id)) [
      | inl absent ↦ inl (not_found, rw (create_proposal, absent))
      | inr (job, found) ↦
          elim (Bool-cases (is_high request.risk_level && not request.requires_approval)) [
            | inl unsafe ↦ inl (
              invalid_state_transition "High-risk actions require explicit approval",
              rw (create_proposal, found, unsafe),
            )
            | inr safe ↦
                elim (Option-cases (add_proposal tenant request proposal_id audit_id now)) [
                  | inl refused ↦ inl (conflict, rw (create_proposal, found, safe, refused))
                  | inr (db, committed) ↦
                      inr (db, (safe, (committed, rw (create_proposal, found, safe, committed))))
                ]
          ]
    ]

safe_asks : (risky asks : Bool) → (risky && not asks) ≡ false → (not risky || asks) ≡ true
safe_asks risky asks h = ground arith

-- An error and the same state, or one proposal that is safe.
abbrev FailsOrProposes : Db → Db → ℕ → ProposalRequest → ℕ → ℕ → Type 0
FailsOrProposes reads now tenant request proposal_id audit_id =
    ((e : ServiceError) × (create_proposal reads now tenant request proposal_id audit_id
        ≡ (err e, now)))
    ⊎ ((create_proposal reads now tenant request proposal_id audit_id ≡ (
      ok (new_proposal tenant request proposal_id),
      proposed_db now (new_proposal tenant request proposal_id)
          (proposal_event tenant proposal_id audit_id),
    ))
        × ((not (is_high request.risk_level) || request.requires_approval) ≡ true))

-- The state after a call is the old one or one with the two statements applied.
pub create_proposal-proposed_db :
    (reads now : Db) (tenant : ℕ) (request : ProposalRequest) (proposal_id audit_id : ℕ)
    → FailsOrProposes reads now tenant request proposal_id audit_id
create_proposal-proposed_db reads now tenant request proposal_id audit_id =
    elim (create_proposal_cases reads now tenant request proposal_id audit_id) [
      | inl failing ↦ inl failing
      | inr (db, (safe, (committed, answer))) ↦
          let effect = add_proposal_sound tenant request proposal_id audit_id now db committed in
          inr (
            answer ∙ ap (λ d. (ok (new_proposal tenant request proposal_id), d)) (sym effect.1),
            safe_asks (is_high request.risk_level) request.requires_approval safe,
          )
    ]

-- `create_proposal` keeps the proposals reviewed.
pub create_proposal-IsReviewed :
    (reads now : Db) (tenant : ℕ) (request : ProposalRequest) (proposal_id audit_id : ℕ)
    → IsReviewed now
    → IsReviewed (create_proposal reads now tenant request proposal_id audit_id).1
unfolding admits_proposal
create_proposal-IsReviewed reads now tenant request proposal_id audit_id c =
    elim (create_proposal_cases reads now tenant request proposal_id audit_id) [
      | inl (e, same) ↦ subst (λ o. IsReviewed o.1) (sym same) c
      | inr (db, (safe, (committed, answer))) ↦
          let effect = add_proposal_sound tenant request proposal_id audit_id now db committed in
          subst (λ o. IsReviewed o.1) (sym answer)
            (subst IsReviewed effect.1 (
              added_proposal now.proposals now.decisions tenant request proposal_id c
                (not-true _ (and_left _ _ effect.0))
                (safe_asks (is_high request.risk_level) request.requires_approval safe)))
    ]

abbrev decided_event : ApprovalDecision → ℕ → AuditEvent
decided_event d audit_id =
    audit_event audit_id d.tenant_id (decision_event d.decision) "action_proposal" d.proposal_id
      (some d.decided_by) (decision_details d.id)

-- The state that `decide_proposal` commits.
abbrev pub decided_db : Db → ApprovalDecision → ℕ → Db
decided_db now d audit_id = record now {
  proposals = map (set_proposal d.proposal_id (decided_status d.decision)) now.proposals;
  decisions = d ∷ now.decisions;
  audits = decided_event d audit_id ∷ now.audits;
}

add_decision_sound :
    (d : ApprovalDecision) (audit_id : ℕ) (now db : Db)
    → add_decision d audit_id now ≡ some db
    → (admits_decision (update_proposal d.proposal_id (decided_status d.decision) now) d ≡ true)
      × (decided_db now d audit_id ≡ db)
unfolding add_decision update_proposal
add_decision_sound d audit_id now db h =
    let event = decided_event d audit_id in
    let before = update_proposal d.proposal_id (decided_status d.decision) now in
    let first = and_then-some (insert_decision d before) _ db h in
    let added = insert_decision-some before first.0 d first.1.0 in
    (added.0, ap (add_event event) added.1 ∙ (insert_audit-some first.0 db event first.1.1).1)

-- A call fails and leaves the database, or it reports and commits one decision.
decide_proposal_cases :
    (reads now : Db) (tenant proposal_id : ℕ) (decision : ApprovalDecisionValue) (decided_by : ℕ)
    (reason : Option String) (decision_id audit_id : ℕ)
    → ((e : ServiceError) × (decide_proposal reads now tenant proposal_id decision decided_by reason
            decision_id audit_id
          ≡ (err e, now)))
      ⊎ ((p : ActionProposal) × ((db : Db) × ((get_proposal reads tenant proposal_id ≡ some p)
              × ((is_awaiting p.status ≡ true)
                  × ((add_decision
                          (decision_record tenant p decision decided_by reason decision_id)
                          audit_id
                          now
                        ≡ some db)
                      × (decide_proposal reads now tenant proposal_id decision decided_by reason
                            decision_id audit_id
                          ≡ (
                            ok (decision_record tenant p decision decided_by reason decision_id),
                            db,
                          )))))))
unfolding decide_proposal
decide_proposal_cases reads now tenant proposal_id decision decided_by reason decision_id audit_id =
    elim (Option-cases (get_proposal reads tenant proposal_id)) [
      | inl absent ↦ inl (not_found, rw (decide_proposal, absent))
      | inr (p, found) ↦ elim (Bool-cases (is_awaiting p.status)) [
        | inr done ↦ inl (finalized, rw (decide_proposal, found, done))
        | inl waits ↦
            let d = decision_record tenant p decision decided_by reason decision_id in
            elim (Option-cases (add_decision d audit_id now)) [
              | inl refused ↦ inl (finalized, rw (decide_proposal, found, waits, refused))
              | inr (db, committed) ↦ inr (
                p,
                (db, (found, (waits, (committed, rw (decide_proposal, found, waits, committed))))),
              )
            ]
      ]
    ]

-- An error and the same state, or one decision on a proposal that waited.
abbrev pub FailsOrDecides :
    Db → Db → ℕ → ℕ → ApprovalDecisionValue → ℕ → Option String → ℕ → ℕ → Type 0
FailsOrDecides reads now tenant proposal_id decision decided_by reason decision_id audit_id =
    ((e : ServiceError) × (decide_proposal reads now tenant proposal_id decision decided_by reason
          decision_id audit_id
        ≡ (err e, now)))
    ⊎ ((p : ActionProposal) × ((decide_proposal reads now tenant proposal_id decision decided_by
              reason decision_id audit_id
            ≡ (
              ok (decision_record tenant p decision decided_by reason decision_id),
              decided_db now (decision_record tenant p decision decided_by reason decision_id)
                  audit_id,
            ))
          × ((get_proposal reads tenant proposal_id ≡ some p) × (is_awaiting p.status ≡ true))))

pub decide_proposal-decided_db :
    (reads now : Db) (tenant proposal_id : ℕ) (decision : ApprovalDecisionValue) (decided_by : ℕ)
    (reason : Option String) (decision_id audit_id : ℕ)
    → FailsOrDecides reads now tenant proposal_id decision decided_by reason decision_id audit_id
decide_proposal-decided_db reads now tenant proposal_id decision decided_by reason decision_id
      audit_id =
    elim (decide_proposal_cases reads now tenant proposal_id decision decided_by reason decision_id
      audit_id) [
        | inl failing ↦ inl failing
        | inr (p, (db, (found, (waits, (committed, answer))))) ↦
            let d = decision_record tenant p decision decided_by reason decision_id in
            let effect = add_decision_sound d audit_id now db committed in
            inr (p, (answer ∙ ap (λ n. (ok d, n)) (sym effect.1), (found, waits)))
      ]

-- Where the proposal has a decision when the statements run, `decide_proposal` changes nothing,
-- even if it read the proposal before that decision.
pub decide_proposal_existing :
    (reads now : Db) (tenant proposal_id : ℕ) (decision : ApprovalDecisionValue) (decided_by : ℕ)
    (reason : Option String) (decision_id audit_id : ℕ) (earlier : ApprovalDecision)
    → Within earlier now.decisions
    → earlier.tenant_id ≡ tenant
    → earlier.proposal_id ≡ proposal_id
    → (e : ServiceError) × (decide_proposal reads now tenant proposal_id decision decided_by reason
          decision_id audit_id
        ≡ (err e, now))
unfolding admits_decision get_proposal update_proposal
decide_proposal_existing reads now tenant proposal_id decision decided_by reason decision_id
      audit_id earlier w own same =
    elim (decide_proposal_cases reads now tenant proposal_id decision decided_by reason decision_id
      audit_id) [
        | inl failing ↦ failing
        | inr (p, (db, (found, (waits, (committed, answer))))) ↦
            let d = decision_record tenant p decision decided_by reason decision_id in
            let effect = add_decision_sound d audit_id now db committed in
            let read =
              find_sound (λ q. q.id == proposal_id && q.tenant_id == tenant) p reads.proposals
                found in
            let is_read = nat_eq_sound (and_left (p.id == proposal_id) _ read.1) in
            let unique = not-true _ (
              and_left _ _
                (and_right (not (any (λ e. e.id == decision_id) now.decisions)) _ effect.0)) in
            let differs =
              any_refuse (λ e. e.tenant_id == tenant && e.proposal_id == p.id) earlier now.decisions
                unique w in
            ground arith
      ]

-- `decide_proposal` keeps the proposals reviewed, whatever its reads saw.
pub decide_proposal-IsReviewed :
    (reads now : Db) (tenant proposal_id : ℕ) (decision : ApprovalDecisionValue) (decided_by : ℕ)
    (reason : Option String) (decision_id audit_id : ℕ)
    → IsReviewed now
    → IsReviewed
        (decide_proposal reads now tenant proposal_id decision decided_by reason decision_id
          audit_id).1
unfolding admits_decision update_proposal
decide_proposal-IsReviewed reads now tenant proposal_id decision decided_by reason decision_id
      audit_id c =
    elim (decide_proposal_cases reads now tenant proposal_id decision decided_by reason decision_id
      audit_id) [
        | inl (e, same) ↦ subst (λ o. IsReviewed o.1) (sym same) c
        | inr (p, (db, (found, (waits, (committed, answer))))) ↦
            let d = decision_record tenant p decision decided_by reason decision_id in
            let effect = add_decision_sound d audit_id now db committed in
            let rest = and_right (not (any (λ e. e.id == decision_id) now.decisions)) _ effect.0 in
            subst (λ o. IsReviewed o.1) (sym answer)
              (subst IsReviewed effect.1 (
                decided now.proposals now.decisions d c (not-true _ (and_left _ _ rest)) (
                  and_right
                    (not (any (λ e. e.tenant_id == tenant && e.proposal_id == p.id) now.decisions))
                    _ rest)))
      ]
