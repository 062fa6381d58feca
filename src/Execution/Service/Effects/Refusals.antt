-- ===== src/Execution/Service/Effects/Refusals.antt =====
-- Why `create_proposal` of growth_os/execution_service.py fails.
use growth_os.Prelude.{
  ℕ, ◌≡◌, refl, sym, ap, ◌∙◌, ◌⊎◌, inl, inr, Bool, true, false, not, ◌&&◌, ◌||◌, Option, none, some,
  List, [], ◌∷◌, ◌==◌, Within, Bool-cases, Option-cases, Result, err, err_injective, arith,
}
use growth_os.Execution.Store.{
  ExecutionJob, ActionProposal, RiskLevel, AuditEvent, Db, admits_proposal, admits_audit, is_high,
  any, find, get_job, insert_proposal, insert_audit,
}
use growth_os.Execution.Store.Rows.{nat_eq_sound, any_sound, any_refuse}
use growth_os.Execution.Store.Statements.{insert_proposal-some}
use growth_os.Execution.Service.{
  ServiceError, not_found, conflict, invalid_state_transition, ProposalRequest, create_proposal,
  add_proposal, new_proposal, and_then,
}
use growth_os.Execution.Service.Reads.{not-false}
use growth_os.Execution.Service.Proposals.{proposal_event}

-- The row of a proposal, and its event, meet a constraint of the database: the identifier is taken,
-- the tenant has no such job or does not exist, or the event's identifier is taken.
abbrev IsConflict : Db → ℕ → ProposalRequest → ℕ → ℕ → Type 0
IsConflict now tenant request proposal_id audit_id =
    ((p : ActionProposal) × (Within p now.proposals × (p.id ≡ proposal_id)))
    ⊎ (((j : ExecutionJob)
          → Within j now.jobs
          → (j.id ≡ request.job_id) × (j.tenant_id ≡ tenant)
          → ⊥)
        ⊎ (((a : AuditEvent) × (Within a now.audits × (a.id ≡ audit_id)))
            ⊎ (Within tenant now.tenants → ⊥)))

-- Why `create_proposal` fails: there is no such job, the risk is high and needs no approval, or the
-- database refuses a row.
abbrev pub IsRefusal : Db → Db → ℕ → ProposalRequest → ℕ → ℕ → ServiceError → Type 0
IsRefusal reads now tenant request proposal_id audit_id e =
    ((e ≡ not_found)
      × ((j : ExecutionJob)
          → Within j reads.jobs
          → (j.id ≡ request.job_id) × (j.tenant_id ≡ tenant)
          → ⊥))
    ⊎ (((e ≡ invalid_state_transition "High-risk actions require explicit approval")
          × ((request.risk_level ≡ RiskLevel.high) × (request.requires_approval ≡ false)))
        ⊎ ((e ≡ conflict) × IsConflict now tenant request proposal_id audit_id))

pub and_then-none :
    {A B : Type 0} (o : Option A) (f : A → Option B)
    → and_then o f ≡ none
    → (o ≡ none) ⊎ ((a : A) × ((o ≡ some a) × (f a ≡ none)))
and_then-none none f h = inl refl
and_then-none (some a) f h = inr (a, (refl, h))

pub and_false : (a b : Bool) → (a && b) ≡ false → (a ≡ false) ⊎ (b ≡ false)
and_false true b h = inr h
and_false false b h = inl refl

pub no_job :
    (tenant job_id : ℕ) (js : List ExecutionJob)
    → any (λ j. j.id == job_id && j.tenant_id == tenant) js ≡ false
    → (j : ExecutionJob) → Within j js
    → (j.id ≡ job_id) × (j.tenant_id ≡ tenant)
    → ⊥
no_job tenant job_id js none_is j here (same_id, same_tenant) =
    let miss = any_refuse (λ j. j.id == job_id && j.tenant_id == tenant) j js none_is here in
    ground arith

pub find-none :
    {A : Type 0} (test : A → Bool) (xs : List A) → find test xs ≡ none → any test xs ≡ false
unfolding find any
find-none test [] h = refl
find-none test (x ∷ xs) h = elim (Bool-cases (test x)) [
  | inl hit ↦ cc (rw hit at h)
  | inr miss ↦ rw miss (find-none test xs (rw miss at h))
]

risky :
    (risk : RiskLevel) (asks : Bool)
    → (is_high risk && not asks) ≡ true
    → (risk ≡ RiskLevel.high) × (asks ≡ false)
unfolding is_high
risky RiskLevel.high false h = (refl, refl)
risky RiskLevel.high true h = cc
risky RiskLevel.read_only asks h = cc
risky RiskLevel.low asks h = cc
risky RiskLevel.medium asks h = cc

safe_refused : (risk asks : Bool) → (risk && not asks) ≡ false → (not risk || asks) ≡ false → ⊥
safe_refused risk asks safe unsafe = ground arith

proposal_refused :
    (now : Db) (tenant : ℕ) (request : ProposalRequest) (proposal_id audit_id : ℕ)
    → (is_high request.risk_level && not request.requires_approval) ≡ false
    → admits_proposal now (new_proposal tenant request proposal_id) ≡ false
    → IsConflict now tenant request proposal_id audit_id
unfolding admits_proposal
proposal_refused now tenant request proposal_id audit_id safe h = elim (and_false _ _ h) [
  | inl taken ↦
      let row = any_sound (λ q. q.id == proposal_id) now.proposals (not-false _ taken) in
      inl (row.0, (row.1.0, nat_eq_sound row.1.1))
  | inr rest ↦ elim (and_false _ _ rest) [
    | inl lost ↦ inr (inl (no_job tenant request.job_id now.jobs lost))
    | inr unsafe ↦
        absurd (safe_refused (is_high request.risk_level) request.requires_approval safe unsafe)
  ]
]

pub audit_refused :
    (db : Db) (a : AuditEvent)
    → admits_audit db a ≡ false
    → ((b : AuditEvent) × (Within b db.audits × (b.id ≡ a.id)))
      ⊎ (Within a.tenant_id db.tenants → ⊥)
unfolding admits_audit
audit_refused db a h = elim (and_false _ _ h) [
  | inl taken ↦
      let row = any_sound (λ b. b.id == a.id) db.audits (not-false _ taken) in
      inl (row.0, (row.1.0, nat_eq_sound row.1.1))
  | inr lost ↦ inr λ here.
      let miss = any_refuse (λ t. t == a.tenant_id) a.tenant_id db.tenants lost here in ground arith
]

add_proposal-none :
    (now : Db) (tenant : ℕ) (request : ProposalRequest) (proposal_id audit_id : ℕ)
    → (is_high request.risk_level && not request.requires_approval) ≡ false
    → add_proposal tenant request proposal_id audit_id now ≡ none
    → IsConflict now tenant request proposal_id audit_id
unfolding add_proposal insert_proposal insert_audit admits_audit
add_proposal-none now tenant request proposal_id audit_id safe h =
    let p = new_proposal tenant request proposal_id in
    elim (and_then-none (insert_proposal p now) _ h) [
      | inl refused ↦ elim (Bool-cases (admits_proposal now p)) [
        | inl fits ↦ cc (rw fits at refused)
        | inr bad ↦ proposal_refused now tenant request proposal_id audit_id safe bad
      ]
      | inr (db, (added, refused)) ↦
          let same = (insert_proposal-some now db p added).1 in
          elim (Bool-cases (admits_audit db (proposal_event tenant proposal_id audit_id))) [
            | inl fits ↦ cc (rw fits at refused)
            | inr bad ↦ inr (
                inr (
                  audit_refused now (proposal_event tenant proposal_id audit_id) (
                    ap (λ d. admits_audit d (proposal_event tenant proposal_id audit_id)) same
                    ∙ bad)))
          ]
    ]

pub failed :
    {A : Type 0} {e x : ServiceError} {now : Db} {o : Result ServiceError A × Db}
    → o ≡ (err x, now)
    → o ≡ (err e, now)
    → e ≡ x
failed a b = err_injective (ap (λ o. o.0) (sym b ∙ a))

pub create_proposal_refused :
    (reads now : Db) (tenant : ℕ) (request : ProposalRequest) (proposal_id audit_id : ℕ)
    (e : ServiceError)
    → create_proposal reads now tenant request proposal_id audit_id ≡ (err e, now)
    → IsRefusal reads now tenant request proposal_id audit_id e
unfolding create_proposal get_job
create_proposal_refused reads now tenant request proposal_id audit_id e h =
    elim (Option-cases (get_job reads tenant request.job_id)) [
      | inl absent ↦ inl (
        failed (rw (create_proposal, absent)) h,
        no_job tenant request.job_id reads.jobs (find-none _ reads.jobs absent),
      )
      | inr (job, found) ↦
          elim (Bool-cases (is_high request.risk_level && not request.requires_approval)) [
            | inl unsafe ↦
                inr (inl (failed (rw (create_proposal, found, unsafe)) h, risky _ _ unsafe))
            | inr safe ↦
                elim (Option-cases (add_proposal tenant request proposal_id audit_id now)) [
                  | inl refused ↦ inr (
                      inr (
                        failed (rw (create_proposal, found, safe, refused)) h,
                        add_proposal-none now tenant request proposal_id audit_id safe refused,
                      ))
                  | inr (db, committed) ↦ cc (rw (create_proposal, found, safe, committed) at h)
                ]
          ]
    ]
