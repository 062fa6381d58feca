-- ===== src/Execution/Store/Statements.antt =====
-- The statements of growth_os/execution_repository.py where they succeed.
use growth_os.Prelude.{
  ℕ, ◌≡◌, refl, Bool, true, false, some, none, map, if◌then◌else◌, some_injective, ◌∷◌,
}
use growth_os.Execution.Status.{ExecutionStatus}
use growth_os.Execution.Store.{
  ExecutionJob, ExecutionRun, ActionProposal, ApprovalDecision, AuditEvent, Db, any, hits_job,
  set_job, hits_run, set_run, compare_and_set_job_status, compare_and_set_run_status, insert_job,
  insert_run, insert_proposal, insert_decision, insert_audit, admits_job, admits_run,
  admits_proposal, admits_decision, admits_audit,
}

-- What a guarded statement commits.
guarded :
    {A : Type 0} (test : Bool) (a b : A)
    → (if test then some a else none) ≡ some b
    → (test ≡ true) × (a ≡ b)
guarded true a b h = (refl, some_injective h)
guarded false a b h = cc

module _ (tenant row_id : ℕ) (expected target : ExecutionStatus) (db after : Db) where
  pub compare_and_set_job_status-some :
      compare_and_set_job_status tenant row_id expected target db ≡ some after
      → (any (hits_job tenant row_id expected) db.jobs ≡ true)
        × (record db { jobs = map (set_job tenant row_id expected target) db.jobs } ≡ after)
  unfolding compare_and_set_job_status
  compare_and_set_job_status-some h = guarded _ _ after h

  pub compare_and_set_run_status-some :
      compare_and_set_run_status tenant row_id expected target db ≡ some after
      → (any (hits_run tenant row_id expected) db.runs ≡ true)
        × (record db { runs = map (set_run tenant row_id expected target) db.runs } ≡ after)
  unfolding compare_and_set_run_status
  compare_and_set_run_status-some h = guarded _ _ after h

module _ (db after : Db) where
  pub insert_job-some :
      (j : ExecutionJob)
      → insert_job j db ≡ some after
      → (admits_job db j ≡ true) × (record db { jobs = j ∷ db.jobs } ≡ after)
  unfolding insert_job
  insert_job-some j h = guarded _ _ after h

  pub insert_run-some :
      (r : ExecutionRun)
      → insert_run r db ≡ some after
      → (admits_run db r ≡ true) × (record db { runs = r ∷ db.runs } ≡ after)
  unfolding insert_run
  insert_run-some r h = guarded _ _ after h

  pub insert_proposal-some :
      (p : ActionProposal)
      → insert_proposal p db ≡ some after
      → (admits_proposal db p ≡ true) × (record db { proposals = p ∷ db.proposals } ≡ after)
  unfolding insert_proposal
  insert_proposal-some p h = guarded _ _ after h

  pub insert_decision-some :
      (d : ApprovalDecision)
      → insert_decision d db ≡ some after
      → (admits_decision db d ≡ true) × (record db { decisions = d ∷ db.decisions } ≡ after)
  unfolding insert_decision
  insert_decision-some d h = guarded _ _ after h

  pub insert_audit-some :
      (a : AuditEvent)
      → insert_audit a db ≡ some after
      → (admits_audit db a ≡ true) × (record db { audits = a ∷ db.audits } ≡ after)
  unfolding insert_audit
  insert_audit-some a h = guarded _ _ after h
