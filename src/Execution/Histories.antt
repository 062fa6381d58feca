-- ===== src/Execution/Histories.antt =====
-- The transactions of growth_os/execution_service.py, one after another in the order of their
-- commits. A call read an earlier state of the database than the one its statements meet.
use Prim.Native.String.{String}
use growth_os.Prelude.{ℕ, ◌≡◌, refl, sym, ap, inl, inr, Option, ◌∷◌, Within, map, subst}
use growth_os.Execution.Status.{ExecutionStatus}
use growth_os.Execution.Store.{Db, ExecutionRun, ApprovalDecisionValue, set_run}
use growth_os.Execution.Store.Rows.{map-Within}
use growth_os.Execution.Store.Updates.{set_run_keys}
use growth_os.Execution.Service.{
  JobRequest, ProposalRequest, create_job, transition_job, reserve_retry, create_proposal,
  decide_proposal,
}
use growth_os.Execution.Service.Consistent.{IsConsistent, Persists, Persists-refl, Persists-trans}
use growth_os.Execution.Service.Reviewed.{IsReviewed}
use growth_os.Execution.Service.Transition.{transition_job-moved_db, transition_job-IsConsistent}
use growth_os.Execution.Service.Retry.{reserve_retry-retried_db, reserve_retry-IsConsistent}
use growth_os.Execution.Service.Create.{create_job_effect, create_job-IsConsistent}
use growth_os.Execution.Service.Proposals.{
  create_proposal-proposed_db, create_proposal-IsReviewed, decide_proposal-decided_db,
  decide_proposal-IsReviewed,
}

-- A call that changes the database, with its arguments and the identifiers that it draws.
pub data Call : Type 0 where
  create : ℕ → JobRequest → ℕ → ℕ → ℕ → Call
  transition : ℕ → ℕ → ExecutionStatus → ExecutionStatus → Option ℕ → ℕ → Call
  retry : ℕ → ℕ → ℕ → Option ℕ → ℕ → ℕ → Call
  propose : ℕ → ProposalRequest → ℕ → ℕ → Call
  decide : ℕ → ℕ → ApprovalDecisionValue → ℕ → Option String → ℕ → ℕ → Call

-- The state that a call leaves.
unfoldable pub commit : Db → Db → Call → Db
commit reads now (create tenant request job_id run_id audit_id) =
    (create_job reads now tenant request job_id run_id audit_id).1
commit reads now (transition tenant job_id expected target actor_id audit_id) =
    (transition_job reads now tenant job_id expected target actor_id audit_id).1
commit reads now (retry tenant job_id attempt actor_id run_id audit_id) =
    (reserve_retry reads now tenant job_id attempt actor_id run_id audit_id).1
commit reads now (propose tenant request proposal_id audit_id) =
    (create_proposal reads now tenant request proposal_id audit_id).1
commit reads now (decide tenant proposal_id decision decided_by reason decision_id audit_id) =
    (decide_proposal reads now tenant proposal_id decision decided_by reason decision_id audit_id).1

-- From the first state to the second by calls in some interleaving.
pub data Commits : Db → Db → Type 0 where
  start : (db : Db) → Commits db db
  call :
      {first reads now : Db} (c : Call)
      → Commits first reads
      → Commits reads now
      → Commits first (commit reads now c)

-- What a call keeps.
record Keeps (reads now after : Db) : Type 0 where
  consistent : Persists reads now → IsConsistent now → IsConsistent after
  reviewed : IsReviewed now → IsReviewed after
  persists : Persists now after

Persists-map :
    (now : Db) (tenant run_id : ℕ) (expected target : ExecutionStatus)
    → (after : Db) → after.runs ≡ map (set_run tenant run_id expected target) now.runs
    → Persists now after
unfolding Persists
Persists-map now tenant run_id expected target after e r w =
    let keys = set_run_keys tenant run_id expected target r in
    (
      set_run tenant run_id expected target r,
      (
        subst (Within (set_run tenant run_id expected target r)) (sym e)
            (map-Within (set_run tenant run_id expected target) r now.runs w),
        keys,
      ),
    )

Persists-add :
    (now after : Db) (run : ExecutionRun) → after.runs ≡ (run ∷ now.runs) → Persists now after
unfolding Persists
Persists-add now after run e r w =
    (r, (subst (Within r) (sym e) (inr w), (refl, (refl, (refl, refl)))))

Keeps-same : (reads now after : Db) → after ≡ now → Keeps reads now after
Keeps-same reads now after e =
    subst (Keeps reads now) (sym e)
      (record { consistent = λ p c. c; reviewed = λ c. c; persists = Persists-refl now })

Keeps-create :
    (reads now : Db) (tenant : ℕ) (request : JobRequest) (job_id run_id audit_id : ℕ)
    → Keeps reads now (create_job reads now tenant request job_id run_id audit_id).1
Keeps-create reads now tenant request job_id run_id audit_id =
    elim (create_job_effect reads now tenant request job_id run_id audit_id) [
      | inl same ↦ Keeps-same reads now _ same
      | inr same ↦ record {
        consistent =
            λ p c. create_job-IsConsistent reads now tenant request job_id run_id audit_id c;
        reviewed = λ c. subst IsReviewed (sym same) c;
        persists = Persists-add now _ _ (ap (λ d. d.runs) same);
      }
    ]

Keeps-transition :
    (reads now : Db) (tenant job_id : ℕ) (expected target : ExecutionStatus) (actor_id : Option ℕ)
    (audit_id : ℕ)
    → Keeps reads now (transition_job reads now tenant job_id expected target actor_id audit_id).1
Keeps-transition reads now tenant job_id expected target actor_id audit_id =
    elim (transition_job-moved_db reads now tenant job_id expected target actor_id audit_id) [
      | inl (e, same) ↦ Keeps-same reads now _ (ap (λ o. o.1) same)
      | inr (job, (run, (same, rest))) ↦ record {
        consistent =
            transition_job-IsConsistent reads now tenant job_id expected target actor_id audit_id;
        reviewed = λ c. subst (λ o. IsReviewed o.1) (sym same) c;
        persists = Persists-map now tenant run.id expected target _ (ap (λ o. o.1.runs) same);
      }
    ]

Keeps-retry :
    (reads now : Db) (tenant job_id attempt : ℕ) (actor_id : Option ℕ) (run_id audit_id : ℕ)
    → Keeps reads now (reserve_retry reads now tenant job_id attempt actor_id run_id audit_id).1
Keeps-retry reads now tenant job_id attempt actor_id run_id audit_id =
    elim (reserve_retry-retried_db reads now tenant job_id attempt actor_id run_id audit_id) [
      | inl (e, same) ↦ Keeps-same reads now _ (ap (λ o. o.1) same)
      | inr (job, (prior, (same, rest))) ↦ record {
        consistent =
            reserve_retry-IsConsistent reads now tenant job_id attempt actor_id run_id audit_id;
        reviewed = λ c. subst (λ o. IsReviewed o.1) (sym same) c;
        persists = Persists-add now _ _ (ap (λ o. o.1.runs) same);
      }
    ]

-- A call that leaves the jobs and the runs.
Persists-same : (now after : Db) → after.runs ≡ now.runs → Persists now after
unfolding Persists
Persists-same now after e r w = (r, (subst (Within r) (sym e) w, (refl, (refl, (refl, refl)))))

Keeps-propose :
    (reads now : Db) (tenant : ℕ) (request : ProposalRequest) (proposal_id audit_id : ℕ)
    → Keeps reads now (create_proposal reads now tenant request proposal_id audit_id).1
Keeps-propose reads now tenant request proposal_id audit_id =
    elim (create_proposal-proposed_db reads now tenant request proposal_id audit_id) [
      | inl (e, same) ↦ Keeps-same reads now _ (ap (λ o. o.1) same)
      | inr (same, rest) ↦ record {
        consistent = λ p c. subst (λ o. IsConsistent o.1) (sym same) c;
        reviewed = create_proposal-IsReviewed reads now tenant request proposal_id audit_id;
        persists = Persists-same now _ (ap (λ o. o.1.runs) same);
      }
    ]

Keeps-decide :
    (reads now : Db) (tenant proposal_id : ℕ) (decision : ApprovalDecisionValue) (decided_by : ℕ)
    (reason : Option String) (decision_id audit_id : ℕ)
    → Keeps reads now
        (decide_proposal reads now tenant proposal_id decision decided_by reason decision_id
          audit_id).1
Keeps-decide reads now tenant proposal_id decision decided_by reason decision_id audit_id =
    elim (decide_proposal-decided_db reads now tenant proposal_id decision decided_by reason
      decision_id audit_id) [
        | inl (e, same) ↦ Keeps-same reads now _ (ap (λ o. o.1) same)
        | inr (p, (same, rest)) ↦ record {
          consistent = λ q c. subst (λ o. IsConsistent o.1) (sym same) c;
          reviewed =
              decide_proposal-IsReviewed reads now tenant proposal_id decision decided_by reason
                decision_id audit_id;
          persists = Persists-same now _ (ap (λ o. o.1.runs) same);
        }
      ]

keeps : (reads now : Db) (c : Call) → Keeps reads now (commit reads now c)
unfolding commit
keeps reads now (create tenant request job_id run_id audit_id) =
    Keeps-create reads now tenant request job_id run_id audit_id
keeps reads now (transition tenant job_id expected target actor_id audit_id) =
    Keeps-transition reads now tenant job_id expected target actor_id audit_id
keeps reads now (retry tenant job_id attempt actor_id run_id audit_id) =
    Keeps-retry reads now tenant job_id attempt actor_id run_id audit_id
keeps reads now (propose tenant request proposal_id audit_id) =
    Keeps-propose reads now tenant request proposal_id audit_id
keeps reads now (decide tenant proposal_id decision decided_by reason decision_id audit_id) =
    Keeps-decide reads now tenant proposal_id decision decided_by reason decision_id audit_id

Commits-Persists : (first last : Db) → Commits first last → Persists first last
Commits-Persists _ _ (start db) = Persists-refl db
Commits-Persists _ _ (call {first} {reads} {now} c before between) =
    Persists-trans first reads (commit reads now c) (Commits-Persists first reads before) (
      Persists-trans reads now (commit reads now c) (Commits-Persists reads now between)
        ((keeps reads now c).persists))

-- Through every interleaving of calls, each with reads from any earlier state, the jobs and their
-- runs stay in agreement and the proposals stay reviewed.
pub Commits-IsConsistent :
    (first last : Db)
    → Commits first last
    → IsConsistent first
    → IsReviewed first
    → IsConsistent last × IsReviewed last
Commits-IsConsistent _ _ (start db) c v = (c, v)
Commits-IsConsistent _ _ (call {first} {reads} {now} a before between) c v =
    let early = Commits-IsConsistent first reads before c v in
    let late = Commits-IsConsistent reads now between early.0 early.1 in
    let kept = keeps reads now a in
    (kept.consistent (Commits-Persists reads now between) late.0, kept.reviewed late.1)
