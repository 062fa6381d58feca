-- ===== src/Execution/Service/Transition.antt =====
-- `transition_job` of growth_os/execution_service.py.
use growth_os.Prelude.{
  ℕ, ◌≡◌, sym, ap, ◌∙◌, ◌⊎◌, inl, inr, true, Option, some, ◌∷◌, map, arith, Option-cases, ok, err,
  Result-cases, subst,
}
use growth_os.Execution.Status.{ExecutionStatus, failed, is_valid_transition}
use growth_os.Execution.Store.{
  ExecutionJob, ExecutionRun, Db, AuditEvent, transition_details, any, hits_job, set_job, hits_run,
  set_run, compare_and_set_job_status, compare_and_set_run_status,
}
use growth_os.Execution.Store.Rows.{any_sound}
use growth_os.Execution.Store.Updates.{hits_run_sound}
use growth_os.Execution.Store.Statements.{
  compare_and_set_job_status-some, compare_and_set_run_status-some, insert_audit-some,
}
use growth_os.Execution.Service.{
  ServiceError, invalid_state, check_transition, apply_transition, transitioned, transition_job,
  audit_event,
}
use growth_os.Execution.Service.Consistent.{IsConsistent, Persists}
use growth_os.Execution.Service.Moved.{moved-Consistent}
use growth_os.Execution.Service.Reads.{and_then-some, check_transition_sound}

-- The event that `transition_job` records.
abbrev pub transition_event :
    ℕ → ℕ → ℕ → ExecutionStatus → ExecutionStatus → Option ℕ → ℕ → AuditEvent
transition_event tenant job_id run_id expected target actor_id audit_id =
    audit_event audit_id tenant "execution_job.transitioned" "execution_job" job_id actor_id
      (transition_details expected target run_id)

abbrev pub add_event : AuditEvent → Db → Db
add_event event db = record db { audits = event ∷ db.audits }

abbrev move_runs : ℕ → ℕ → ExecutionStatus → ExecutionStatus → Db → Db
move_runs tenant run_id expected target db = record db {
  runs = map (set_run tenant run_id expected target) db.runs;
}

-- The state that `transition_job` commits.
abbrev pub moved_db : Db → ℕ → ℕ → ℕ → ExecutionStatus → ExecutionStatus → AuditEvent → Db
moved_db now tenant job_id run_id expected target event = record now {
  jobs = map (set_job tenant job_id expected target) now.jobs;
  runs = map (set_run tenant run_id expected target) now.runs;
  audits = event ∷ now.audits;
}

pub apply_transition_sound :
    (tenant : ℕ) (job : ExecutionJob) (run : ExecutionRun) (expected target : ExecutionStatus)
    (actor_id : Option ℕ) (audit_id : ℕ) (now db : Db)
    → apply_transition tenant job run expected target actor_id audit_id now ≡ some db
    → (any (hits_job tenant job.id expected) now.jobs ≡ true)
      × ((any (hits_run tenant run.id expected) now.runs ≡ true)
          × (moved_db now tenant job.id run.id expected target
                (transition_event tenant job.id run.id expected target actor_id audit_id)
              ≡ db))
unfolding apply_transition
apply_transition_sound tenant job run expected target actor_id audit_id now db h =
    let event = transition_event tenant job.id run.id expected target actor_id audit_id in
    let first =
      and_then-some (compare_and_set_job_status tenant job.id expected target now) _ db h in
    let job_hit =
      compare_and_set_job_status-some tenant job.id expected target now first.0 first.1.0 in
    let second =
      and_then-some (compare_and_set_run_status tenant run.id expected target first.0) _ db
        first.1.1 in
    let run_hit =
      compare_and_set_run_status-some tenant run.id expected target first.0 second.0 second.1.0 in
    let last = (insert_audit-some second.0 db _ second.1.1).1 in
    (
      job_hit.0,
      (
        (ap (λ d. any (hits_run tenant run.id expected) d.runs) job_hit.1 ∙ run_hit.0),
        (ap (λ d. add_event event (move_runs tenant run.id expected target d)) job_hit.1
            ∙ ap (add_event event) run_hit.1
            ∙ last),
      ),
    )

-- A call fails and leaves the database, or it reports and commits one move.
pub transition_job_cases :
    (reads now : Db) (tenant job_id : ℕ) (expected target : ExecutionStatus) (actor_id : Option ℕ)
    (audit_id : ℕ)
    → ((e : ServiceError) × (transition_job reads now tenant job_id expected target actor_id
            audit_id
          ≡ (err e, now)))
      ⊎ ((job : ExecutionJob) × ((run : ExecutionRun) × ((db : Db) × ((check_transition reads tenant
                    job_id expected target
                  ≡ ok (job, run))
                × ((apply_transition tenant job run expected target actor_id audit_id now ≡ some db)
                    × (transition_job reads now tenant job_id expected target actor_id audit_id
                        ≡ (ok (transitioned job run target), db)))))))
unfolding transition_job
transition_job_cases reads now tenant job_id expected target actor_id audit_id =
    elim (Result-cases (check_transition reads tenant job_id expected target)) [
      | inr (e, failing) ↦ inl (e, rw (transition_job, failing))
      | inl ((job, run), checked) ↦
          elim (Option-cases
            (apply_transition tenant job run expected target actor_id audit_id now)) [
              | inl lost ↦ inl (invalid_state, rw (transition_job, checked, lost))
              | inr (db, committed) ↦ inr (
                job,
                (run, (db, (checked, (committed, rw (transition_job, checked, committed))))),
              )
            ]
    ]

-- An error and the same state, or one move that the table allows.
abbrev FailsOrMoves : Db → Db → ℕ → ℕ → ExecutionStatus → ExecutionStatus → Option ℕ → ℕ → Type 0
FailsOrMoves reads now tenant job_id expected target actor_id audit_id =
    ((e : ServiceError) × (transition_job reads now tenant job_id expected target actor_id audit_id
        ≡ (err e, now)))
    ⊎ ((job : ExecutionJob) × ((run : ExecutionRun) × ((transition_job reads now tenant job_id
                expected target actor_id audit_id
              ≡ (
                ok (transitioned job run target),
                moved_db now tenant job_id run.id expected target
                    (transition_event tenant job_id run.id expected target actor_id audit_id),
              ))
            × ((is_valid_transition expected target ≡ true)
                × ((any (hits_job tenant job_id expected) now.jobs ≡ true)
                    × (any (hits_run tenant run.id expected) now.runs ≡ true))))))

-- The state after a call is the old one or one with the two statements applied.
pub transition_job-moved_db :
    (reads now : Db) (tenant job_id : ℕ) (expected target : ExecutionStatus) (actor_id : Option ℕ)
    (audit_id : ℕ)
    → FailsOrMoves reads now tenant job_id expected target actor_id audit_id
transition_job-moved_db reads now tenant job_id expected target actor_id audit_id =
    elim (transition_job_cases reads now tenant job_id expected target actor_id audit_id) [
      | inl failing ↦ inl failing
      | inr (job, (run, (db, (checked, (committed, result))))) ↦
          let sound = check_transition_sound reads tenant job_id expected target job run checked in
          let same = sound.1.0.job_id_is in
          let effect =
            apply_transition_sound tenant job run expected target actor_id audit_id now db
              committed in
          inr (
            job,
            (
              run,
              (
                result
                    ∙ ap (λ d. (ok (transitioned job run target), d))
                        (sym effect.1.1
                          ∙ ap
                              (λ n. moved_db now tenant n run.id expected target (
                                transition_event tenant n run.id expected target actor_id audit_id))
                              same),
                (
                  sound.0,
                  (
                    ap (λ n. any (hits_job tenant n expected) now.jobs) (sym same) ∙ effect.0,
                    effect.1.0,
                  ),
                ),
              ),
            ),
          )
    ]

valid_not_failed :
    (expected target : ExecutionStatus)
    → is_valid_transition expected target ≡ true
    → expected ≡ failed
    → ⊥
unfolding is_valid_transition
valid_not_failed expected target valid e = ground arith

-- Whatever other transactions committed between its reads and its statements, as long as no run
-- was lost, `transition_job` keeps the rows in agreement.
pub transition_job-IsConsistent :
    (reads now : Db) (tenant job_id : ℕ) (expected target : ExecutionStatus) (actor_id : Option ℕ)
    (audit_id : ℕ)
    → Persists reads now
    → IsConsistent now
    → IsConsistent (transition_job reads now tenant job_id expected target actor_id audit_id).1
unfolding Persists
transition_job-IsConsistent reads now tenant job_id expected target actor_id audit_id kept c =
    elim (transition_job_cases reads now tenant job_id expected target actor_id audit_id) [
      | inl (e, same) ↦ subst (λ o. IsConsistent o.1) (sym same) c
      | inr (job, (run, (db, (checked, (committed, result))))) ↦
          let sound = check_transition_sound reads tenant job_id expected target job run checked in
          let effect =
            apply_transition_sound tenant job run expected target actor_id audit_id now db
              committed in
          let row = any_sound (hits_run tenant run.id expected) now.runs effect.1.0 in
          let old = kept run sound.1.0.run_read in
          let same =
            c.one_run row.0 old.0 row.1.0 old.1.0
              ((hits_run_sound tenant run.id expected row.0 row.1.1).0 ∙ sym old.1.1.0) in
          let of_job = ap (λ r. r.job_id) same ∙ old.1.1.1.1.0 ∙ sound.1.0.run_job_is in
          subst (λ o. IsConsistent o.1) (sym result)
            (subst IsConsistent effect.1.1 (
              moved-Consistent now.jobs now.runs c tenant job.id run.id expected target
                (valid_not_failed expected target sound.0) row.0 row.1.0 row.1.1 of_job))
    ]
