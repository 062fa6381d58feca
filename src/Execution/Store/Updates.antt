-- ===== src/Execution/Store/Updates.antt =====
-- `compare_and_set_job_status` and `compare_and_set_run_status` of
-- growth_os/execution_repository.py, on one row.
use growth_os.Prelude.{ℕ, ◌≡◌, refl, inl, inr, true, false, ◌==◌, Bool-cases, List, map}
use mathlib.Core.Option.{map as map_some}
use growth_os.Execution.Status.{ExecutionStatus, status_eq_sound}
use growth_os.Execution.Store.{
  ExecutionJob, ExecutionRun, hits_job, set_job, hits_run, set_run, is_run_of, newest, keep,
}
use growth_os.Execution.Store.Rows.{and_left, and_right, nat_eq_sound, keep-map}
use growth_os.Execution.Store.Newest.{newest-map}

pub hits_job_sound :
    (tenant job_id : ℕ) (expected : ExecutionStatus) (j : ExecutionJob)
    → hits_job tenant job_id expected j ≡ true
    → (j.id ≡ job_id) × ((j.tenant_id ≡ tenant) × (j.status ≡ expected))
unfolding hits_job
hits_job_sound tenant job_id expected j h =
    let rest = and_right (j.id == job_id) _ h in
    (
      nat_eq_sound (and_left (j.id == job_id) _ h),
      (
        nat_eq_sound (and_left (j.tenant_id == tenant) _ rest),
        status_eq_sound j.status expected (and_right (j.tenant_id == tenant) _ rest),
      ),
    )

pub hits_run_sound :
    (tenant run_id : ℕ) (expected : ExecutionStatus) (r : ExecutionRun)
    → hits_run tenant run_id expected r ≡ true
    → (r.id ≡ run_id) × ((r.tenant_id ≡ tenant) × (r.status ≡ expected))
unfolding hits_run
hits_run_sound tenant run_id expected r h =
    let rest = and_right (r.id == run_id) _ h in
    (
      nat_eq_sound (and_left (r.id == run_id) _ h),
      (
        nat_eq_sound (and_left (r.tenant_id == tenant) _ rest),
        status_eq_sound r.status expected (and_right (r.tenant_id == tenant) _ rest),
      ),
    )

module _ (tenant row_id : ℕ) (expected target : ExecutionStatus) where
  -- An update leaves the keys of a job.
  pub set_job_keys :
      (j : ExecutionJob)
      → ((set_job tenant row_id expected target j).id ≡ j.id)
        × ((set_job tenant row_id expected target j).tenant_id ≡ j.tenant_id)
  unfolding set_job
  set_job_keys j = elim (Bool-cases (hits_job tenant row_id expected j)) [
    | inl hit ↦ rw hit (refl, refl)
    | inr miss ↦ rw miss (refl, refl)
  ]

  -- An update leaves all but the status of a run.
  pub set_run_keys :
      (r : ExecutionRun)
      → ((set_run tenant row_id expected target r).id ≡ r.id)
        × (((set_run tenant row_id expected target r).tenant_id ≡ r.tenant_id)
            × (((set_run tenant row_id expected target r).job_id ≡ r.job_id)
                × ((set_run tenant row_id expected target r).attempt_number ≡ r.attempt_number)))
  unfolding set_run
  set_run_keys r = elim (Bool-cases (hits_run tenant row_id expected r)) [
    | inl hit ↦ rw hit (refl, (refl, (refl, refl)))
    | inr miss ↦ rw miss (refl, (refl, (refl, refl)))
  ]

  pub set_job_hit :
      (j : ExecutionJob)
      → hits_job tenant row_id expected j ≡ true
      → (set_job tenant row_id expected target j).status ≡ target
  unfolding set_job
  set_job_hit j hit = rw hit

  pub set_job_miss :
      (j : ExecutionJob)
      → hits_job tenant row_id expected j ≡ false
      → set_job tenant row_id expected target j ≡ j
  unfolding set_job
  set_job_miss j miss = rw miss

  pub set_run_hit :
      (r : ExecutionRun)
      → hits_run tenant row_id expected r ≡ true
      → (set_run tenant row_id expected target r).status ≡ target
  unfolding set_run
  set_run_hit r hit = rw hit

  pub set_run_miss :
      (r : ExecutionRun)
      → hits_run tenant row_id expected r ≡ false
      → set_run tenant row_id expected target r ≡ r
  unfolding set_run
  set_run_miss r miss = rw miss

  -- The newest run of a job after an update is the updated newest run.
  pub newest-set_run :
      (owner job_id : ℕ) (rs : List ExecutionRun)
      → newest (keep (is_run_of owner job_id) (map (set_run tenant row_id expected target) rs))
        ≡ map_some
            (set_run tenant row_id expected target)
            (newest (keep (is_run_of owner job_id) rs))
  unfolding is_run_of
  newest-set_run owner job_id rs =
      let update = set_run tenant row_id expected target in
      let same : (r : ExecutionRun) → is_run_of owner job_id (update r) ≡ is_run_of owner job_id r =
        λ r. rw ((set_run_keys r).1.0, (set_run_keys r).1.1.0) in
      rw (keep-map (is_run_of owner job_id) update rs same)
        (newest-map update (keep (is_run_of owner job_id) rs) λ r. (set_run_keys r).1.1.1)
