-- ===== src/Execution/Service/Consistent.antt =====
-- What holds of the rows of `execution_jobs` and `execution_runs` between the transactions of
-- growth_os/execution_service.py.
use growth_os.Prelude.{ℕ, ◌≤◌, ◌≡◌, refl, ◌∙◌, ◌⊎◌, Option, some, List, Within}
use growth_os.Execution.Status.{failed}
use growth_os.Execution.Store.{ExecutionJob, ExecutionRun, Db, keep, newest, is_run_of}

-- The latest run of a job, among the rows.
abbrev pub latest_of : ℕ → ℕ → List ExecutionRun → Option ExecutionRun
latest_of tenant job_id runs = newest (keep (is_run_of tenant job_id) runs)

-- The rows agree: a job has the status of its latest run, an earlier run has failed, identifiers
-- are not shared, a run's job exists, and a run's attempts before it exist.
pub record Consistent (jobs : List ExecutionJob) (runs : List ExecutionRun) : Type 0 where
  pub tracked :
      (j : ExecutionJob)
      → Within j jobs
      → (r : ExecutionRun) × ((latest_of j.tenant_id j.id runs ≡ some r) × (r.status ≡ j.status))
  pub settled :
      (r : ExecutionRun)
      → Within r runs
      → (latest_of r.tenant_id r.job_id runs ≡ some r) ⊎ (r.status ≡ failed)
  pub one_job : (j k : ExecutionJob) → Within j jobs → Within k jobs → j.id ≡ k.id → j ≡ k
  pub one_run : (r s : ExecutionRun) → Within r runs → Within s runs → r.id ≡ s.id → r ≡ s
  pub owned :
      (r : ExecutionRun)
      → Within r runs
      → (j : ExecutionJob) × (Within j jobs × ((j.id ≡ r.job_id) × (j.tenant_id ≡ r.tenant_id)))
  pub contiguous :
      (r : ExecutionRun) (n : ℕ)
      → Within r runs
      → 1 ≤ n
      → n ≤ r.attempt_number
      → (s : ExecutionRun) × (Within s runs
          × ((s.job_id ≡ r.job_id) × ((s.tenant_id ≡ r.tenant_id) × (s.attempt_number ≡ n))))

-- A database whose rows agree.
abbrev pub IsConsistent : Db → Type 0
IsConsistent db = Consistent db.jobs db.runs

-- Each run of the first database is in the second, with the same keys.
unfoldable pub Persists : Db → Db → Type 0
Persists before after =
    (r : ExecutionRun)
    → Within r before.runs
    → (s : ExecutionRun) × (Within s after.runs
        × ((s.id ≡ r.id)
            × ((s.tenant_id ≡ r.tenant_id)
                × ((s.job_id ≡ r.job_id) × (s.attempt_number ≡ r.attempt_number)))))

pub Persists-refl : (db : Db) → Persists db db
unfolding Persists
Persists-refl db r w = (r, (w, (refl, (refl, (refl, refl)))))

pub Persists-trans : (a b c : Db) → Persists a b → Persists b c → Persists a c
unfolding Persists
Persists-trans a b c first second r w =
    let s = first r w in
    let t = second s.0 s.1.0 in
    (
      t.0,
      (
        t.1.0,
        (
          t.1.1.0 ∙ s.1.1.0,
          (t.1.1.1.0 ∙ s.1.1.1.0, (t.1.1.1.1.0 ∙ s.1.1.1.1.0, t.1.1.1.1.1 ∙ s.1.1.1.1.1)),
        ),
      ),
    )
