-- ===== src/Execution/Service/Effects.antt =====
-- The words in which the effects of the calls of growth_os/execution_service.py are stated, apart
-- from its statements and its reads: an update of the rows that meet a condition, and the last run
-- of a job.
pub mod Moves
pub mod Retries
pub mod Creations
pub mod Proposals
pub mod Refusals
pub mod Hindrances
pub mod Blocked
use growth_os.Prelude.{
  ℕ, ◌≤◌, ◌≡◌, refl, ◌⊎◌, inl, inr, Bool, true, ◌==◌, List, [], ◌∷◌, map, Within, Bool-cases,
  if◌then◌else◌, some, subst,
}
use growth_os.Execution.Status.{ExecutionStatus}
use growth_os.Execution.Store.{
  ExecutionJob, ExecutionRun, Db, latest_run, is_run_of, keep, hits_job, hits_run, set_job, set_run,
}
use growth_os.Execution.Store.Rows.{keep-Within}
use growth_os.Execution.Store.Newest.{newest_max}
use growth_os.Execution.Store.Updates.{hits_job_sound, hits_run_sound}
use growth_os.Execution.Service.Reads.{Found}
use growth_os.Execution.Service.Moved.{latest_of-Within, hits_job_complete}
use growth_os.Execution.Service.Progress.{hits_run_complete}
use growth_os.Execution.Service.Retried.{is_run_of_complete}

abbrev pub IsJob : ℕ → ℕ → ExecutionStatus → ExecutionJob → Type 0
IsJob tenant job_id status j = (j.id ≡ job_id) × ((j.tenant_id ≡ tenant) × (j.status ≡ status))

abbrev pub IsRun : ℕ → ℕ → ExecutionStatus → ExecutionRun → Type 0
IsRun tenant run_id status r = (r.id ≡ run_id) × ((r.tenant_id ≡ tenant) × (r.status ≡ status))

-- A run of the job, after which no other run of it comes.
pub record IsLastRun (db : Db) (tenant job_id : ℕ) (run : ExecutionRun) : Type 0 where
  pub stored : Within run db.runs
  pub tenant_is : run.tenant_id ≡ tenant
  pub job_is : run.job_id ≡ job_id
  pub last :
      (s : ExecutionRun)
      → Within s db.runs
      → s.tenant_id ≡ tenant
      → s.job_id ≡ job_id
      → s.attempt_number ≤ run.attempt_number

pub latest_run-IsLastRun :
    (db : Db) (tenant job_id : ℕ) (run : ExecutionRun)
    → latest_run db tenant job_id ≡ some run
    → IsLastRun db tenant job_id run
unfolding latest_run
latest_run-IsLastRun db tenant job_id run h =
    let own = latest_of-Within tenant job_id run db.runs h in
    record {
      stored = own.0;
      tenant_is = own.1.0;
      job_is = own.1.1;
      last = λ s here of_tenant of_job.
          newest_max run s (keep (is_run_of tenant job_id) db.runs) h (
            keep-Within (is_run_of tenant job_id) s db.runs here
              (is_run_of_complete tenant job_id s of_tenant of_job));
    }

pub Found-IsLastRun :
    (reads : Db) (tenant job_id : ℕ) (job : ExecutionJob) (run : ExecutionRun)
    → Found reads tenant job_id job run
    → IsLastRun reads tenant job_id run
Found-IsLastRun reads tenant job_id job run found =
    subst (λ n. IsLastRun reads tenant n run) found.job_id_is
      (latest_run-IsLastRun reads tenant job.id run found.run_latest)

module _ {A : Type 0} (Hit : A → Type 0) (change : A → A) where
  -- The new rows are the old ones in their order: changed where they meet the condition, else kept.
  unfoldable pub IsUpdate : List A → List A → Type 0
  IsUpdate [] [] = Unit {0}
  IsUpdate (x ∷ xs) (y ∷ ys) = ((Hit x × (y ≡ change x)) ⊎ ((Hit x → ⊥) × (y ≡ x))) × IsUpdate xs ys
  IsUpdate [] (y ∷ ys) = ⊥
  IsUpdate (x ∷ xs) [] = ⊥

  map-IsUpdate :
      (test : A → Bool)
      → ((x : A) → test x ≡ true → Hit x)
      → ((x : A) → Hit x → test x ≡ true)
      → (xs : List A) → IsUpdate xs (map (λ x. if test x then change x else x) xs)
  unfolding IsUpdate
  map-IsUpdate test sound complete [] = tt
  map-IsUpdate test sound complete (x ∷ xs) = elim (Bool-cases (test x)) [
    | inl hit ↦ (inl (sound x hit, rw hit), map-IsUpdate test sound complete xs)
    | inr miss ↦ (inr (λ h. cc (miss, complete x h), rw miss), map-IsUpdate test sound complete xs)
  ]

module _ (tenant row_id : ℕ) (expected target : ExecutionStatus) where
  pub set_job-IsUpdate :
      (js : List ExecutionJob)
      → IsUpdate
          (IsJob tenant row_id expected)
          (λ j. record j { status = target })
          js
          (map (set_job tenant row_id expected target) js)
  unfolding set_job
  set_job-IsUpdate js =
      map-IsUpdate (IsJob tenant row_id expected) (λ j. record j { status = target })
        (hits_job tenant row_id expected) (hits_job_sound tenant row_id expected)
        (λ j h. hits_job_complete tenant row_id expected j h.0 h.1.0 h.1.1) js

  pub set_run-IsUpdate :
      (rs : List ExecutionRun)
      → IsUpdate
          (IsRun tenant row_id expected)
          (λ r. record r { status = target })
          rs
          (map (set_run tenant row_id expected target) rs)
  unfolding set_run
  set_run-IsUpdate rs =
      map-IsUpdate (IsRun tenant row_id expected) (λ r. record r { status = target })
        (hits_run tenant row_id expected) (hits_run_sound tenant row_id expected)
        (λ r h. hits_run_complete tenant row_id expected r h.0 h.1.0 h.1.1) rs
