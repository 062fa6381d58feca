-- ===== src/Execution/Listing/Complete.antt =====
-- `list_jobs` of growth_os/execution_service.py on rows in agreement.
use Prim.Native.String.{String}
use growth_os.Prelude.{
  ℕ, zero, suc, ◌≤◌, ◌≡◌, refl, sym, ap, ◌∙◌, inl, inr, Bool, true, false, ◌&&◌, Option, some, List,
  [], ◌∷◌, map, subst, arith, ◌==◌, drop, length, Within, All, ok,
}
use growth_os.Execution.Status.{ExecutionStatus}
use growth_os.Execution.Store.{ExecutionJob, ExecutionRun, Db, any, find, keep}
use growth_os.Execution.Store.Rows.{and_left, nat_eq_sound, find_sound, Within-keep, keep-Within}
use growth_os.Execution.Service.{JobResult}
use growth_os.Execution.Service.Consistent.{IsConsistent}
use growth_os.Execution.Service.Moved.{latest_of-Within}
use growth_os.Execution.Service.Progress.{find_complete, any_complete}
use growth_os.Execution.Listing.Page.{
  IsListed, IsSelection, IsPage, take-IsPage, selected-IsSelection,
}
use growth_os.Execution.Listing.{
  take, page, is_listed_job, runs_of_page, with_latest, list_jobs_with_latest_runs, job_results,
  owns_workspace, list_jobs,
}

pub take-Within : {A : Type 0} (x : A) (n : ℕ) (xs : List A) → Within x (take n xs) → Within x xs
unfolding take
take-Within x zero xs w = absurd w
take-Within x (suc n) [] w = absurd w
take-Within x (suc n) (y ∷ ys) w = elim w [ inl e ↦ inl e | inr m ↦ inr (take-Within x n ys m) ]

pub drop-Within : {A : Type 0} (x : A) (n : ℕ) (xs : List A) → Within x (drop n xs) → Within x xs
drop-Within x zero xs w = w
drop-Within x (suc n) [] w = absurd w
drop-Within x (suc n) (y ∷ ys) w = inr (drop-Within x n ys w)

-- A listed job is the tenant's, and its run is the one of the job with the highest attempt.
abbrev pub ListedRow : Db → ℕ → JobResult → Type 0
ListedRow db tenant result =
    Within result.job db.jobs
    × ((result.job.tenant_id ≡ tenant)
        × (Within result.latest_run db.runs
            × ((result.latest_run.job_id ≡ result.job.id)
                × ((s : ExecutionRun)
                    → Within s db.runs
                    → s.tenant_id ≡ tenant
                    → s.job_id ≡ result.job.id
                    → s.attempt_number ≤ result.latest_run.attempt_number))))

of_tenant : (a b : ℕ) (test : Bool) → a ≡ b → test ≡ true → (a == b && test) ≡ true
of_tenant a b test e h = ground arith

is_same : (a b : ℕ) → a ≡ b → (a == b) ≡ true
is_same a b e = ground arith

module _ (order_runs : List ExecutionRun → List ExecutionRun)
    (keeps_runs : (rs : List ExecutionRun) (r : ExecutionRun)
      → Within r rs
      → Within r (order_runs rs))
    (adds_no_run : (rs : List ExecutionRun) (r : ExecutionRun)
      → Within r (order_runs rs)
      → Within r rs)
    (newest_first : (rs : List ExecutionRun) (job_id : ℕ) (r : ExecutionRun)
      → find (λ s. s.job_id == job_id) (order_runs rs) ≡ some r
      → (s : ExecutionRun) → Within s rs
      → s.job_id ≡ job_id
      → s.attempt_number ≤ r.attempt_number)
    (db : Db) (c : IsConsistent db) (tenant : ℕ) where
  listed_row :
      (jobs : List ExecutionJob) (j : ExecutionJob)
      → Within j jobs
      → Within j db.jobs
      → j.tenant_id ≡ tenant
      → (r : ExecutionRun) × ((find (λ s. s.job_id == j.id) (runs_of_page order_runs tenant jobs db)
            ≡ some r)
          × ListedRow db tenant (record { job = j; latest_run = r; created = false }))
  unfolding runs_of_page
  listed_row jobs j listed w own =
      let of_page : ExecutionRun → Bool =
        λ r. r.tenant_id == tenant && any (λ k. k.id == r.job_id) jobs in
      let of_job : ExecutionRun → Bool = λ r. r.job_id == j.id in
      let selected : (s : ExecutionRun)
          → Within s db.runs
          → s.tenant_id ≡ tenant
          → s.job_id ≡ j.id
          → Within s (keep of_page db.runs) =
        λ s here same_tenant same_job. keep-Within of_page s db.runs here (
          of_tenant s.tenant_id tenant (any (λ k. k.id == s.job_id) jobs) same_tenant (
            any_complete (λ k. k.id == s.job_id) j jobs listed
              (is_same j.id s.job_id (sym same_job)))) in
      let latest = c.tracked j w in
      let run = latest_of-Within j.tenant_id j.id latest.0 db.runs latest.1.0 in
      let in_page = selected latest.0 run.0 (run.1.0 ∙ own) run.1.1 in
      let found =
        find_complete of_job latest.0 (order_runs (keep of_page db.runs))
          (keeps_runs (keep of_page db.runs) latest.0 in_page)
          (is_same latest.0.job_id j.id run.1.1) in
      let first = find_sound of_job found.0 (order_runs (keep of_page db.runs)) found.1 in
      let back =
        Within-keep of_page found.0 db.runs (adds_no_run (keep of_page db.runs) found.0 first.0) in
      (
        found.0,
        (
          found.1,
          (
            w,
            (
              own,
              (
                back.0,
                (
                  nat_eq_sound first.1,
                  λ s here same_tenant same_job.
                      newest_first (keep of_page db.runs) j.id found.0 found.1 s
                        (selected s here same_tenant same_job) same_job,
                ),
              ),
            ),
          ),
        ),
      )

  job_results_complete :
      (jobs js : List ExecutionJob)
      → ((j : ExecutionJob) → Within j js → Within j jobs)
      → ((j : ExecutionJob) → Within j js → Within j db.jobs × (j.tenant_id ≡ tenant))
      → (results : List JobResult) × ((job_results
              (with_latest (runs_of_page order_runs tenant jobs db) js)
            ≡ ok results)
          × (All (ListedRow db tenant) results × (map (λ x. x.job) results ≡ js)))
  unfolding job_results with_latest
  job_results_complete jobs [] inside owned = ([], (refl, (tt, refl)))
  job_results_complete jobs (j ∷ js) inside owned =
      let own = owned j (inl refl) in
      let row = listed_row jobs j (inside j (inl refl)) own.0 own.1 in
      let rest = job_results_complete jobs js (λ k w. inside k (inr w)) (λ k w. owned k (inr w)) in
      (
        record { job = j; latest_run = row.0; created = false } ∷ rest.0,
        (rw (row.1.0, rest.1.0), ((row.1.1, rest.1.1.0), ap (λ l. j ∷ l) rest.1.1.1)),
      )

  -- On rows in agreement and with a database that sorts the runs of a job newest first and neither
  -- drops nor adds rows, `list_jobs` never misses a run where the named workspace is the
  -- tenant's: from the tenant's jobs with the workspace, status and kind that are asked for, as the
  -- database sorts them, it shows exactly the `limit` jobs that follow the first `offset`, or those
  -- that are left, in this order, each with its run of the highest attempt, and the number of all.
  pub list_jobs_complete :
      (order : List ExecutionJob → List ExecutionJob)
      → ((js : List ExecutionJob) (j : ExecutionJob) → Within j (order js) → Within j js)
      → (workspace_id : Option ℕ) (status : Option ExecutionStatus) (kind : Option String)
        (limit offset : ℕ)
      → owns_workspace db tenant workspace_id ≡ ok tt
      → (selected : List ExecutionJob) × ((results : List JobResult) × ((list_jobs order order_runs
                db tenant workspace_id status kind limit offset
              ≡ ok (results, length selected))
            × (IsSelection (IsListed tenant workspace_id status kind) db.jobs selected
                × (IsPage limit offset (order selected) (map (λ x. x.job) results)
                    × All (ListedRow db tenant) results))))
  unfolding list_jobs list_jobs_with_latest_runs page is_listed_job
  list_jobs_complete order adds_no_job workspace_id status kind limit offset owned =
      let predicate = is_listed_job tenant workspace_id status kind in
      let selected = keep predicate db.jobs in
      let jobs = take limit (drop offset (order selected)) in
      let member : (j : ExecutionJob) → Within j jobs → Within j db.jobs × (j.tenant_id ≡ tenant) =
        λ j w.
          let back = Within-keep predicate j db.jobs (
            adds_no_job selected j (
              drop-Within j offset (order selected)
                (take-Within j limit (drop offset (order selected)) w))) in
          (back.0, nat_eq_sound (and_left (j.tenant_id == tenant) _ back.1)) in
      let done = job_results_complete jobs jobs (λ j w. w) member in
      (
        selected,
        (
          done.0,
          (
            rw (owned, done.1.0),
            (
              selected-IsSelection tenant workspace_id status kind db.jobs,
              (
                subst (IsPage limit offset (order selected)) (sym done.1.1.1)
                    (take-IsPage limit offset (order selected)),
                done.1.1.0,
              ),
            ),
          ),
        ),
      )
