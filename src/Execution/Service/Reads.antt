-- ===== src/Execution/Service/Reads.antt =====
-- The checks before the first statement of `transition_job` in growth_os/execution_service.py, and
-- the reads that they share with `reserve_retry`.
use growth_os.Prelude.{
  ℕ, ◌≡◌, refl, sym, ap, ◌∙◌, Bool, true, false, not, ◌||◌, ◌&&◌, Option, none, some, ◌==◌, Within,
  ok, bind_ok, or_raise_ok, raise_if_ok, ok_injective, or_raise, subst,
}
use growth_os.Execution.Status.{ExecutionStatus, status_eq, status_eq_sound, is_valid_transition}
use growth_os.Execution.Store.{ExecutionJob, ExecutionRun, Db, get_job, latest_run}
use growth_os.Execution.Store.Rows.{and_left, and_right, nat_eq_sound, find_sound}
use growth_os.Execution.Service.{
  not_found, invalid_state, get_job_and_run, check_transition, and_then,
}
use growth_os.Execution.Service.Moved.{latest_of-Within}

pub or_false : (a b : Bool) → (a || b) ≡ false → (a ≡ false) × (b ≡ false)
or_false true b h = cc
or_false false b h = (refl, h)

pub not-false : (a : Bool) → not a ≡ false → a ≡ true
not-false true h = refl
not-false false h = cc

pub and_then-some :
    {A B : Type 0} (o : Option A) (f : A → Option B) (b : B)
    → and_then o f ≡ some b
    → (a : A) × ((o ≡ some a) × (f a ≡ some b))
and_then-some none f b h = cc
and_then-some (some a) f b h = (a, (refl, h))

-- What the two reads of a method found.
pub record Found (reads : Db) (tenant job_id : ℕ) (job : ExecutionJob) (run : ExecutionRun)
    : Type 0 where
  pub job_read : Within job reads.jobs
  pub job_id_is : job.id ≡ job_id
  pub job_tenant_is : job.tenant_id ≡ tenant
  pub run_read : Within run reads.runs
  pub run_latest : latest_run reads tenant job.id ≡ some run
  pub run_job_is : run.job_id ≡ job.id
  pub run_tenant_is : run.tenant_id ≡ tenant

pub get_job_and_run_sound :
    (reads : Db) (tenant job_id : ℕ) (job : ExecutionJob) (run : ExecutionRun)
    → get_job_and_run reads tenant job_id ≡ ok (job, run)
    → Found reads tenant job_id job run
unfolding get_job_and_run get_job latest_run
get_job_and_run_sound reads tenant job_id job run h =
    let step = bind_ok (or_raise (get_job reads tenant job_id) not_found) _ (job, run) h in
    let next =
      bind_ok (or_raise (latest_run reads tenant step.0.id) not_found) _ (job, run) step.1.1 in
    let job_is : step.0 ≡ job = ap (λ x. x.0) (ok_injective next.1.1) in
    let run_is : next.0 ≡ run = ap (λ x. x.1) (ok_injective next.1.1) in
    let read =
      find_sound (λ j. j.id == job_id && j.tenant_id == tenant) step.0 reads.jobs
        (or_raise_ok _ not_found step.0 step.1.0) in
    let latest = or_raise_ok (latest_run reads tenant step.0.id) not_found next.0 next.1.0 in
    let own = latest_of-Within tenant step.0.id next.0 reads.runs latest in
    subst (λ p. Found reads tenant job_id p.0 p.1) (ok_injective next.1.1)
      (record {
        job_read = read.0;
        job_id_is = nat_eq_sound (and_left (step.0.id == job_id) _ read.1);
        job_tenant_is = nat_eq_sound (and_right (step.0.id == job_id) _ read.1);
        run_read = own.0;
        run_latest = latest;
        run_job_is = own.1.1;
        run_tenant_is = own.1.0;
      })

pub check_transition_sound :
    (reads : Db) (tenant job_id : ℕ) (expected target : ExecutionStatus) (job : ExecutionJob)
    (run : ExecutionRun)
    → check_transition reads tenant job_id expected target ≡ ok (job, run)
    → (is_valid_transition expected target ≡ true)
      × (Found reads tenant job_id job run × ((job.status ≡ expected) × (run.status ≡ expected)))
unfolding check_transition
check_transition_sound reads tenant job_id expected target job run h =
    let valid =
      raise_if_ok (not (is_valid_transition expected target)) invalid_state _ (job, run) h in
    let found = bind_ok (get_job_and_run reads tenant job_id) _ (job, run) valid.1 in
    let agree =
      raise_if_ok
        (not (status_eq found.0.0.status expected) || not (status_eq found.0.1.status expected))
        invalid_state _ (job, run) found.1.1 in
    let same : found.0 ≡ (job, run) = ok_injective agree.1 in
    let both = or_false _ _ agree.0 in
    (
      not-false (is_valid_transition expected target) valid.0,
      (
        get_job_and_run_sound reads tenant job_id job run (found.1.0 ∙ ap ok same),
        (
          ap (λ p. p.0.status) (sym same)
              ∙ status_eq_sound found.0.0.status expected (not-false _ both.0),
          ap (λ p. p.1.status) (sym same)
              ∙ status_eq_sound found.0.1.status expected (not-false _ both.1),
        ),
      ),
    )
