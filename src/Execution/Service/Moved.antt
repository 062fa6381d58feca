-- ===== src/Execution/Service/Moved.antt =====
-- The two updates of `transition_job` in growth_os/execution_service.py, on the rows of a job and
-- its latest run.
use mathlib.Core.Option.{map as map_some}
use growth_os.Prelude.{
  ℕ, ◌≡◌, sym, ap, ◌∙◌, inl, inr, true, some, List, map, arith, Within, Bool-cases, some_injective,
  ◌==◌,
}
use growth_os.Execution.Status.{ExecutionStatus, failed, status_eq_refl}
use growth_os.Execution.Store.{
  ExecutionJob, ExecutionRun, keep, is_run_of, set_job, set_run, hits_job, hits_run,
}
use growth_os.Execution.Store.Rows.{
  Within-map, map-Within, Within-keep, and_left, and_right, nat_eq_sound,
}
use growth_os.Execution.Store.Newest.{newest-Within}
use growth_os.Execution.Store.Updates.{
  hits_job_sound, hits_run_sound, set_job_keys, set_run_keys, set_job_hit, set_job_miss,
  set_run_hit, set_run_miss, newest-set_run,
}
use growth_os.Execution.Service.Consistent.{Consistent, latest_of}

nat_eq_refl : (n : ℕ) → (n == n) ≡ true
nat_eq_refl n = ground arith

pub hits_job_complete :
    (tenant job_id : ℕ) (expected : ExecutionStatus) (j : ExecutionJob)
    → j.id ≡ job_id
    → j.tenant_id ≡ tenant
    → j.status ≡ expected
    → hits_job tenant job_id expected j ≡ true
unfolding hits_job
hits_job_complete tenant job_id expected j same_id same_tenant same_status = rw (
  same_id,
  same_tenant,
  same_status,
  nat_eq_refl job_id,
  nat_eq_refl tenant,
  status_eq_refl expected,
)

pub latest_at :
    (tenant owner job_id id : ℕ) (runs : List ExecutionRun)
    → tenant ≡ owner
    → job_id ≡ id
    → latest_of tenant job_id runs ≡ latest_of owner id runs
latest_at tenant owner job_id id runs e f = rw (e, f)

-- The latest run of a job is one of its runs.
pub latest_of-Within :
    (tenant job_id : ℕ) (r : ExecutionRun) (runs : List ExecutionRun)
    → latest_of tenant job_id runs ≡ some r
    → Within r runs × ((r.tenant_id ≡ tenant) × (r.job_id ≡ job_id))
unfolding is_run_of
latest_of-Within tenant job_id r runs h =
    let found =
      Within-keep (is_run_of tenant job_id) r runs
        (newest-Within r (keep (is_run_of tenant job_id) runs) h) in
    (
      found.0,
      (
        nat_eq_sound (and_left (r.tenant_id == tenant) (r.job_id == job_id) found.1),
        nat_eq_sound (and_right (r.tenant_id == tenant) (r.job_id == job_id) found.1),
      ),
    )

module _ (jobs : List ExecutionJob) (runs : List ExecutionRun) (c : Consistent jobs runs)
    (tenant job_id run_id : ℕ) (expected target : ExecutionStatus)
    (not_failed : expected ≡ failed → ⊥) (r₀ : ExecutionRun) (here : Within r₀ runs)
    (hit₀ : hits_run tenant run_id expected r₀ ≡ true) (of_job : r₀.job_id ≡ job_id) where
  abbrev moved_job : ExecutionJob → ExecutionJob
  moved_job = set_job tenant job_id expected target

  abbrev moved_run : ExecutionRun → ExecutionRun
  moved_run = set_run tenant run_id expected target

  -- A row that the second update meets is the given one.
  only_run : (r : ExecutionRun) → Within r runs → hits_run tenant run_id expected r ≡ true → r ≡ r₀
  only_run r w hit = c.one_run r r₀ w here (
      (hits_run_sound tenant run_id expected r hit).0
      ∙ sym (hits_run_sound tenant run_id expected r₀ hit₀).0)

  latest_moved :
      (owner id : ℕ) (r : ExecutionRun)
      → latest_of owner id runs ≡ some r
      → latest_of owner id (map moved_run runs) ≡ some (moved_run r)
  latest_moved owner id r h =
      newest-set_run tenant run_id expected target owner id runs ∙ ap (map_some moved_run) h

  -- The given run is the latest of its job.
  latest₀ : latest_of tenant job_id runs ≡ some r₀
  latest₀ =
      let keys = hits_run_sound tenant run_id expected r₀ hit₀ in
      elim (c.settled r₀ here) [
        | inl latest ↦
            sym (latest_at r₀.tenant_id tenant r₀.job_id job_id runs keys.1.0 of_job) ∙ latest
        | inr is_failed ↦ absurd (not_failed (sym keys.1.1 ∙ is_failed))
      ]

  moved_tracked :
      (j : ExecutionJob) (r : ExecutionRun)
      → latest_of j.tenant_id j.id runs ≡ some r
      → r.status ≡ j.status
      → (moved_run r).status ≡ (moved_job j).status
  moved_tracked j r latest same = elim (Bool-cases (hits_job tenant job_id expected j)) [
    | inl hit ↦
        let keys = hits_job_sound tenant job_id expected j hit in
        let r_is : r ≡ r₀ =
          some_injective (
            sym latest ∙ latest_at j.tenant_id tenant j.id job_id runs keys.1.0 keys.0 ∙ latest₀) in
        set_run_hit tenant run_id expected target r (rw (r_is, hit₀))
        ∙ sym (set_job_hit tenant job_id expected target j hit)
    | inr miss ↦ elim (Bool-cases (hits_run tenant run_id expected r)) [
      | inl hit ↦
          let keys = hits_run_sound tenant run_id expected r hit in
          let found = latest_of-Within j.tenant_id j.id r runs latest in
          let r_is = only_run r found.0 hit in
          let own_id : j.id ≡ job_id = sym found.1.1 ∙ ap (λ x. x.job_id) r_is ∙ of_job in
          let own_tenant : j.tenant_id ≡ tenant = sym found.1.0 ∙ keys.1.0 in
          let own_status : j.status ≡ expected = sym same ∙ keys.1.1 in
          cc (miss, hits_job_complete tenant job_id expected j own_id own_tenant own_status)
      | inr off ↦
          ap (λ x. x.status) (set_run_miss tenant run_id expected target r off)
          ∙ same
          ∙ sym (ap (λ x. x.status) (set_job_miss tenant job_id expected target j miss))
    ]
  ]

  -- The two updates keep the rows in agreement.
  pub moved-Consistent : Consistent (map moved_job jobs) (map moved_run runs)
  moved-Consistent = record {
    tracked = λ j w.
        let before = Within-map moved_job j jobs w in
        let old = c.tracked before.0 before.1.0 in
        let keys = set_job_keys tenant job_id expected target before.0 in
        let same_id : j.id ≡ before.0.id = ap (λ x. x.id) before.1.1 ∙ keys.0 in
        let same_tenant : j.tenant_id ≡ before.0.tenant_id =
          ap (λ x. x.tenant_id) before.1.1 ∙ keys.1 in
        (
          moved_run old.0,
          (
            latest_at j.tenant_id before.0.tenant_id j.id before.0.id (map moved_run runs)
                  same_tenant same_id
                ∙ latest_moved before.0.tenant_id before.0.id old.0 old.1.0,
            moved_tracked before.0 old.0 old.1.0 old.1.1 ∙ sym (ap (λ x. x.status) before.1.1),
          ),
        );
    settled = λ r w.
        let before = Within-map moved_run r runs w in
        let keys = set_run_keys tenant run_id expected target before.0 in
        let same_tenant : r.tenant_id ≡ before.0.tenant_id =
          ap (λ x. x.tenant_id) before.1.1 ∙ keys.1.0 in
        let same_job : r.job_id ≡ before.0.job_id = ap (λ x. x.job_id) before.1.1 ∙ keys.1.1.0 in
        elim (c.settled before.0 before.1.0) [
          | inl latest ↦ inl (
              latest_at r.tenant_id before.0.tenant_id r.job_id before.0.job_id (map moved_run runs)
                same_tenant same_job
              ∙ latest_moved before.0.tenant_id before.0.job_id before.0 latest
              ∙ ap some (sym before.1.1))
          | inr is_failed ↦ elim (Bool-cases (hits_run tenant run_id expected before.0)) [
            | inl hit ↦ absurd (
                not_failed
                  (sym ((hits_run_sound tenant run_id expected before.0 hit).1.1) ∙ is_failed))
            | inr miss ↦ inr (
                ap (λ x. x.status)
                  (before.1.1 ∙ set_run_miss tenant run_id expected target before.0 miss)
                ∙ is_failed)
          ]
        ];
    one_job = λ j k wj wk e.
        let old = Within-map moved_job j jobs wj in
        let other = Within-map moved_job k jobs wk in
        let old_id =
          ap (λ x. x.id) old.1.1 ∙ (set_job_keys tenant job_id expected target old.0).0 in
        let other_id =
          ap (λ x. x.id) other.1.1 ∙ (set_job_keys tenant job_id expected target other.0).0 in
        old.1.1
        ∙ ap moved_job (c.one_job old.0 other.0 old.1.0 other.1.0 (sym old_id ∙ e ∙ other_id))
        ∙ sym other.1.1;
    one_run = λ r s wr ws e.
        let old = Within-map moved_run r runs wr in
        let other = Within-map moved_run s runs ws in
        let old_id =
          ap (λ x. x.id) old.1.1 ∙ (set_run_keys tenant run_id expected target old.0).0 in
        let other_id =
          ap (λ x. x.id) other.1.1 ∙ (set_run_keys tenant run_id expected target other.0).0 in
        old.1.1
        ∙ ap moved_run (c.one_run old.0 other.0 old.1.0 other.1.0 (sym old_id ∙ e ∙ other_id))
        ∙ sym other.1.1;
    owned = λ r w.
        let old = Within-map moved_run r runs w in
        let keys = set_run_keys tenant run_id expected target old.0 in
        let owner = c.owned old.0 old.1.0 in
        let kept = set_job_keys tenant job_id expected target owner.0 in
        (
          moved_job owner.0,
          (
            map-Within moved_job owner.0 jobs owner.1.0,
            (
              kept.0 ∙ owner.1.1.0 ∙ sym (ap (λ x. x.job_id) old.1.1 ∙ keys.1.1.0),
              kept.1 ∙ owner.1.1.1 ∙ sym (ap (λ x. x.tenant_id) old.1.1 ∙ keys.1.0),
            ),
          ),
        );
    contiguous = λ r n w low high.
        let old = Within-map moved_run r runs w in
        let keys = set_run_keys tenant run_id expected target old.0 in
        let attempt : r.attempt_number ≡ old.0.attempt_number =
          ap (λ x. x.attempt_number) old.1.1 ∙ keys.1.1.1 in
        let found = c.contiguous old.0 n old.1.0 low (omega arith) in
        let kept = set_run_keys tenant run_id expected target found.0 in
        (
          moved_run found.0,
          (
            map-Within moved_run found.0 runs found.1.0,
            (
              kept.1.1.0 ∙ found.1.1.0 ∙ sym (ap (λ x. x.job_id) old.1.1 ∙ keys.1.1.0),
              (
                kept.1.0 ∙ found.1.1.1.0 ∙ sym (ap (λ x. x.tenant_id) old.1.1 ∙ keys.1.0),
                kept.1.1.1 ∙ found.1.1.1.1,
              ),
            ),
          ),
        );
  }
