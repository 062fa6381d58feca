-- ===== src/Execution/Service/Created.antt =====
-- The rows that `create_job` of growth_os/execution_service.py inserts.
use growth_os.Prelude.{
  ℕ, ◌≤◌, ◌≡◌, refl, sym, ap, ◌∙◌, ◌⊎◌, inl, inr, false, some, List, ◌∷◌, arith, Within, Bool-cases,
  ◌==◌,
}
use growth_os.Execution.Status.{failed}
use growth_os.Execution.Store.{ExecutionJob, ExecutionRun, any, is_run_of}
use growth_os.Execution.Store.Rows.{any_refuse}
use growth_os.Execution.Service.Consistent.{Consistent, latest_of}
use growth_os.Execution.Service.Retried.{
  is_run_of_sound, is_run_of_complete, latest_of_miss, latest_of_hit,
}

module _ (jobs : List ExecutionJob) (runs : List ExecutionRun) (c : Consistent jobs runs)
    (j₁ : ExecutionJob) (r₁ : ExecutionRun) (same_status : r₁.status ≡ j₁.status)
    (same_tenant : r₁.tenant_id ≡ j₁.tenant_id) (same_job : r₁.job_id ≡ j₁.id)
    (first : r₁.attempt_number ≡ 1) (fresh_job : any (λ j. j.id == j₁.id) jobs ≡ false)
    (fresh_run : any (λ r. r.id == r₁.id) runs ≡ false) where
  no_job : (j : ExecutionJob) → Within j jobs → j.id ≡ j₁.id → ⊥
  no_job j w e = let differs = any_refuse (λ k. k.id == j₁.id) j jobs fresh_job w in ground arith

  no_run : (r : ExecutionRun) → Within r runs → r.job_id ≡ j₁.id → ⊥
  no_run r w e = let owner = c.owned r w in no_job owner.0 owner.1.0 (owner.1.1.0 ∙ e)

  -- The new run is the latest of the new job.
  latest_new :
      (tenant job_id : ℕ)
      → r₁.tenant_id ≡ tenant
      → r₁.job_id ≡ job_id
      → latest_of tenant job_id (r₁ ∷ runs) ≡ some r₁
  latest_new tenant job_id e f =
      latest_of_hit tenant job_id r₁ runs (is_run_of_complete tenant job_id r₁ e f)
        λ s w own. absurd (no_run s w ((is_run_of_sound tenant job_id s own).1 ∙ sym f ∙ same_job))

  -- The other jobs keep their latest runs.
  latest_old :
      (tenant job_id : ℕ)
      → (job_id ≡ j₁.id → ⊥)
      → latest_of tenant job_id (r₁ ∷ runs) ≡ latest_of tenant job_id runs
  latest_old tenant job_id differs = elim (Bool-cases (is_run_of tenant job_id r₁)) [
    | inl own ↦ absurd (differs (sym (is_run_of_sound tenant job_id r₁ own).1 ∙ same_job))
    | inr other ↦ latest_of_miss tenant job_id r₁ runs other
  ]

  created_settled :
      (r : ExecutionRun)
      → Within r (r₁ ∷ runs)
      → (latest_of r.tenant_id r.job_id (r₁ ∷ runs) ≡ some r) ⊎ (r.status ≡ failed)
  created_settled r w = elim w [
    | inl e ↦ inl (
        latest_new r.tenant_id r.job_id (ap (λ x. x.tenant_id) (sym e)) (ap (λ x. x.job_id) (sym e))
        ∙ ap some (sym e))
    | inr m ↦ elim (c.settled r m) [
      | inl latest ↦ inl (latest_old r.tenant_id r.job_id (no_run r m) ∙ latest)
      | inr is_failed ↦ inr is_failed
    ]
  ]

  created_one_job :
      (j k : ExecutionJob) → Within j (j₁ ∷ jobs) → Within k (j₁ ∷ jobs) → j.id ≡ k.id → j ≡ k
  created_one_job j k wj wk e = elim wj [
    | inl ej ↦ elim wk [
      | inl ek ↦ ej ∙ sym ek
      | inr mk ↦ absurd (no_job k mk (sym e ∙ ap (λ x. x.id) ej))
    ]
    | inr mj ↦ elim wk [
      | inl ek ↦ absurd (no_job j mj (e ∙ ap (λ x. x.id) ek))
      | inr mk ↦ c.one_job j k mj mk e
    ]
  ]

  created_one_run :
      (r s : ExecutionRun) → Within r (r₁ ∷ runs) → Within s (r₁ ∷ runs) → r.id ≡ s.id → r ≡ s
  created_one_run r s wr ws e =
      let clash : (u : ExecutionRun) → Within u runs → u.id ≡ r₁.id → ⊥ = λ u w same.
        let differs = any_refuse (λ v. v.id == r₁.id) u runs fresh_run w in ground arith in
      elim wr [
        | inl er ↦ elim ws [
          | inl es ↦ er ∙ sym es
          | inr ms ↦ absurd (clash s ms (sym e ∙ ap (λ x. x.id) er))
        ]
        | inr mr ↦ elim ws [
          | inl es ↦ absurd (clash r mr (e ∙ ap (λ x. x.id) es))
          | inr ms ↦ c.one_run r s mr ms e
        ]
      ]

  created_contiguous :
      (r : ExecutionRun) (n : ℕ)
      → Within r (r₁ ∷ runs)
      → 1 ≤ n
      → n ≤ r.attempt_number
      → (s : ExecutionRun) × (Within s (r₁ ∷ runs)
          × ((s.job_id ≡ r.job_id) × ((s.tenant_id ≡ r.tenant_id) × (s.attempt_number ≡ n))))
  created_contiguous r n w low high = elim w [
    | inl e ↦
        let attempt = ap (λ x. x.attempt_number) e in
        (r₁, (inl refl, (ap (λ x. x.job_id) (sym e), (ap (λ x. x.tenant_id) (sym e), omega arith))))
    | inr m ↦ let found = c.contiguous r n m low high in (found.0, (inr found.1.0, found.1.1))
  ]

  -- The two insertions keep the rows in agreement.
  pub created-Consistent : Consistent (j₁ ∷ jobs) (r₁ ∷ runs)
  created-Consistent = record {
    tracked = λ j w. elim w [
      | inl e ↦ (
        r₁,
        (
          latest_new j.tenant_id j.id (same_tenant ∙ ap (λ x. x.tenant_id) (sym e))
              (same_job ∙ ap (λ x. x.id) (sym e)),
          same_status ∙ ap (λ x. x.status) (sym e),
        ),
      )
      | inr m ↦
          let old = c.tracked j m in
          (old.0, (latest_old j.tenant_id j.id (no_job j m) ∙ old.1.0, old.1.1))
    ];
    settled = created_settled;
    one_job = created_one_job;
    one_run = created_one_run;
    owned = λ r w. elim w [
      | inl e ↦ (
        j₁,
        (
          inl refl,
          (
            sym same_job ∙ ap (λ x. x.job_id) (sym e),
            sym same_tenant ∙ ap (λ x. x.tenant_id) (sym e),
          ),
        ),
      )
      | inr m ↦ let owner = c.owned r m in (owner.0, (inr owner.1.0, owner.1.1))
    ];
    contiguous = created_contiguous;
  }
