-- ===== src/Execution/Service/Retried.antt =====
-- The update and the insertion of `reserve_retry` in growth_os/execution_service.py, on the rows of
-- a failed job.
use growth_os.Prelude.{
  ℕ, ◌+◌, ◌≤◌, ◌<◌, ◌≡◌, refl, sym, ap, ◌∙◌, ◌⊎◌, inl, inr, true, false, some, List, ◌∷◌, map,
  arith, Within, Bool-cases, some_injective, ◌&&◌, ◌==◌, subst, ltb,
}
use growth_os.Execution.Status.{failed, queued}
use growth_os.Execution.Store.{ExecutionJob, ExecutionRun, any, keep, is_run_of, set_job, hits_job}
use growth_os.Execution.Store.Rows.{
  Within-map, map-Within, Within-keep, and_left, and_right, nat_eq_sound, any_refuse,
}
use growth_os.Execution.Store.Newest.{newest_first}
use growth_os.Execution.Store.Updates.{hits_job_sound, set_job_keys, set_job_hit, set_job_miss}
use growth_os.Execution.Service.Consistent.{Consistent, latest_of}
use growth_os.Execution.Service.Moved.{latest_at}

pub is_run_of_sound :
    (tenant job_id : ℕ) (r : ExecutionRun)
    → is_run_of tenant job_id r ≡ true
    → (r.tenant_id ≡ tenant) × (r.job_id ≡ job_id)
unfolding is_run_of
is_run_of_sound tenant job_id r h = (
  nat_eq_sound (and_left (r.tenant_id == tenant) (r.job_id == job_id) h),
  nat_eq_sound (and_right (r.tenant_id == tenant) (r.job_id == job_id) h),
)

pub is_run_of_complete :
    (tenant job_id : ℕ) (r : ExecutionRun)
    → r.tenant_id ≡ tenant
    → r.job_id ≡ job_id
    → is_run_of tenant job_id r ≡ true
unfolding is_run_of
is_run_of_complete tenant job_id r e f = ground arith

-- A run of another job leaves the latest run.
pub latest_of_miss :
    (tenant job_id : ℕ) (r : ExecutionRun) (runs : List ExecutionRun)
    → is_run_of tenant job_id r ≡ false
    → latest_of tenant job_id (r ∷ runs) ≡ latest_of tenant job_id runs
unfolding keep
latest_of_miss tenant job_id r runs h = rw h

-- A run after all the others of its job is the latest.
pub latest_of_hit :
    (tenant job_id : ℕ) (r : ExecutionRun) (runs : List ExecutionRun)
    → is_run_of tenant job_id r ≡ true
    → ((s : ExecutionRun)
        → Within s runs
        → is_run_of tenant job_id s ≡ true
        → s.attempt_number < r.attempt_number)
    → latest_of tenant job_id (r ∷ runs) ≡ some r
unfolding keep
latest_of_hit tenant job_id r runs h top = rw h (
    newest_first r (keep (is_run_of tenant job_id) runs)
      λ s w. let found = Within-keep (is_run_of tenant job_id) s runs w in top s found.0 found.1)

module _ (jobs : List ExecutionJob) (runs : List ExecutionRun) (c : Consistent jobs runs)
    (r₁ prior : ExecutionRun) (is_queued : r₁.status ≡ queued) (here : Within prior runs)
    (same_tenant : prior.tenant_id ≡ r₁.tenant_id) (same_job : prior.job_id ≡ r₁.job_id)
    (next : r₁.attempt_number ≡ prior.attempt_number + 1)
    (fresh : any (λ s. s.id == r₁.id) runs ≡ false)
    (unique : any
        (λ s. is_run_of r₁.tenant_id r₁.job_id s && s.attempt_number == r₁.attempt_number)
        runs
      ≡ false)
    (j₀ : ExecutionJob) (job_here : Within j₀ jobs)
    (hit₀ : hits_job r₁.tenant_id r₁.job_id failed j₀ ≡ true) where
  abbrev reset_job : ExecutionJob → ExecutionJob
  reset_job = set_job r₁.tenant_id r₁.job_id failed queued

  -- No run of the job has come as far as the new one.
  top :
      (tenant job_id : ℕ)
      → is_run_of tenant job_id r₁ ≡ true
      → (s : ExecutionRun) → Within s runs
      → is_run_of tenant job_id s ≡ true
      → s.attempt_number < r₁.attempt_number
  top tenant job_id own s w of_job =
      let mine = is_run_of_sound tenant job_id r₁ own in
      let other = is_run_of_sound tenant job_id s of_job in
      elim (Bool-cases (ltb s.attempt_number r₁.attempt_number)) [
        | inl less ↦ ground arith
        | inr more ↦
            let found = c.contiguous s r₁.attempt_number w (omega arith) (ground arith) in
            let run_of =
              is_run_of_complete r₁.tenant_id r₁.job_id found.0
                (found.1.1.1.0 ∙ other.0 ∙ sym mine.0) (found.1.1.0 ∙ other.1 ∙ sym mine.1) in
            let none_such =
              any_refuse
                (λ u. is_run_of r₁.tenant_id r₁.job_id u && u.attempt_number == r₁.attempt_number)
                found.0 runs unique found.1.0 in
            let attempt = found.1.1.1.1 in ground arith
      ]

  retried_tracked :
      (j : ExecutionJob)
      → Within j jobs
      → (r : ExecutionRun) × ((latest_of (reset_job j).tenant_id (reset_job j).id (r₁ ∷ runs)
            ≡ some r)
          × (r.status ≡ (reset_job j).status))
  retried_tracked j w =
      let keys = set_job_keys r₁.tenant_id r₁.job_id failed queued j in
      let found = hits_job_sound r₁.tenant_id r₁.job_id failed j₀ hit₀ in
      let here_is =
        latest_at (reset_job j).tenant_id j.tenant_id (reset_job j).id j.id (r₁ ∷ runs) keys.1
          keys.0 in
      elim (Bool-cases (is_run_of j.tenant_id j.id r₁)) [
        | inl own ↦
            let mine = is_run_of_sound j.tenant_id j.id r₁ own in
            let same = c.one_job j j₀ w job_here (sym mine.1 ∙ sym found.0) in
            let hit = ap (hits_job r₁.tenant_id r₁.job_id failed) same ∙ hit₀ in
            (
              r₁,
              (
                here_is ∙ latest_of_hit j.tenant_id j.id r₁ runs own (top j.tenant_id j.id own),
                is_queued ∙ sym (set_job_hit r₁.tenant_id r₁.job_id failed queued j hit),
              ),
            )
        | inr other ↦
            let old = c.tracked j w in
            (
              old.0,
              (
                here_is ∙ latest_of_miss j.tenant_id j.id r₁ runs other ∙ old.1.0,
                elim (Bool-cases (hits_job r₁.tenant_id r₁.job_id failed j)) [
                  | inl hit ↦
                      let mine = hits_job_sound r₁.tenant_id r₁.job_id failed j hit in
                      cc (other, is_run_of_complete j.tenant_id j.id r₁ (sym mine.1.0) (sym mine.0))
                  | inr miss ↦
                      old.1.1
                      ∙ sym (
                          ap (λ x. x.status)
                            (set_job_miss r₁.tenant_id r₁.job_id failed queued j miss))
                ],
              ),
            )
      ]

  retried_settled :
      (r : ExecutionRun)
      → Within r (r₁ ∷ runs)
      → (latest_of r.tenant_id r.job_id (r₁ ∷ runs) ≡ some r) ⊎ (r.status ≡ failed)
  retried_settled r w = elim w [
    | inl e ↦
        let own =
          is_run_of_complete r.tenant_id r.job_id r₁ (ap (λ x. x.tenant_id) (sym e))
            (ap (λ x. x.job_id) (sym e)) in
        inl (
          latest_of_hit r.tenant_id r.job_id r₁ runs own (top r.tenant_id r.job_id own)
          ∙ ap some (sym e))
    | inr m ↦ elim (c.settled r m) [
      | inr is_failed ↦ inr is_failed
      | inl latest ↦ elim (Bool-cases (is_run_of r.tenant_id r.job_id r₁)) [
        | inr other ↦ inl (latest_of_miss r.tenant_id r.job_id r₁ runs other ∙ latest)
        | inl own ↦
            let mine = is_run_of_sound r.tenant_id r.job_id r₁ own in
            let found = hits_job_sound r₁.tenant_id r₁.job_id failed j₀ hit₀ in
            let old = c.tracked j₀ job_here in
            let at_job =
              latest_at j₀.tenant_id r.tenant_id j₀.id r.job_id runs (found.1.0 ∙ mine.0)
                (found.0 ∙ mine.1) in
            let same : r ≡ old.0 = some_injective (sym latest ∙ sym at_job ∙ old.1.0) in
            inr (ap (λ x. x.status) same ∙ old.1.1 ∙ found.1.1)
      ]
    ]
  ]

  retried_one_run :
      (r s : ExecutionRun) → Within r (r₁ ∷ runs) → Within s (r₁ ∷ runs) → r.id ≡ s.id → r ≡ s
  retried_one_run r s wr ws e =
      let clash : (u : ExecutionRun) → Within u runs → u.id ≡ r₁.id → ⊥ = λ u w same.
        let not_equal = any_refuse (λ v. v.id == r₁.id) u runs fresh w in ground arith in
      elim wr [
        | inl er ↦ elim ws [
          | inl es ↦ er ∙ sym es
          | inr ms ↦ absurd (clash s ms (sym e ∙ ap (λ x. x.id) er))
        ]
        | inr mr ↦ elim ws [
          | inl es ↦ absurd (clash r mr (e ∙ ap (λ x. x.id) es))
          | inr ms ↦ c.one_run r s mr ms e
        ]
      ]

  retried_owned :
      (r : ExecutionRun)
      → Within r (r₁ ∷ runs)
      → (j : ExecutionJob) × (Within j (map reset_job jobs)
          × ((j.id ≡ r.job_id) × (j.tenant_id ≡ r.tenant_id)))
  retried_owned r w =
      let owner : (j : ExecutionJob) × (Within j jobs
            × ((j.id ≡ r.job_id) × (j.tenant_id ≡ r.tenant_id))) =
        elim w [
          | inl e ↦
              let found = hits_job_sound r₁.tenant_id r₁.job_id failed j₀ hit₀ in
              (
                j₀,
                (
                  job_here,
                  (found.0 ∙ sym (ap (λ x. x.job_id) e), found.1.0 ∙ sym (ap (λ x. x.tenant_id) e)),
                ),
              )
          | inr m ↦ c.owned r m
        ] in
      let keys = set_job_keys r₁.tenant_id r₁.job_id failed queued owner.0 in
      (
        reset_job owner.0,
        (map-Within reset_job owner.0 jobs owner.1.0, (keys.0 ∙ owner.1.1.0, keys.1 ∙ owner.1.1.1)),
      )

  retried_contiguous :
      (r : ExecutionRun) (n : ℕ)
      → Within r (r₁ ∷ runs)
      → 1 ≤ n
      → n ≤ r.attempt_number
      → (s : ExecutionRun) × (Within s (r₁ ∷ runs)
          × ((s.job_id ≡ r.job_id) × ((s.tenant_id ≡ r.tenant_id) × (s.attempt_number ≡ n))))
  retried_contiguous r n w low high = elim w [
    | inl e ↦ elim (Bool-cases (n == r₁.attempt_number)) [
      | inl last ↦ (
        r₁,
        (
          inl refl,
          (ap (λ x. x.job_id) (sym e), (ap (λ x. x.tenant_id) (sym e), sym (nat_eq_sound last))),
        ),
      )
      | inr before ↦
          let attempt = ap (λ x. x.attempt_number) e in
          let found = c.contiguous prior n here low (ground arith) in
          (
            found.0,
            (
              inr found.1.0,
              (
                found.1.1.0 ∙ same_job ∙ ap (λ x. x.job_id) (sym e),
                (found.1.1.1.0 ∙ same_tenant ∙ ap (λ x. x.tenant_id) (sym e), found.1.1.1.1),
              ),
            ),
          )
    ]
    | inr m ↦ let found = c.contiguous r n m low high in (found.0, (inr found.1.0, found.1.1))
  ]

  -- The update and the insertion keep the rows in agreement.
  pub retried-Consistent : Consistent (map reset_job jobs) (r₁ ∷ runs)
  retried-Consistent = record {
    tracked = λ j w.
        let before = Within-map reset_job j jobs w in
        subst
          (λ k.
            (r : ExecutionRun) × ((latest_of k.tenant_id k.id (r₁ ∷ runs) ≡ some r)
              × (r.status ≡ k.status)))
          (sym before.1.1) (retried_tracked before.0 before.1.0);
    settled = retried_settled;
    one_job = λ j k wj wk e.
        let old = Within-map reset_job j jobs wj in
        let other = Within-map reset_job k jobs wk in
        let old_id =
          ap (λ x. x.id) old.1.1 ∙ (set_job_keys r₁.tenant_id r₁.job_id failed queued old.0).0 in
        let other_id =
          ap (λ x. x.id) other.1.1
          ∙ (set_job_keys r₁.tenant_id r₁.job_id failed queued other.0).0 in
        old.1.1
        ∙ ap reset_job (c.one_job old.0 other.0 old.1.0 other.1.0 (sym old_id ∙ e ∙ other_id))
        ∙ sym other.1.1;
    one_run = retried_one_run;
    owned = retried_owned;
    contiguous = retried_contiguous;
  }
