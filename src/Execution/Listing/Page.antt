-- ===== src/Execution/Listing/Page.antt =====
-- The page that a listing of growth_os/execution_service.py shows, apart from its statements.
use Prim.Native.String.{String}
use text.Mathlib.Text.{◌==◌ as str_eq}
use growth_os.Prelude.{
  ℕ, zero, suc, ◌≤◌, ◌≡◌, refl, sym, ap, ◌∙◌, ◌⊎◌, inl, inr, Bool, true, ◌&&◌, Option, none, some,
  List, [], ◌∷◌, ◌++◌, arith, ◌==◌, drop, length, Bool-cases,
}
use growth_os.Execution.Status.{ExecutionStatus, status_eq, status_eq_sound, status_eq_refl}
use growth_os.Execution.Store.{ExecutionJob, keep}
use growth_os.Execution.Store.Rows.{and_left, and_right, nat_eq_sound}
use growth_os.Execution.Listing.{take, given, is_listed_job}

-- A condition on what is given, if it is.
abbrev Where : {A : Type 0} → Option A → (A → Type 0) → Type 0
Where none P = Unit {0}
Where (some a) P = P a

-- The tenant's jobs with the workspace, the status and the kind that are asked for.
abbrev pub IsListed : ℕ → Option ℕ → Option ExecutionStatus → Option String → ExecutionJob → Type 0
IsListed tenant workspace_id status kind j =
    (j.tenant_id ≡ tenant)
    × (Where workspace_id (λ w. j.workspace_id ≡ w)
        × (Where status (λ s. j.status ≡ s) × Where kind (λ k. str_eq j.kind k ≡ true)))

module _ {A : Type 0} (P : A → Type 0) where
  -- The rows that meet the condition, each in its place.
  unfoldable pub IsSelection : List A → List A → Type 0
  IsSelection [] chosen = chosen ≡ []
  IsSelection (x ∷ xs) chosen =
      (P x × ((rest : List A) × ((chosen ≡ x ∷ rest) × IsSelection xs rest)))
      ⊎ ((P x → ⊥) × IsSelection xs chosen)

  keep-IsSelection :
      (test : A → Bool)
      → ((x : A) → test x ≡ true → P x)
      → ((x : A) → P x → test x ≡ true)
      → (xs : List A) → IsSelection xs (keep test xs)
  unfolding IsSelection keep
  keep-IsSelection test sound complete [] = refl
  keep-IsSelection test sound complete (x ∷ xs) = elim (Bool-cases (test x)) [
    | inl hit ↦ inl (sound x hit, (keep test xs, (rw hit, keep-IsSelection test sound complete xs)))
    | inr miss ↦
        rw miss (inr (λ h. cc (miss, complete x h), keep-IsSelection test sound complete xs))
  ]

-- A page: the rows after the first `offset`, or none where there are no more, and `limit` of them,
-- or all that are left where there are fewer.
abbrev pub IsPage : {A : Type 0} → ℕ → ℕ → List A → List A → Type 0
IsPage {A = A} limit offset rows shown =
    (before : List A) × ((after : List A) × ((rows ≡ before ++ (shown ++ after))
        × (((length before ≡ offset) ⊎ ((length before ≤ offset) × (shown ++ after ≡ [])))
            × ((length shown ≡ limit) ⊎ ((length shown ≤ limit) × (after ≡ []))))))

take_cases :
    {A : Type 0} (n : ℕ) (xs : List A)
    → (after : List A) × ((xs ≡ take n xs ++ after)
        × ((length (take n xs) ≡ n) ⊎ ((length (take n xs) ≤ n) × (after ≡ []))))
unfolding take
take_cases zero xs = (xs, (refl, inl refl))
take_cases (suc n) [] = ([], (refl, inr (omega arith, refl)))
take_cases (suc n) (x ∷ xs) =
    let rest = take_cases n xs in
    (
      rest.0,
      (
        ap (λ l. x ∷ l) rest.1.0,
        elim rest.1.1 [
          | inl full ↦ inl (ap (λ k. suc k) full)
          | inr (few, all) ↦ inr (omega arith, all)
        ],
      ),
    )

drop_cases :
    {A : Type 0} (n : ℕ) (xs : List A)
    → (before : List A) × ((xs ≡ before ++ drop n xs)
        × ((length before ≡ n) ⊎ ((length before ≤ n) × (drop n xs ≡ []))))
drop_cases zero xs = ([], (refl, inl refl))
drop_cases (suc n) [] = ([], (refl, inr (omega arith, refl)))
drop_cases (suc n) (x ∷ xs) =
    let rest = drop_cases n xs in
    (
      x ∷ rest.0,
      (
        ap (λ l. x ∷ l) rest.1.0,
        elim rest.1.1 [
          | inl full ↦ inl (ap (λ k. suc k) full)
          | inr (few, all) ↦ inr (omega arith, all)
        ],
      ),
    )

pub take-IsPage :
    {A : Type 0} (limit offset : ℕ) (rows : List A)
    → IsPage limit offset rows (take limit (drop offset rows))
take-IsPage limit offset rows =
    let skipped = drop_cases offset rows in
    let shown = take_cases limit (drop offset rows) in
    (
      skipped.0,
      (
        shown.0,
        (
          skipped.1.0 ∙ ap (λ l. skipped.0 ++ l) shown.1.0,
          (
            elim skipped.1.1 [
              | inl full ↦ inl full
              | inr (few, all) ↦ inr (few, sym shown.1.0 ∙ all)
            ],
            shown.1.1,
          ),
        ),
      ),
    )

nat_eq_complete : (a b : ℕ) → a ≡ b → (a == b) ≡ true
nat_eq_complete a b e = ground arith

status_eq_complete : (a b : ExecutionStatus) → a ≡ b → status_eq a b ≡ true
status_eq_complete a b e = rw (e, status_eq_refl b)

given_sound :
    {A : Type 0} (o : Option A) (test : A → Bool) (P : A → Type 0)
    → ((a : A) → test a ≡ true → P a)
    → given o test ≡ true
    → Where o P
given_sound none test P sound h = tt
given_sound (some a) test P sound h = sound a h

given_complete :
    {A : Type 0} (o : Option A) (test : A → Bool) (P : A → Type 0)
    → ((a : A) → P a → test a ≡ true)
    → Where o P
    → given o test ≡ true
given_complete none test P complete h = refl
given_complete (some a) test P complete h = complete a h

and_both : (a b : Bool) → a ≡ true → b ≡ true → (a && b) ≡ true
and_both a b e f = rw (e, f)

module _ (tenant : ℕ) (workspace_id : Option ℕ) (status : Option ExecutionStatus)
    (kind : Option String) where
  is_listed_job_sound :
      (j : ExecutionJob)
      → is_listed_job tenant workspace_id status kind j ≡ true
      → IsListed tenant workspace_id status kind j
  unfolding is_listed_job
  is_listed_job_sound j h =
      let rest = and_right (j.tenant_id == tenant) _ h in
      let last = and_right (given workspace_id (λ w. j.workspace_id == w)) _ rest in
      (
        nat_eq_sound (and_left (j.tenant_id == tenant) _ h),
        (
          given_sound workspace_id _ _ (λ w e. nat_eq_sound e) (and_left _ _ rest),
          (
            given_sound status _ _ (λ s e. status_eq_sound j.status s e) (and_left _ _ last),
            given_sound kind _ _ (λ k e. e)
                (and_right (given status (λ s. status_eq j.status s)) _ last),
          ),
        ),
      )

  is_listed_job_complete :
      (j : ExecutionJob)
      → IsListed tenant workspace_id status kind j
      → is_listed_job tenant workspace_id status kind j ≡ true
  unfolding is_listed_job
  is_listed_job_complete j (own, (space, (state, sort))) =
      and_both _ _ (nat_eq_complete j.tenant_id tenant own) (
        and_both _ _
          (given_complete workspace_id _ _ (λ w e. nat_eq_complete j.workspace_id w e) space)
          (and_both _ _ (given_complete status _ _ (λ s e. status_eq_complete j.status s e) state)
            (given_complete kind _ _ (λ k e. e) sort)))

  pub selected-IsSelection :
      (js : List ExecutionJob)
      → IsSelection
          (IsListed tenant workspace_id status kind)
          js
          (keep (is_listed_job tenant workspace_id status kind) js)
  selected-IsSelection js =
      keep-IsSelection (IsListed tenant workspace_id status kind)
        (is_listed_job tenant workspace_id status kind) is_listed_job_sound is_listed_job_complete
        js
