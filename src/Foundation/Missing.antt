-- ===== src/Foundation/Missing.antt =====
-- What `get_onboarding_status` of growth_os/services.py reports as missing.
use growth_os.Prelude.{
  ℕ, ◌≡◌, refl, sym, ap, ◌∙◌, ◌↔◌, inl, inr, Bool, true, false, ◌&&◌, List, [], ◌∷◌, map, ◌==◌,
  Within, Bool-cases, ok, or_raise, bind_ok, ok_injective, subst,
}
use growth_os.Execution.Store.{find}
use growth_os.Execution.Store.Rows.{any_sound, nat_eq_sound, and_left, and_right}
use growth_os.Execution.Service.{not_found}
use growth_os.Execution.Service.Progress.{any_complete, same_keys}
use growth_os.Foundation.Tables.{FoundationDb}
use growth_os.Foundation.{
  site_keys, profile_keys, goal_keys, policy_keys, Owned, OnboardingStep, site, business_profile,
  primary_growth_goal, autonomy_policy, OnboardingStatus, has_row, get_onboarding_record_status,
  ordered_steps, all_present, missing, onboarding_status, get_onboarding_status,
}

-- The rows that a step asks for.
abbrev pub rows_of : FoundationDb → OnboardingStep → List Owned
rows_of db site = map site_keys db.sites
rows_of db business_profile = map profile_keys db.business_profiles
rows_of db primary_growth_goal = map goal_keys db.primary_growth_goals
rows_of db autonomy_policy = map policy_keys db.autonomy_policies

-- The tenant has a row of its own for the step in the workspace.
abbrev pub Done : FoundationDb → ℕ → ℕ → OnboardingStep → Type 0
Done db tenant workspace_id step =
    (r : Owned) × (Within r (rows_of db step)
      × ((r.tenant_id ≡ tenant) × (r.workspace_id ≡ workspace_id)))

has_row_iff :
    (tenant workspace_id : ℕ) (rows : List Owned)
    → (has_row tenant workspace_id rows ≡ true)
      ↔ ((r : Owned) × (Within r rows × ((r.tenant_id ≡ tenant) × (r.workspace_id ≡ workspace_id))))
unfolding has_row
has_row_iff tenant workspace_id rows = (
  λ h.
      let found = any_sound (λ r. r.tenant_id == tenant && r.workspace_id == workspace_id) rows h in
      (
        found.0,
        (
          found.1.0,
          (
            nat_eq_sound (and_left (found.0.tenant_id == tenant) _ found.1.1),
            nat_eq_sound (and_right (found.0.tenant_id == tenant) _ found.1.1),
          ),
        ),
      ),
  λ (r, (w, (e, f))).
      any_complete (λ s. s.tenant_id == tenant && s.workspace_id == workspace_id) r rows w
        (same_keys r.tenant_id tenant r.workspace_id workspace_id e f),
)

all_present_iff :
    (steps : List (OnboardingStep × Bool)) → (all_present steps ≡ true) ↔ (missing steps ≡ [])
unfolding all_present missing
all_present_iff [] = (λ h. refl, λ h. refl)
all_present_iff ((step, present) ∷ rest) = elim (Bool-cases present) [
  | inl here ↦ rw here (all_present_iff rest)
  | inr absent ↦ rw absent (λ h. cc, λ h. cc)
]

missing_iff :
    (steps : List (OnboardingStep × Bool)) (step : OnboardingStep)
    → Within step (missing steps) ↔ Within (step, false) steps
unfolding missing
missing_iff [] step = (λ w. w, λ w. w)
missing_iff ((other, true) ∷ rest) step = (
  λ w. inr ((missing_iff rest step).0 w),
  λ w. elim w [ inl e ↦ cc | inr m ↦ (missing_iff rest step).1 m ],
)
missing_iff ((other, false) ∷ rest) step = (
  λ w. elim w [ inl e ↦ inl (ap (λ s. (s, false)) e) | inr m ↦ inr ((missing_iff rest step).0 m) ],
  λ w. elim w [ inl e ↦ inl (ap (λ p. p.0) e) | inr m ↦ inr ((missing_iff rest step).1 m) ],
)

step_row :
    (db : FoundationDb) (tenant workspace_id : ℕ) (step : OnboardingStep)
    → Within (step, false) (ordered_steps (get_onboarding_record_status db tenant workspace_id))
      ↔ (has_row tenant workspace_id (rows_of db step) ≡ false)
unfolding get_onboarding_record_status
step_row db tenant workspace_id step = (
  λ w. elim w [
    | inl e ↦ reads_row site e
    | inr first ↦ elim first [
      | inl e ↦ reads_row business_profile e
      | inr second ↦ elim second [
        | inl e ↦ reads_row primary_growth_goal e
        | inr third ↦ elim third [
          | inl e ↦ reads_row autonomy_policy e
          | inr none_left ↦ absurd none_left
        ]
      ]
    ]
  ],
  λ h. stands step h,
)
  where
    reads_row :
        (other : OnboardingStep)
        → ◌≡◌ {A = OnboardingStep × Bool}
            (step, false)
            (other, has_row tenant workspace_id (rows_of db other))
        → has_row tenant workspace_id (rows_of db step) ≡ false
    reads_row other e =
        ap (λ s. has_row tenant workspace_id (rows_of db s)) (ap (λ p. p.0) e)
        ∙ sym (ap (λ p. p.1) e)

    stands :
        (s : OnboardingStep)
        → has_row tenant workspace_id (rows_of db s) ≡ false
        → Within (s, false) (ordered_steps (get_onboarding_record_status db tenant workspace_id))
    stands site h = inl (ap (λ b. (site, b)) (sym h))
    stands business_profile h = inr (inl (ap (λ b. (business_profile, b)) (sym h)))
    stands primary_growth_goal h = inr (inr (inl (ap (λ b. (primary_growth_goal, b)) (sym h))))
    stands autonomy_policy h = inr (inr (inr (inl (ap (λ b. (autonomy_policy, b)) (sym h)))))

-- In a reported onboarding status, which is of the tenant's workspace, a step is missing exactly
-- where the tenant has no row for it in the workspace, and the foundation is complete exactly
-- where no step is missing.
pub get_onboarding_status-Done :
    (db : FoundationDb) (tenant workspace_id : ℕ) (status : OnboardingStatus)
    → get_onboarding_status db tenant workspace_id ≡ ok status
    → ((step : OnboardingStep)
        → Within step status.missing_steps ↔ (Done db tenant workspace_id step → ⊥))
      × ((status.is_foundation_complete ≡ true) ↔ (status.missing_steps ≡ []))
unfolding get_onboarding_status onboarding_status
get_onboarding_status-Done db tenant workspace_id status h =
    let records = get_onboarding_record_status db tenant workspace_id in
    let step =
      bind_ok
        (or_raise (find (λ w. w.id == workspace_id && w.tenant_id == tenant) db.workspaces)
          not_found)
        _ status h in
    subst
      (λ s.
        ((step : OnboardingStep)
          → Within step s.missing_steps ↔ (Done db tenant workspace_id step → ⊥))
        × ((s.is_foundation_complete ≡ true) ↔ (s.missing_steps ≡ [])))
      (ok_injective step.1.1)
      (
        λ s.
            let rows = rows_of db s in
            (
              λ w d.
                  let absent =
                    (step_row db tenant workspace_id s).0
                      ((missing_iff (ordered_steps records) s).0 w) in
                  let present = (has_row_iff tenant workspace_id rows).1 d in cc,
              λ no. elim (Bool-cases (has_row tenant workspace_id rows)) [
                | inl present ↦ absurd (no ((has_row_iff tenant workspace_id rows).0 present))
                | inr absent ↦
                    (missing_iff (ordered_steps records) s).1
                      ((step_row db tenant workspace_id s).1 absent)
              ],
            ),
        all_present_iff (ordered_steps records),
      )
