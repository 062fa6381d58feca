-- ===== src/Execution/Service/Progress.antt =====
-- `transition_job` of growth_os/execution_service.py in a database that no other transaction changes.
use growth_os.Prelude.{
  ℕ, ◌≡◌, sym, ap, ◌∙◌, inl, inr, Bool, true, not, ◌&&◌, some, List, [], ◌∷◌, arith, ◌==◌, Within,
  Bool-cases,
}
use growth_os.Execution.Status.{ExecutionStatus, status_eq, status_eq_refl}
use growth_os.Execution.Store.{ExecutionRun, Db, any, find, hits_run}

pub find_complete :
    {A : Type 0} (test : A → Bool) (x : A) (xs : List A)
    → Within x xs
    → test x ≡ true
    → (y : A) × (find test xs ≡ some y)
unfolding find
find_complete test x [] w h = absurd w
find_complete test x (y ∷ ys) w h = elim (Bool-cases (test y)) [
  | inl hit ↦ (y, rw hit)
  | inr miss ↦ elim w [
    | inl e ↦ cc (miss, ap test e, h)
    | inr m ↦ let rest = find_complete test x ys m h in (rest.0, rw (miss, rest.1))
  ]
]

pub any_complete :
    {A : Type 0} (test : A → Bool) (x : A) (xs : List A)
    → Within x xs
    → test x ≡ true
    → any test xs ≡ true
unfolding any
any_complete test x [] w h = absurd w
any_complete test x (y ∷ ys) w h = elim w [
  | inl e ↦ let hit : test y ≡ true = ap test (sym e) ∙ h in rw hit
  | inr m ↦ let rest = any_complete test x ys m h in ground arith
]

pub same_keys : (a b c d : ℕ) → a ≡ b → c ≡ d → (a == b && c == d) ≡ true
same_keys a b c d e f = ground arith

pub hits_run_complete :
    (tenant run_id : ℕ) (expected : ExecutionStatus) (r : ExecutionRun)
    → r.id ≡ run_id
    → r.tenant_id ≡ tenant
    → r.status ≡ expected
    → hits_run tenant run_id expected r ≡ true
unfolding hits_run
hits_run_complete tenant run_id expected r same_id same_tenant same_status =
    let same = ap (λ s. status_eq s expected) same_status ∙ status_eq_refl expected in ground arith

-- The key of the event is new and its tenant exists.
abbrev pub CanAudit : Db → ℕ → ℕ → Type 0
CanAudit db tenant audit_id =
    (not (any (λ b. b.id == audit_id) db.audits) && any (λ t. t == tenant) db.tenants) ≡ true
