-- ===== src/Execution/Status.antt =====
-- growth_os/execution.py: the states of an execution job and the moves between them.
use growth_os.Prelude.{ℕ, ◌≡◌, refl, ◌↔◌, Bool, true, false, ◌||◌, List, [], ◌∷◌, arith, ◌==◌}

pub data ExecutionStatus : Type 0 where
  queued running awaiting_approval approved : ExecutionStatus
  rejected succeeded failed cancelled : ExecutionStatus

-- A member's place, by which members are compared.
abbrev pub place : ExecutionStatus → ℕ
place queued = 0
place running = 1
place awaiting_approval = 2
place approved = 3
place rejected = 4
place succeeded = 5
place failed = 6
place cancelled = 7

unfoldable pub status_eq : ExecutionStatus → ExecutionStatus → Bool
status_eq a b = place a == place b

pub status_eq_sound : (a b : ExecutionStatus) → status_eq a b ≡ true → a ≡ b
unfolding status_eq
status_eq_sound a b h = ground arith

pub status_eq_refl : (a : ExecutionStatus) → status_eq a a ≡ true
unfolding status_eq
status_eq_refl a = ground arith

unfoldable pub is_member : ExecutionStatus → List ExecutionStatus → Bool
unfolding status_eq
is_member s [] = false
is_member s (t ∷ ts) = status_eq s t || is_member s ts

-- `TERMINAL_STATUSES`
abbrev pub terminal_statuses : List ExecutionStatus
terminal_statuses = rejected ∷ succeeded ∷ failed ∷ cancelled ∷ []

-- `ALLOWED_TRANSITIONS`
unfoldable pub allowed_transitions : ExecutionStatus → List ExecutionStatus
allowed_transitions queued = running ∷ cancelled ∷ []
allowed_transitions running = awaiting_approval ∷ succeeded ∷ failed ∷ cancelled ∷ []
allowed_transitions awaiting_approval = approved ∷ rejected ∷ cancelled ∷ []
allowed_transitions approved = running ∷ cancelled ∷ []
allowed_transitions rejected = []
allowed_transitions succeeded = []
allowed_transitions failed = []
allowed_transitions cancelled = []

-- `validate_transition` returns, rather than raises a `ValueError`.
unfoldable pub is_valid_transition : ExecutionStatus → ExecutionStatus → Bool
unfolding is_member allowed_transitions
is_valid_transition current target = is_member target (allowed_transitions current)

terminal_no_move :
    (s t : ExecutionStatus) → is_member s terminal_statuses ≡ true → is_valid_transition s t ≡ false
unfolding is_valid_transition
terminal_no_move s t h = ground arith

no_move_terminal :
    (s : ExecutionStatus)
    → ((t : ExecutionStatus) → is_valid_transition s t ≡ false)
    → is_member s terminal_statuses ≡ true
unfolding is_valid_transition
no_move_terminal queued h = cc (h running)
no_move_terminal running h = cc (h failed)
no_move_terminal awaiting_approval h = cc (h approved)
no_move_terminal approved h = cc (h running)
no_move_terminal rejected h = refl
no_move_terminal succeeded h = refl
no_move_terminal failed h = refl
no_move_terminal cancelled h = refl

-- A status is among the terminal ones exactly when the table allows no move out of it.
pub terminal_iff :
    (s : ExecutionStatus)
    → (is_member s terminal_statuses ≡ true)
      ↔ ((t : ExecutionStatus) → is_valid_transition s t ≡ false)
terminal_iff s = (λ h t. terminal_no_move s t h, no_move_terminal s)

-- A job's history: the moves that the table allows, oldest first, from `queued`.
pub data History : ExecutionStatus → List ExecutionStatus → Type 0 where
  created : History queued []
  moved :
      {s : ExecutionStatus} {past : List ExecutionStatus} (t : ExecutionStatus)
      → History s past
      → is_valid_transition s t ≡ true
      → History t (s ∷ past)

-- The status comes only after a wait for approval.
abbrev pub AfterApproval : ExecutionStatus → List ExecutionStatus → Type 0
AfterApproval approved past = is_member awaiting_approval past ≡ true
AfterApproval rejected past = is_member awaiting_approval past ≡ true
AfterApproval _ past = Unit

before_approved :
    (s t : ExecutionStatus) (past : List ExecutionStatus)
    → is_valid_transition s t ≡ true
    → AfterApproval t (s ∷ past)
unfolding is_valid_transition
before_approved s approved past h = ground arith
before_approved s rejected past h = ground arith
before_approved s queued past h = tt
before_approved s running past h = tt
before_approved s awaiting_approval past h = tt
before_approved s succeeded past h = tt
before_approved s failed past h = tt
before_approved s cancelled past h = tt

-- In every history that the table allows, a job that is approved or rejected has waited for
-- approval before.
pub History-AfterApproval :
    (s : ExecutionStatus) (past : List ExecutionStatus) → History s past → AfterApproval s past
History-AfterApproval _ _ created = tt
History-AfterApproval _ _ (moved {s} {past} t h valid) = before_approved s t past valid
