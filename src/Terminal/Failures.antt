-- ===== src/Terminal/Failures.antt =====
-- How internal/browserterm reads the errors of processes and connections: classifyExecError of
-- exec.go, isRetryableGuestAccessError, isIgnorableShellCopyError and isExpectedSessionEndError of
-- manager.go.
use fascinate.Base.{
  inr, inl, Bool-cases, ◌⊎◌, ◌⊎◌, ℕ, ◌==◌, ◌≡◌, ◌↔◌, refl, Bool, true, false, ◌||◌, Option, none,
  some, List, [], ◌∷◌, arith, if◌then◌else◌,
}
use fascinate.Base.Text.{Text, codes, text_eq, text_eq_refl, trim_space, to_lower, contains_text}

-- An error as the program looks at it: its text, what errors.Is and errors.As find in it, and the
-- status with which a connection was closed, where there is one.
pub record Failure : Type 0 where
  pub text : Text
  pub is_deadline : Bool
  pub is_canceled : Bool
  pub is_eof : Bool
  pub exit_code : Option ℕ
  pub close_status : Option ℕ

-- ctx.Err(), of which either may hold
pub record ExecContext : Type 0 where
  pub deadline_exceeded : Bool
  pub canceled : Bool

-- The states and classes of commands
abbrev pub exec_state_running : Text
exec_state_running = codes "RUNNING"

abbrev pub exec_state_succeeded : Text
exec_state_succeeded = codes "SUCCEEDED"

abbrev pub exec_state_failed : Text
exec_state_failed = codes "FAILED"

abbrev pub exec_state_timed_out : Text
exec_state_timed_out = codes "TIMED_OUT"

abbrev pub exec_state_cancelled : Text
exec_state_cancelled = codes "CANCELLED"

abbrev pub exec_state_error : Text
exec_state_error = codes "ERROR"

-- strings.ToLower(strings.TrimSpace(err.Error()))
abbrev pub folded : Failure → Text
folded f = to_lower (trim_space f.text)

pub record Classified : Type 0 where
  pub state : Text
  pub exit_code : Option ℕ
  pub failure_class : Option Text

-- classifyExecError, given whether the job is cancelled
unfoldable pub classify_exec_error : Bool → ExecContext → Option Failure → Classified
classify_exec_error cancelled ctx none = record {
  state = exec_state_succeeded;
  exit_code = none;
  failure_class = none;
}
classify_exec_error cancelled ctx (some f) =
    if f.is_deadline
      || ctx.deadline_exceeded
      || contains_text (folded f) (codes "deadline exceeded")
    then record {
      state = exec_state_timed_out;
      exit_code = none;
      failure_class = some (codes "timeout");
    }
    else if cancelled
        || f.is_canceled
        || ctx.canceled
        || contains_text (folded f) (codes "context canceled")
    then record {
      state = exec_state_cancelled;
      exit_code = none;
      failure_class = some (codes "cancelled");
    }
    else elim f.exit_code [
      | some code ↦ record {
        state = exec_state_failed;
        exit_code = some code;
        failure_class = some (codes "command_exit");
      }
      | none ↦ record {
        state = exec_state_error;
        exit_code = none;
        failure_class = some (codes "transport");
      }
    ]

contains_any : Text → List Text → Bool
contains_any s [] = false
contains_any s (part ∷ rest) = contains_text s part || contains_any s rest

-- isRetryableGuestAccessError
unfoldable pub is_retryable_guest_access_error : Option Failure → Bool
unfolding contains_any
is_retryable_guest_access_error none = false
is_retryable_guest_access_error (some f) = contains_any (folded f) (
    codes "connection refused"
    ∷ codes "connection reset by peer"
    ∷ codes "operation timed out"
    ∷ codes "connection timed out"
    ∷ codes "no route to host"
    ∷ codes "network is unreachable"
    ∷ [])

-- isIgnorableShellCopyError
unfoldable pub is_ignorable_shell_copy_error : Option Failure → Bool
is_ignorable_shell_copy_error none = true
is_ignorable_shell_copy_error (some f) =
    f.is_eof
    || contains_text (folded f) (codes "input/output error")
    || contains_text (folded f) (codes "closed")

-- websocket.StatusNormalClosure, StatusGoingAway and StatusNoStatusRcvd
abbrev pub is_plain_end : Option ℕ → Bool
is_plain_end none = false
is_plain_end (some status) = status == 1000 || status == 1001 || status == 1005

-- isExpectedSessionEndError
unfoldable pub is_expected_session_end_error : Option Failure → Bool
is_expected_session_end_error none = true
is_expected_session_end_error (some f) =
    f.is_canceled || is_ignorable_shell_copy_error (some f) || is_plain_end f.close_status

failed_not_succeeded :
    (cancelled : Bool) (ctx : ExecContext) (f : Failure)
    → text_eq (classify_exec_error cancelled ctx (some f)).state exec_state_succeeded ≡ false
unfolding classify_exec_error text_eq
failed_not_succeeded cancelled ctx f = ground arith

-- A command is classified as succeeded exactly when it has ended without an error.
pub classify_success_iff :
    (cancelled : Bool) (ctx : ExecContext) (f : Option Failure)
    → ((classify_exec_error cancelled ctx f).state ≡ exec_state_succeeded) ↔ (f ≡ none)
unfolding classify_exec_error
classify_success_iff cancelled ctx none = (λ e. refl, λ e. refl)
classify_success_iff cancelled ctx (some f) = (
  λ e.
      absurd (
        ground (arith, failed_not_succeeded cancelled ctx f, text_eq_refl exec_state_succeeded, e)),
  λ e. absurd (ground (arith, e)),
)

-- What makes a failure one of time, or one of a cancellation.
abbrev pub RanOut : ExecContext → Failure → Type 0
RanOut ctx f =
    (f.is_deadline ≡ true)
    ⊎ (ctx.deadline_exceeded ≡ true)
    ⊎ (contains_text (folded f) (codes "deadline exceeded") ≡ true)

abbrev pub WasCancelled : Bool → ExecContext → Failure → Type 0
WasCancelled cancelled ctx f =
    (cancelled ≡ true)
    ⊎ (f.is_canceled ≡ true)
    ⊎ (ctx.canceled ≡ true)
    ⊎ (contains_text (folded f) (codes "context canceled") ≡ true)

-- What is to be recorded of a command, by the failure with which it ended, if any: its state, its exit
-- code and its class. Time goes before a cancellation, and that before the exit code.
pub data Verdict (cancelled : Bool) (ctx : ExecContext)
    : Option Failure → Text → Option ℕ → Option Text → Type 0 where
  succeeded : Verdict cancelled ctx none exec_state_succeeded none none
  timed_out :
      (f : Failure)
      → RanOut ctx f
      → Verdict cancelled ctx (some f) exec_state_timed_out none (some (codes "timeout"))
  was_cancelled :
      (f : Failure)
      → ¬ RanOut ctx f
      → WasCancelled cancelled ctx f
      → Verdict cancelled ctx (some f) exec_state_cancelled none (some (codes "cancelled"))
  exited :
      (f : Failure) (code : ℕ)
      → ¬ RanOut ctx f
      → ¬ WasCancelled cancelled ctx f
      → f.exit_code ≡ some code
      → Verdict cancelled ctx (some f) exec_state_failed (some code) (some (codes "command_exit"))
  broke :
      (f : Failure)
      → ¬ RanOut ctx f
      → ¬ WasCancelled cancelled ctx f
      → f.exit_code ≡ none
      → Verdict cancelled ctx (some f) exec_state_error none (some (codes "transport"))

abbrev Judged : Bool → ExecContext → Option Failure → Classified → Type 0
Judged cancelled ctx f c = Verdict cancelled ctx f c.state c.exit_code c.failure_class

-- classifyExecError gives what is to be recorded.
pub classify-Verdict :
    (cancelled : Bool) (ctx : ExecContext) (f : Option Failure)
    → Judged cancelled ctx f (classify_exec_error cancelled ctx f)
unfolding classify_exec_error
classify-Verdict cancelled ctx none = Verdict.succeeded
classify-Verdict cancelled ctx (some f) = elim (Bool-cases late) [
  | inl e ↦ rw e (Verdict.timed_out f (ran_out e))
  | inr e ↦ elim (Bool-cases stopped) [
    | inl e2 ↦ rw (e, e2) (Verdict.was_cancelled f (in_time e) (cancelled_by e2))
    | inr e2 ↦ rw (e, e2) (by_code f.exit_code refl (in_time e) (not_cancelled e2))
  ]
]
  where
    late : Bool
    late =
        f.is_deadline
        || ctx.deadline_exceeded
        || contains_text (folded f) (codes "deadline exceeded")

    stopped : Bool
    stopped =
        cancelled
        || f.is_canceled
        || ctx.canceled
        || contains_text (folded f) (codes "context canceled")

    ran_out : late ≡ true → RanOut ctx f
    ran_out e = ground arith

    in_time : late ≡ false → ¬ RanOut ctx f
    in_time e h = ground arith

    cancelled_by : stopped ≡ true → WasCancelled cancelled ctx f
    cancelled_by e = ground arith

    not_cancelled : stopped ≡ false → ¬ WasCancelled cancelled ctx f
    not_cancelled e h = ground arith

    by_code :
        (o : Option ℕ)
        → f.exit_code ≡ o
        → ¬ RanOut ctx f
        → ¬ WasCancelled cancelled ctx f
        → Judged cancelled ctx (some f) (elim o [
          | some code ↦ record {
            state = exec_state_failed;
            exit_code = some code;
            failure_class = some (codes "command_exit");
          }
          | none ↦ record {
            state = exec_state_error;
            exit_code = none;
            failure_class = some (codes "transport");
          }
        ])
    by_code none e a b = Verdict.broke f a b e
    by_code (some code) e a b = Verdict.exited f code a b e
