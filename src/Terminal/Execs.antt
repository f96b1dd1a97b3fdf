-- ===== src/Terminal/Execs.antt =====
-- The operations on commands of internal/browserterm/exec.go.
use fascinate.Base.{
  ℕ, ◌/◌, ◌==◌, Bool, true, false, not, Option, none, some, List, [], ◌∷◌, ◌++◌, if◌then◌else◌,
}
use fascinate.Base.Word.{is_positive}
use fascinate.Base.Text.{Text, codes, text_eq, trim_space, equal_fold, is_empty}
use fascinate.Result.{
  ok, err, not_found, command_required, machine_not_running, gateway_unavailable,
}
use fascinate.Database.Records.{ExecRecord, EventKind}
use fascinate.Database.Monad.{
  M, pure, gets, attempt, fail_if, allow_missing, record_event, ◌>>=◌, ◌>>◌,
}
use fascinate.Database.Users.{get_user_by_email}
use fascinate.Database.Execs.{
  create_exec_row, get_exec_by_id, FinishExecParams, mark_exec_cancel_requested, complete_exec,
}
use fascinate.Terminal.{TerminalService}
use fascinate.Terminal.Attachments.{on_terminals}
use fascinate.Terminal.Output.{CappedStringBuffer, exec_output_store_limit, write_string, write_all}
use fascinate.Terminal.Shells.{gateway_host, string_pointer}
use fascinate.Terminal.Failures.{
  Failure, ExecContext, Classified, exec_state_running, exec_state_error, classify_exec_error,
}

-- ExecRequest; the timeout is a duration in nanoseconds
pub record ExecRequest : Type 0 where
  pub id : Text
  pub command_text : Text
  pub cwd : Text
  pub timeout : ℕ

-- How the process of a command went: it could not be started, or pieces were read from its two outputs
-- and it ended, with the errors of waiting for it and of reading the outputs. The pieces are what
-- captureExecStream reads; cmd.Wait closes the pipes when the process ends, so output that it wrote
-- and that was not read by then is in none of them.
pub data Run : Type 0 where
  not_started : Failure → Run
  ended : List Text → List Text → Option Failure → Option Failure → Option Failure → Run

-- m.execJobs
unfoldable pub job_cancelled : Text → List (Text × Bool) → Bool
job_cancelled i [] = false
job_cancelled i ((j, c) ∷ rest) = if text_eq j i then c else job_cancelled i rest

unfoldable pub remove_job : Text → List (Text × Bool) → List (Text × Bool)
remove_job i [] = []
remove_job i ((j, c) ∷ rest) =
    let others = remove_job i rest in if text_eq j i then others else (j, c) ∷ others

unfoldable pub cancel_job : Text → List (Text × Bool) → List (Text × Bool)
cancel_job i [] = []
cancel_job i ((j, c) ∷ rest) = (j, (if text_eq j i then true else c)) ∷ cancel_job i rest

abbrev pub exec_event : ExecRecord → EventKind → M (Unit {0})
exec_event r kind = record_event (some r.user_id) (some r.machine_id) kind

-- The seconds that CreateExec keeps of a timeout.
unfoldable pub timeout_seconds : ℕ → ℕ
timeout_seconds timeout =
    if is_positive timeout
    then (if timeout / 1000000000 == 0 then 1 else timeout / 1000000000)
    else 0

-- loadExec
unfoldable pub load_exec : Text → Text → M ExecRecord
load_exec exec_id user_email = do
  r ← get_exec_by_id exec_id
  fail_if (not (equal_fold r.user_email user_email)) not_found
  pure r

-- The rest of CancelExec, for a command that has not ended.
unfoldable pub request_cancel : Text → M (Unit {0})
request_cancel exec_id = do
  allow_missing (mark_exec_cancel_requested exec_id)
  on_terminals λ t. record t { jobs = cancel_job (trim_space exec_id) t.jobs }
  attempt (get_exec_by_id exec_id) λ q. elim q [
    | err e ↦ pure tt
    | ok updated ↦ exec_event updated EventKind.exec_cancel_requested
  ]

-- CancelExec
unfoldable pub cancel_exec : Text → Text → M (Unit {0})
cancel_exec user_email exec_id = do
  r ← load_exec exec_id user_email
  if r.completed then pure tt else request_cancel exec_id

abbrev pub no_output : CappedStringBuffer
no_output = record { limit = exec_output_store_limit; content = []; truncated = false }

-- What a command leaves: how it is classified, and its two outputs.
pub record Outcome : Type 0 where
  pub classified : Classified
  pub stdout : CappedStringBuffer
  pub stderr : CappedStringBuffer

unfoldable pub first_failure : Option Failure → Option Failure → Option Failure → Option Failure
first_failure (some f) one two = some f
first_failure none (some f) two = some f
first_failure none none two = two

unfoldable pub failure_line : Text → Option Failure → CappedStringBuffer → CappedStringBuffer
failure_line state none b = b
failure_line state (some f) b =
    if text_eq state exec_state_error then write_string b (f.text ++ codes "\n") else b

-- runExec up to finishExec
unfoldable pub outcome_of : Bool → ExecContext → Run → Outcome
outcome_of cancelled ctx (Run.not_started f) = record {
  classified = classify_exec_error cancelled ctx (some f);
  stdout = no_output;
  stderr = write_string no_output (trim_space f.text ++ codes "\n");
}
outcome_of cancelled ctx (Run.ended out errors wait one two) =
    let failure = first_failure wait one two in
    let c = classify_exec_error cancelled ctx failure in
    record {
      classified = c;
      stdout = write_all no_output out;
      stderr = failure_line c.state failure (write_all no_output errors);
    }

-- What finishExec makes of the record when the database does not take it.
abbrev pub kept_in_memory : Outcome → ExecRecord → ExecRecord
kept_in_memory o r = record r {
  state = o.classified.state;
  exit_code = o.classified.exit_code;
  failure_class = o.classified.failure_class;
  stdout_text = o.stdout.content;
  stderr_text = o.stderr.content;
  stdout_truncated = o.stdout.truncated;
  stderr_truncated = o.stderr.truncated;
  completed = true;
}

abbrev pub finish_params : Text → Outcome → FinishExecParams
finish_params i o = record {
  id = i;
  state = o.classified.state;
  exit_code = o.classified.exit_code;
  failure_class = o.classified.failure_class;
  stdout_text = o.stdout.content;
  stderr_text = o.stderr.content;
  stdout_truncated = o.stdout.truncated;
  stderr_truncated = o.stderr.truncated;
}

-- finishExec, with the record that the subscribers are sent
unfoldable pub finish_exec : ExecRecord → Outcome → M ExecRecord
finish_exec r o = attempt (complete_exec (finish_params r.id o)) λ q. elim q [
  | err e ↦ pure (kept_in_memory o r)
  | ok done ↦ (do exec_event done EventKind.exec_completed; pure done)
]

-- runExec
unfoldable pub run_exec : ExecContext → ExecRecord → Run → M ExecRecord
run_exec ctx r run = do
  cancelled ← gets λ w. job_cancelled r.id w.terminals.jobs
  result ← finish_exec r (outcome_of cancelled ctx run)
  on_terminals λ t. record t { jobs = remove_job r.id t.jobs }
  pure result

module _ (s : TerminalService) where
  -- CreateExec, up to the start of runExec
  unfoldable pub create_exec : Text → Text → Text → ExecRequest → M ExecRecord
  create_exec fresh user_email machine_name req = do
    let command_text = trim_space req.command_text
    fail_if (is_empty command_text) command_required
    machine ← s.find_machine machine_name user_email
    fail_if (not (equal_fold machine.state (codes "RUNNING"))) (machine_not_running machine_name)
    let host = gateway_host s.local_host_id machine
    fail_if (not (text_eq host s.local_host_id)) (gateway_unavailable host)
    user ← get_user_by_email user_email
    r ← create_exec_row fresh (record {
      id = trim_space req.id;
      user_id = user.id;
      machine_id = machine.id;
      host_id = string_pointer host;
      command_text = command_text;
      cwd = trim_space req.cwd;
      state = exec_state_running;
      requested_timeout_seconds = timeout_seconds req.timeout;
    })
    on_terminals λ t. record t { jobs = (r.id, false) ∷ remove_job r.id t.jobs }
    exec_event r EventKind.exec_started
    pure r
