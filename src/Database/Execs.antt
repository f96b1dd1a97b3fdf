-- ===== src/Database/Execs.antt =====
-- internal/database/execs.go. The table is kept newest first, as ListExecs lists it (two commands of
-- one second may stand there in another order).
use fascinate.Base.{
  ℕ, Bool, true, false, not, ◌||◌, Option, none, some, List, [], ◌∷◌, take, if◌then◌else◌,
}
use fascinate.Base.Word.{sle}
use fascinate.Base.Text.{Text, text_eq, trim_space, is_empty}
use fascinate.Result.{not_found, conflict, db_failure}
use fascinate.Database.Records.{User, MachineRecord, ExecRecord}
use fascinate.Database.Monad.{M, or_fail, gets, modify, fail_if, statement, ◌>>=◌, ◌>>◌}
use fascinate.Database.Machines.{normalize_email}
use fascinate.Database.Users
use fascinate.Database.Shells.{machine_with_id, host_is_there}

-- CreateExecParams and FinishExecParams
pub record CreateExecParams : Type 0 where
  pub id : Text
  pub user_id : Text
  pub machine_id : Text
  pub host_id : Option Text
  pub command_text : Text
  pub cwd : Text
  pub state : Text
  pub requested_timeout_seconds : ℕ

pub record FinishExecParams : Type 0 where
  pub id : Text
  pub state : Text
  pub exit_code : Option ℕ
  pub failure_class : Option Text
  pub stdout_text : Text
  pub stderr_text : Text
  pub stdout_truncated : Bool
  pub stderr_truncated : Bool

unfoldable pub find_exec : Text → List ExecRecord → Option ExecRecord
find_exec i [] = none
find_exec i (r ∷ rs) = if text_eq r.id i then some r else find_exec i rs

unfoldable pub has_exec : Text → List ExecRecord → Bool
has_exec i [] = false
has_exec i (r ∷ rs) = text_eq r.id i || has_exec i rs

unfoldable pub update_execs : Text → (ExecRecord → ExecRecord) → List ExecRecord → List ExecRecord
update_execs i f [] = []
update_execs i f (r ∷ rs) = (if text_eq r.id i then f r else r) ∷ update_execs i f rs

unfoldable pub keep_exec_email : Text → List ExecRecord → List ExecRecord
keep_exec_email email [] = []
keep_exec_email email (r ∷ rs) =
    let rest = keep_exec_email email rs in
    if is_empty email || text_eq r.user_email email then r ∷ rest else rest

-- GetExecByID
unfoldable pub get_exec_by_id : Text → M ExecRecord
get_exec_by_id i = do
  statement
  or_fail (← gets (λ w. find_exec (trim_space i) w.terminals.execs)) not_found

-- ListExecs
unfoldable pub list_execs : Text → ℕ → M (List ExecRecord)
list_execs owner_email limit = do
  statement
  gets λ w.
      take (if sle limit 0 then 25 else limit)
        (keep_exec_email (normalize_email owner_email) w.terminals.execs)

-- The row that is inserted.
abbrev pub exec_row : Text → CreateExecParams → User → MachineRecord → ExecRecord
exec_row i p user machine = record {
  id = i;
  user_id = user.id;
  user_email = user.email;
  machine_id = machine.id;
  machine_name = machine.name;
  host_id = p.host_id;
  command_text = trim_space p.command_text;
  cwd = trim_space p.cwd;
  state = trim_space p.state;
  requested_timeout_seconds = p.requested_timeout_seconds;
  exit_code = none;
  failure_class = none;
  stdout_text = [];
  stderr_text = [];
  stdout_truncated = false;
  stderr_truncated = false;
  completed = false;
  cancel_requested = false;
}

-- CreateExec, at the identifier that a command with none would get.
unfoldable pub create_exec_row : Text → CreateExecParams → M ExecRecord
create_exec_row fresh params = do
  let i = if is_empty (trim_space params.id) then fresh else trim_space params.id
  statement
  taken ← gets λ w. has_exec i w.terminals.execs
  fail_if taken conflict
  user ← or_fail (← gets (λ w. Users.find_id (trim_space params.user_id) w.users)) db_failure
  machine ←
      or_fail (← gets (λ w. machine_with_id (trim_space params.machine_id) w.machines)) db_failure
  there ← gets λ w. host_is_there params.host_id w.hosts
  fail_if (not there) db_failure
  modify λ w. record w {
    terminals = record w.terminals { execs = exec_row i params user machine ∷ w.terminals.execs };
  }
  get_exec_by_id i

unfoldable pub update_exec : Text → (ExecRecord → ExecRecord) → M (Unit {0})
update_exec i f = do
  statement
  known ← gets λ w. has_exec (trim_space i) w.terminals.execs
  fail_if (not known) not_found
  modify λ w. record w {
    terminals = record w.terminals { execs = update_execs (trim_space i) f w.terminals.execs };
  }

-- MarkExecCancelRequested
unfoldable pub mark_exec_cancel_requested : Text → M (Unit {0})
unfolding update_exec
mark_exec_cancel_requested i = update_exec i λ r. record r { cancel_requested = true }

-- What CompleteExec writes to the row.
abbrev pub finished : FinishExecParams → ExecRecord → ExecRecord
finished p r = record r {
  state = trim_space p.state;
  exit_code = p.exit_code;
  failure_class = p.failure_class;
  stdout_text = p.stdout_text;
  stderr_text = p.stderr_text;
  stdout_truncated = p.stdout_truncated;
  stderr_truncated = p.stderr_truncated;
  completed = true;
}

-- CompleteExec
unfoldable pub complete_exec : FinishExecParams → M ExecRecord
unfolding update_exec
complete_exec p = do update_exec p.id (finished p); get_exec_by_id p.id
