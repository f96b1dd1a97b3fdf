-- ===== src/Terminal/Shells.antt =====
-- The operations on shells of internal/browserterm/manager.go. What an operation draws, and what the
-- packages outside the repository answer it, stand among its arguments.
use fascinate.Base.{
  ℕ, ◌+◌, ◌*◌, Bool, not, Option, none, some, List, [], ◌∷◌, ◌++◌, map, if◌then◌else◌,
}
use fascinate.Base.Word.{sle}
use fascinate.Base.Text.{Text, codes, text_eq, trim_space, to_lower, equal_fold, is_empty}
use fascinate.Result.{
  Result, Error, ok, err, wrong_state, terminal_session_not_found, gateway_unavailable,
  machine_unavailable,
}
use fascinate.Database.Records.{ShellRecord, EventKind}
use fascinate.Database.Monad.{
  M, pure, fail, lift, attempt, ignore, fail_if, record_event, ◌>>=◌, ◌>>◌,
}
use fascinate.Database.Users.{get_user_by_email}
use fascinate.Database.Shells.{
  create_shell_row, get_shell_by_id, list_shells, update_shell_state, touch_shell_attached,
}
use fascinate.Terminal.{TerminalService, GuestMachine}
use fascinate.Terminal.Attachments.{on_terminals}

abbrev pub ready : Text
ready = codes "READY"

-- Shell and SessionInit; the text of the expiry is left out.
pub record Shell : Type 0 where
  pub id : Text
  pub name : Text
  pub user_email : Text
  pub machine_name : Text
  pub host_id : Text
  pub state : Text
  pub cwd : Text
  pub attached : Bool
  pub last_error : Text

pub record SessionInit : Type 0 where
  pub id : Text
  pub host_id : Text
  pub machine_name : Text
  pub attach_url : Text
  pub expires_at : ℕ

-- derefString
unfoldable pub text_or_empty : Option Text → Text
text_or_empty none = []
text_or_empty (some v) = trim_space v

-- firstNonEmpty
unfoldable pub first_non_empty : List Text → Text
first_non_empty [] = []
first_non_empty (v ∷ vs) = if is_empty (trim_space v) then first_non_empty vs else trim_space v

-- stringPointer
unfoldable pub string_pointer : Text → Option Text
string_pointer v = if is_empty (trim_space v) then none else some (trim_space v)

-- recordHostID
unfoldable pub record_host_id : ShellRecord → Text
record_host_id r = text_or_empty r.host_id

-- shellFromRecord
unfoldable pub shell_from_record : ShellRecord → Shell
shell_from_record r = record {
  id = r.id;
  name = r.name;
  user_email = r.user_email;
  machine_name = r.machine_name;
  host_id = record_host_id r;
  state = r.state;
  cwd = r.cwd;
  attached = r.attached;
  last_error = text_or_empty r.last_error;
}

-- The guard on the host that CreateShell, resolveShellMachine and CreateExec share: the machine's
-- host, with its default.
unfoldable pub gateway_host : Text → GuestMachine → Text
gateway_host fallback machine =
    if is_empty (trim_space machine.host_id) then fallback else trim_space machine.host_id

-- An event about a shell.
abbrev pub shell_event : ShellRecord → EventKind → M (Unit {0})
shell_event r kind = record_event (some r.user_id) (some r.machine_id) kind

-- loadShell
unfoldable pub shell_missing : Error → Error
shell_missing Error.not_found = terminal_session_not_found
shell_missing e = e

unfoldable pub load_shell : Text → Text → M ShellRecord
load_shell shell_id user_email = attempt (get_shell_by_id (trim_space shell_id)) λ r. elim r [
  | err e ↦ fail (shell_missing e)
  | ok found ↦
      if equal_fold (trim_space found.user_email) (trim_space user_email)
      then pure found
      else fail terminal_session_not_found
]

-- touchShell
unfoldable pub touch_shell : Text → M (Unit {0})
touch_shell i = do ignore (touch_shell_attached i); ignore (update_shell_state i ready none)

-- markConnected, markDetached and markAttachFailed
unfoldable pub mark_connected : Text → M (Unit {0})
mark_connected i = ignore (update_shell_state i ready none)

unfoldable pub mark_detached : Text → M (Unit {0})
mark_detached i = do
  touch_shell i
  on_terminals λ t. record t { total_disconnects = t.total_disconnects + 1 }

unfoldable pub mark_attach_failed : Text → Option Text → M (Unit {0})
mark_attach_failed i message = do
  ignore (update_shell_state i (codes "ERROR") message)
  attempt (get_shell_by_id i)
      λ r. elim r [ err e ↦ pure tt | ok found ↦ shell_event found EventKind.shell_attach_failed ]
  on_terminals λ t. record t {
    total_attach_failures = t.total_attach_failures + 1;
    total_disconnects = t.total_disconnects + 1;
  }

-- GetShell and ListShells
unfoldable pub get_shell : Text → Text → M Shell
get_shell user_email shell_id = do
  found ← load_shell shell_id user_email
  pure (shell_from_record found)

unfoldable pub shells_of : Text → M (List Shell)
shells_of user_email = do found ← list_shells user_email; pure (map shell_from_record found)

module _ (s : TerminalService) where
  -- nextExpiry
  unfoldable pub next_expiry : ℕ → ℕ
  next_expiry now =
      now + (if sle s.terminal_session_ttl 0 then 5 * 60 * 1000000000 else s.terminal_session_ttl)

  -- The checks on a machine that CreateShell and resolveShellMachine make, with the name that their
  -- errors bear.
  unfoldable pub ensure_reachable : Text → GuestMachine → M (Unit {0})
  ensure_reachable name machine = do
    fail_if (not (equal_fold machine.state (codes "RUNNING")))
        (wrong_state (to_lower (trim_space machine.state)))
    fail_if (not (text_eq (gateway_host s.local_host_id machine) s.local_host_id))
        (gateway_unavailable (gateway_host s.local_host_id machine))
    fail_if (not machine.has_runtime) (machine_unavailable name)

  -- CreateShell, with the bytes of its identifier
  unfoldable pub create_shell : Result (List ℕ) → Text → Text → Text → M Shell
  create_shell bytes user_email machine_name name = do
    machine ← s.find_machine machine_name user_email
    ensure_reachable machine_name machine
    user ← get_user_by_email user_email
    drawn ← lift bytes
    let i = s.encode_hex drawn
    row ← create_shell_row i (record {
      id = i;
      user_id = user.id;
      machine_id = machine.id;
      host_id = string_pointer (gateway_host s.local_host_id machine);
      name = if is_empty (trim_space name) then machine.name ++ codes " shell" else name;
      tmux_session = codes "fascinate-" ++ i;
      state = ready;
      cwd = [];
    })
    on_terminals λ t. record t { total_created = t.total_created + 1 }
    shell_event row EventKind.shell_created
    pure (shell_from_record row)

  -- resolveShellMachine
  unfoldable pub resolve_shell_machine : ShellRecord → M GuestMachine
  resolve_shell_machine r = do
    machine ← s.find_machine r.machine_name r.user_email
    ensure_reachable machine.name machine
    pure machine
