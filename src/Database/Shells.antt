-- ===== src/Database/Shells.antt =====
-- internal/database/shells.go. The table is kept oldest first, as ListShells lists it.
use fascinate.Base.{
  Bool, true, false, not, ◌||◌, ◌&&◌, Option, none, some, List, [], ◌∷◌, ◌++◌, if◌then◌else◌,
}
use fascinate.Base.Text.{Text, text_eq, trim_space, is_empty}
use fascinate.Result.{not_found, conflict, db_failure}
use fascinate.Database.Records.{User, MachineRecord, HostRecord, ShellRecord}
use fascinate.Database.Monad.{M, or_fail, gets, modify, fail_if, statement, ◌>>=◌, ◌>>◌}
use fascinate.Database.Machines.{normalize_email}
use fascinate.Database.Users
use fascinate.Database.Hosts

-- CreateShellParams
pub record CreateShellParams : Type 0 where
  pub id : Text
  pub user_id : Text
  pub machine_id : Text
  pub host_id : Option Text
  pub name : Text
  pub tmux_session : Text
  pub state : Text
  pub cwd : Text

-- WHERE id = ? AND deleted_at IS NULL
unfoldable pub is_open : Text → ShellRecord → Bool
is_open i r = text_eq r.id i && not r.deleted

unfoldable pub find_shell : Text → List ShellRecord → Option ShellRecord
find_shell i [] = none
find_shell i (r ∷ rs) = if is_open i r then some r else find_shell i rs

unfoldable pub update_shells :
    Text → (ShellRecord → ShellRecord) → List ShellRecord → List ShellRecord
update_shells i f [] = []
update_shells i f (r ∷ rs) = (if is_open i r then f r else r) ∷ update_shells i f rs

unfoldable pub has_open : Text → List ShellRecord → Bool
has_open i [] = false
has_open i (r ∷ rs) = is_open i r || has_open i rs

-- PRIMARY KEY (id), and the index on (machine_id, tmux_session) where deleted_at IS NULL.
unfoldable pub shell_clashes : Text → CreateShellParams → List ShellRecord → Bool
shell_clashes i p [] = false
shell_clashes i p (r ∷ rs) =
    text_eq r.id i
    || (text_eq r.machine_id (trim_space p.machine_id)
        && text_eq r.tmux_session (trim_space p.tmux_session)
        && not r.deleted)
    || shell_clashes i p rs

unfoldable pub machine_with_id : Text → List MachineRecord → Option MachineRecord
machine_with_id i [] = none
machine_with_id i (r ∷ rs) = if text_eq r.id i then some r else machine_with_id i rs

-- A reference to a host is NULL or names one.
unfoldable pub host_is_there : Option Text → List HostRecord → Bool
host_is_there none hosts = true
host_is_there (some i) hosts = elim (Hosts.find_id i hosts) [ none ↦ false | some h ↦ true ]

-- GetShellByID
unfoldable pub get_shell_by_id : Text → M ShellRecord
get_shell_by_id i = do
  statement
  or_fail (← gets (λ w. find_shell (trim_space i) w.terminals.shells)) not_found

unfoldable pub keep_email : Text → List ShellRecord → List ShellRecord
keep_email email [] = []
keep_email email (r ∷ rs) =
    let rest = keep_email email rs in
    if not r.deleted && (is_empty email || text_eq r.user_email email) then r ∷ rest else rest

-- ListShells
unfoldable pub list_shells : Text → M (List ShellRecord)
list_shells owner_email = do
  statement
  gets λ w. keep_email (normalize_email owner_email) w.terminals.shells

-- The row that is inserted.
abbrev pub shell_row : Text → CreateShellParams → User → MachineRecord → ShellRecord
shell_row i p user machine = record {
  id = i;
  user_id = user.id;
  user_email = user.email;
  machine_id = machine.id;
  machine_name = machine.name;
  host_id = p.host_id;
  name = if is_empty (trim_space p.name) then i else trim_space p.name;
  tmux_session = trim_space p.tmux_session;
  state = trim_space p.state;
  cwd = trim_space p.cwd;
  last_error = none;
  attached = false;
  deleted = false;
}

-- CreateShell, at the identifier that a shell with none would get.
unfoldable pub create_shell_row : Text → CreateShellParams → M ShellRecord
create_shell_row fresh params = do
  let i = if is_empty (trim_space params.id) then fresh else trim_space params.id
  statement
  taken ← gets λ w. shell_clashes i params w.terminals.shells
  fail_if taken conflict
  user ← or_fail (← gets (λ w. Users.find_id (trim_space params.user_id) w.users)) db_failure
  machine ←
      or_fail (← gets (λ w. machine_with_id (trim_space params.machine_id) w.machines)) db_failure
  there ← gets λ w. host_is_there params.host_id w.hosts
  fail_if (not there) db_failure
  modify λ w. record w {
    terminals = record w.terminals {
      shells = w.terminals.shells ++ (shell_row i params user machine ∷ []);
    };
  }
  get_shell_by_id i

unfoldable pub update_shell : Text → (ShellRecord → ShellRecord) → M (Unit {0})
update_shell i f = do
  statement
  known ← gets λ w. has_open (trim_space i) w.terminals.shells
  fail_if (not known) not_found
  modify λ w. record w {
    terminals = record w.terminals { shells = update_shells (trim_space i) f w.terminals.shells };
  }

-- UpdateShellState
unfoldable pub update_shell_state : Text → Text → Option Text → M (Unit {0})
unfolding update_shell
update_shell_state i state last_error =
    update_shell i λ r. record r { state = trim_space state; last_error = last_error }

-- UpdateShellCWD
unfoldable pub update_shell_cwd : Text → Text → M (Unit {0})
unfolding update_shell
update_shell_cwd i cwd = update_shell i λ r. record r { cwd = trim_space cwd }

-- TouchShellAttached
unfoldable pub touch_shell_attached : Text → M (Unit {0})
unfolding update_shell
touch_shell_attached i = update_shell i λ r. record r { attached = true }

-- MarkShellDeleted
unfoldable pub mark_shell_deleted : Text → M (Unit {0})
unfolding update_shell
mark_shell_deleted i = update_shell i λ r. record r { deleted = true }
