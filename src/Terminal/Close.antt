-- ===== src/Terminal/Close.antt =====
-- Closing shells: DeleteShell and CloseMachineSessions of internal/browserterm/manager.go.
use fascinate.Base.{◌||◌, List, [], ◌∷◌, if◌then◌else◌}
use fascinate.Base.Text.{Text, text_eq, trim_space, is_empty}
use fascinate.Result.{Error, ok, err}
use fascinate.Database.Records.{ShellRecord, EventKind}
use fascinate.Database.Monad.{M, pure, fail, attempt, ignore, allow_missing, ◌>>=◌, ◌>>◌}
use fascinate.Database.Shells.{list_shells, mark_shell_deleted}
use fascinate.Terminal.{TerminalService}
use fascinate.Terminal.Attachments.{drop_shell_attachments, close_shell_connections}
use fascinate.Terminal.Shells.{load_shell, shell_event}

-- if errors.Is(err, ErrTerminalSessionNotFound) { return nil }; return err
unfoldable pub gone_is_ok : Error → M (Unit {0})
gone_is_ok Error.terminal_session_not_found = pure tt
gone_is_ok e = fail e

module _ (s : TerminalService) where
  -- destroyRemoteShell, which asks for the machine before it runs a command there
  unfoldable pub destroy_remote_shell : ShellRecord → M (Unit {0})
  destroy_remote_shell r =
      if is_empty (trim_space r.machine_name)
        || is_empty (trim_space r.user_email)
        || is_empty (trim_space r.tmux_session)
      then pure tt
      else ignore (s.find_machine r.machine_name r.user_email)

  -- DeleteShell, after the row is marked
  unfoldable pub end_shell : ShellRecord → M (Unit {0})
  end_shell r = do
    drop_shell_attachments r.id
    close_shell_connections r.id
    destroy_remote_shell r
    shell_event r EventKind.shell_deleted

  -- DeleteShell, once the shell is loaded
  unfoldable pub delete_loaded_shell : ShellRecord → M (Unit {0})
  delete_loaded_shell r = do allow_missing (mark_shell_deleted r.id); end_shell r

  -- DeleteShell; CloseSession is the same operation
  unfoldable pub delete_shell : Text → Text → M (Unit {0})
  delete_shell user_email shell_id =
      attempt (load_shell shell_id user_email)
        λ q. elim q [ err e ↦ gone_is_ok e | ok r ↦ delete_loaded_shell r ]

  unfoldable pub delete_shells_on : Text → Text → List ShellRecord → M (Unit {0})
  delete_shells_on owner_email target [] = pure tt
  delete_shells_on owner_email target (r ∷ rest) =
      let others = delete_shells_on owner_email target rest in
      if text_eq (trim_space r.machine_name) target
      then (do delete_shell owner_email r.id; others)
      else others

  -- CloseMachineSessions
  unfoldable pub close_machine_sessions : Text → Text → M (Unit {0})
  close_machine_sessions user_email machine_name = do
    let owner_email = trim_space user_email
    let target = trim_space machine_name
    if is_empty owner_email || is_empty target
        then pure tt
        else (do found ← list_shells owner_email; delete_shells_on owner_email target found)
