-- ===== src/Terminal/Guest.antt =====
-- The operations of internal/browserterm/manager.go that run a command in the guest of a shell:
-- SendInput, ReadLines, GetGitStatus and GetGitDiffBatch, with the reports GetExec, ListExecs and
-- Diagnostics. What a command in the guest answers is an argument.
use fascinate.Base.{
  ℕ, Bool, true, false, not, Option, List, [], ◌∷◌, ltb, length, if◌then◌else◌, ◌==◌,
}
use fascinate.Base.Word.{sle, slt}
use fascinate.Base.Text.{Text, codes, text_eq, trim_space, is_empty}
use fascinate.Result.{
  Result, cwd_required, repo_root_required, files_required, too_many_files, wrong_count,
}
use fascinate.Database.Records.{ShellRecord, ExecRecord}
use fascinate.Database.Monad.{M, pure, lift, gets, fail_if, ◌>>=◌, ◌>>◌}
use fascinate.Database.Execs.{list_execs}
use fascinate.Terminal.{TerminalService, GuestMachine}
use fascinate.Terminal.Shells.{load_shell, resolve_shell_machine, touch_shell}
use fascinate.Terminal.Execs.{load_exec}
use fascinate.Terminal.Quoting.{normalize_guest_cwd}
use fascinate.Terminal.Git.{GitRepoStatus, parse_git_repo_status_output, split}

abbrev pub git_not_repo_sentinel : Text
git_not_repo_sentinel = codes "__FASCINATE_NOT_REPO__"

abbrev pub no_repo : GitRepoStatus
no_repo = record {
  state = codes "not_repo";
  repo_root = [];
  branch = [];
  additions = 0;
  deletions = 0;
  files = [];
}

-- GitDiffBatchRequest and GitFileDiff, of which only their number is looked at here
pub record GitDiffBatchRequest (File : Type 0) : Type 0 where
  pub repo_root : Text
  pub cwd : Text
  pub files : List File

-- strings.ReplaceAll(output, "\r\n", "\n")
unfoldable pub plain_lines : Text → Text
plain_lines [] = []
plain_lines (c ∷ []) = c ∷ []
plain_lines (c ∷ d ∷ rest) =
    let behind = plain_lines (d ∷ rest) in
    if (c == 13) then (if d == 10 then behind else c ∷ behind) else c ∷ behind

only_ends : Text → Bool
only_ends [] = true
only_ends (c ∷ s) = if c == 10 then only_ends s else false

-- strings.TrimRight(output, "\n")
unfoldable pub trim_ends : Text → Text
unfolding only_ends
trim_ends [] = []
trim_ends (c ∷ s) = if only_ends (c ∷ s) then [] else c ∷ trim_ends s

-- The number of lines that ReadLines asks for.
unfoldable pub line_limit : ℕ → ℕ
line_limit limit =
    let asked = if sle limit 0 then 100 else limit in if slt 1000 asked then 1000 else asked

-- GetExec and ListExecs
unfoldable pub get_exec : Text → Text → M ExecRecord
get_exec user_email exec_id = load_exec exec_id user_email

unfoldable pub execs_of : Text → ℕ → M (List ExecRecord)
execs_of user_email limit = list_execs user_email limit

-- ExecDiagnostics
unfoldable pub exec_diagnostics : Text → ℕ → M (ℕ × List ExecRecord)
exec_diagnostics user_email limit = do
  execs ← execs_of user_email limit
  active ← gets λ w. length w.terminals.jobs
  pure (active, execs)

module _ (s : TerminalService) where
  -- The shell, with its machine, on behalf of a user.
  unfoldable pub reach_shell : Text → Text → M (ShellRecord × GuestMachine)
  reach_shell user_email shell_id = do
    r ← load_shell shell_id user_email
    machine ← resolve_shell_machine s r
    pure (r, machine)

  -- SendInput, by the answers of ensureRemoteShell and of the command
  unfoldable pub send_input : Text → Text → Result (Unit {0}) → Result Text → M (Unit {0})
  send_input user_email shell_id ensured answer = do
    reached ← reach_shell user_email shell_id
    lift ensured
    output ← lift answer
    touch_shell reached.0.id

  -- ReadLines, by the answer of the command at a number of lines
  unfoldable pub read_lines :
      Text → Text → ℕ → Result (Unit {0}) → (ℕ → Result Text) → M (List Text)
  read_lines user_email shell_id limit ensured answer = do
    reached ← reach_shell user_email shell_id
    lift ensured
    raw ← lift (answer (line_limit limit))
    let output = trim_ends (plain_lines raw)
    if is_empty output then pure [] else (do touch_shell reached.0.id; pure (split 10 output))

  -- GetGitStatus, by the user of the guest, the queue's answer and that of the command
  unfoldable pub get_git_status :
      (Text → Option ℕ)
      → Text
      → Text
      → Text
      → Text
      → Result (Unit {0})
      → Result Text
      → M GitRepoStatus
  get_git_status atoi user_email shell_id guest_user cwd slot answer = do
    reached ← reach_shell user_email shell_id
    fail_if (is_empty (normalize_guest_cwd cwd guest_user)) cwd_required
    lift slot
    output ← lift answer
    if text_eq (trim_space output) git_not_repo_sentinel
        then (do touch_shell reached.0.id; pure no_repo)
        else (do
          status ← lift (parse_git_repo_status_output atoi output)
          touch_shell reached.0.id
          pure status)

  -- GetGitDiffBatch, by the answers of the queue and of the command, which is decoded
  unfoldable pub get_git_diff_batch :
      {File Diff : Type 0}
      → Text
      → Text
      → Text
      → GitDiffBatchRequest File
      → Result (Unit {0})
      → Result (List Diff)
      → M (List Diff)
  get_git_diff_batch user_email shell_id guest_user req slot answer = do
    reached ← reach_shell user_email shell_id
    fail_if (is_empty (normalize_guest_cwd req.cwd guest_user)) cwd_required
    fail_if (is_empty (trim_space req.repo_root)) repo_root_required
    fail_if (length req.files == 0) files_required
    fail_if (ltb 8 (length req.files)) too_many_files
    lift slot
    diffs ← lift answer
    fail_if (not (length diffs == length req.files)) wrong_count
    touch_shell reached.0.id
    pure diffs
