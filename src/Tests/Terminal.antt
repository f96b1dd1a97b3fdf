-- ===== src/Tests/Terminal.antt =====
-- The results on shells and commands at concrete inputs.
use fascinate.Terminal.Execs.{first_failure}
use fascinate.Terminal.Quoting.{ends_word, shell_quote_single}
use fascinate.Base.Text.{replace_code}
use fascinate.Terminal.Sessions.{attach, attach_loaded, new_attachment}
use fascinate.Terminal.Shells.{
  ensure_reachable, first_non_empty, gateway_host, next_expiry, record_host_id,
  resolve_shell_machine, shell_missing, text_or_empty, touch_shell,
}
use fascinate.Base.Text.{to_lower}
use fascinate.Terminal.Attachments.{
  close_shell_connections, connections_of, drop_shell_attachments, other_connections,
  put_attachment, without_shell,
}
use fascinate.Terminal.Close.{delete_loaded_shell, destroy_remote_shell, end_shell, gone_is_ok}
use fascinate.Terminal.Execs.{load_exec, request_cancel}
use fascinate.Database.Execs.{get_exec_by_id}
use fascinate.Terminal.Splitting.{fields_text}
use fascinate.Base.{◌≤◌, ◌≡◌, refl, arith, none, some, List, [], ◌∷◌, Bool, false, true, map}
use fascinate.Base.Text.{Text, codes, text_eq, trim_space, equal_fold, to_upper, contains_text}
use fascinate.Result.{ok, is_ok}
use fascinate.Database.Records.{World, ShellRecord, ExecRecord, Attachment}
use fascinate.Database.Monad.{statement, record_event}
use fascinate.Database.Shells.{
  find_shell, get_shell_by_id, update_shell_state, touch_shell_attached, update_shell,
  update_shells, has_open, is_open, mark_shell_deleted,
}
use fascinate.Database.Execs.{find_exec}
use fascinate.Terminal.{TerminalService, GuestMachine, FindsMachines, token_digest}
use fascinate.Terminal.Output.{write_all, write_all-take}
use fascinate.Terminal.Shells.{load_shell}
use fascinate.Terminal.Sessions.{
  start_attachment, create_attachment, start_loaded, read_shell, open_attachment,
}
use fascinate.Terminal.Attachments.{
  find_attachment, remove_attachment, keep_unexpired, prune_expired_attachments, expired_count,
}
use fascinate.Terminal.Close.{delete_shell, close_machine_sessions}
use fascinate.Terminal.Tokens.{IsAttachment, start_attachment_sound, start_attachment_once}
use fascinate.Terminal.Opening.{create-start_attachment}
use fascinate.Terminal.Closing.{delete_shell_ends, Closed}
use fascinate.Terminal.Isolation.{OfAnother, close_machine_sessions-OfAnother}
use fascinate.Terminal.Failures.{Failure, ExecContext, exec_state_cancelled}
use fascinate.Terminal.Execs.{Run, run_exec, cancel_exec, job_cancelled}
use fascinate.Terminal.Finishing.{Recorded, run_exec_settles}
use fascinate.Terminal.Cancelling.{has_job, cancel-run_exec}
use fascinate.Terminal.Sparing.{cancel_exec_keeps_others}
use fascinate.Terminal.Quoting.{Mode, read_word, shell_literal, read_word-shell_literal}
use fascinate.Terminal.Git.{parse_git_changed_files}
use fascinate.Terminal.Porcelain.{Entry, porcelain, records_of, file_of, parse-porcelain}
use fascinate.Terminal.Splitting.{any_code, has_code}
use fascinate.Terminal.Execs.{load_exec, request_cancel, cancel_job}
use fascinate.Database.Execs.{
  get_exec_by_id, mark_exec_cancel_requested, update_exec, has_exec, update_execs,
}
use fascinate.Base.Text.{to_lower, has_prefix}
use fascinate.Terminal.Subscribers.{
  logged, ExecJob, ExecStreamEvent, new_job, subscribe, set_final, broadcast, close_subscribers,
}
use fascinate.Tests.{world, running_machine, no_terminals}

write_all-take_example :
    write_all
      (record { limit = 4; content = []; truncated = false })
      (codes "abc" ∷ codes "de" ∷ codes "f" ∷ [])
    ≡ record { limit = 4; content = codes "abcd"; truncated = true }
write_all-take_example = write_all-take 4 (codes "abc" ∷ codes "de" ∷ codes "f" ∷ []) (omega arith)

abbrev guest : GuestMachine
guest = record {
  id = codes "i1";
  name = codes "m1";
  state = codes "RUNNING";
  host_id = codes "h1";
  has_runtime = true;
}

abbrev terminals_svc : TerminalService
terminals_svc = record {
  local_host_id = codes "h1";
  terminal_session_ttl = 1000;
  sha256 = λ t. t;
  encode_hex = λ b. b;
  error_text = λ e. codes "error";
  find_machine = λ name email w. (ok guest, w);
}

terminals_svc-FindsMachines : FindsMachines terminals_svc
terminals_svc-FindsMachines = record { keeps_terminals = λ n e w. refl; keeps_now = λ n e w. refl }

abbrev shell_of : Text → Text → ShellRecord
shell_of i email = record {
  id = i;
  user_id = codes "u1";
  user_email = email;
  machine_id = codes "i1";
  machine_name = codes "m1";
  host_id = none;
  name = codes "shell";
  tmux_session = i;
  state = codes "READY";
  cwd = [];
  last_error = none;
  attached = false;
  deleted = false;
}

abbrev s1 : ShellRecord
s1 = shell_of (codes "s1") (codes "a@b.c")

abbrev s2 : ShellRecord
s2 = shell_of (codes "s2") (codes "d@e.f")

abbrev a1 : Attachment
a1 = record {
  shell_id = codes "s1";
  token_hash = codes "tok";
  host_id = codes "h1";
  cols = 120;
  rows = 40;
  expires_at = 50;
  attached_at = none;
}

abbrev with_terminals : List Attachment → World
with_terminals rows = record (world (running_machine ∷ [])) {
  terminals = record no_terminals { shells = s1 ∷ s2 ∷ []; attachments = rows };
}

starts :
    start_attachment terminals_svc (codes "s1") (codes "tok") (with_terminals (a1 ∷ []))
    ≡ (ok (s1, record a1 { attached_at = some 0 }), with_terminals [])
unfolding start_attachment start_loaded read_shell open_attachment prune_expired_attachments
    get_shell_by_id statement find_attachment remove_attachment keep_unexpired expired_count
    token_digest find_shell is_open text_eq trim_space
starts = refl

start_attachment_sound_example :
    (s1.id ≡ trim_space (codes "s1"))
    × ((s1.deleted ≡ false)
        × ((b : Attachment) × (IsAttachment b (a1 ∷ [])
              × ((record a1 { attached_at = some 0 } ≡ record b { attached_at = some 0 })
                  × ((b.shell_id ≡ s1.id)
                      × ((b.token_hash ≡ token_digest terminals_svc (codes "tok"))
                          × (0 ≤ b.expires_at)))))))
start_attachment_sound_example =
    start_attachment_sound terminals_svc (codes "s1") (codes "tok") (with_terminals (a1 ∷ []))
      (with_terminals []) s1 (record a1 { attached_at = some 0 }) starts

start_attachment_once_example :
    is_ok (start_attachment terminals_svc (codes "s2") (codes "tok") (with_terminals [])).0 ≡ false
start_attachment_once_example =
    start_attachment_once terminals_svc (codes "s1") (codes "s2") (codes "tok")
      (with_terminals (a1 ∷ [])) (with_terminals []) (with_terminals [])
      (s1, record a1 { attached_at = some 0 }) starts refl

abbrev made : World
made =
    (create_attachment terminals_svc (ok (codes "tok")) (codes "a@b.c") (codes "s1") 0 0
      (with_terminals [])).1

creates :
    create_attachment terminals_svc
      (ok (codes "tok"))
      (codes "a@b.c")
      (codes "s1")
      0
      0
      (with_terminals [])
    ≡ (
      ok (record {
        id = codes "s1";
        host_id = codes "h1";
        machine_name = codes "m1";
        attach_url = codes "/v1/terminal/sessions/s1/stream?token=tok";
        expires_at = 1000;
      }),
      made,
    )
unfolding create_attachment prune_expired_attachments load_shell get_shell_by_id statement
    find_shell is_open text_eq trim_space equal_fold attach_loaded resolve_shell_machine
    ensure_reachable gateway_host attach touch_shell record_event to_lower to_upper has_open
    touch_shell_attached update_shell update_shell_state update_shells expired_count keep_unexpired
    put_attachment remove_attachment new_attachment first_non_empty next_expiry record_host_id
    shell_missing text_or_empty token_digest
creates = refl

create-start_attachment_example :
    is_ok (start_attachment terminals_svc (codes "s1") (codes "tok") made).0 ≡ true
unfolding create_attachment prune_expired_attachments load_shell get_shell_by_id statement
    find_shell is_open text_eq trim_space equal_fold attach_loaded resolve_shell_machine
    ensure_reachable gateway_host attach touch_shell record_event to_lower to_upper has_open
    touch_shell_attached update_shell update_shell_state update_shells expired_count keep_unexpired
    put_attachment remove_attachment new_attachment first_non_empty next_expiry record_host_id
    shell_missing text_or_empty token_digest
create-start_attachment_example =
    create-start_attachment terminals_svc terminals_svc-FindsMachines (codes "tok") (codes "a@b.c")
      (codes "s1") 0 0 (with_terminals []) made made _ creates refl refl (omega arith)

abbrev ended : World
ended = (delete_shell terminals_svc (codes "a@b.c") (codes "s1") (with_terminals (a1 ∷ []))).1

loads : (load_shell (codes "s1") (codes "a@b.c") (with_terminals (a1 ∷ []))).0 ≡ ok s1
unfolding load_shell get_shell_by_id statement find_shell is_open text_eq trim_space equal_fold
loads = refl

deletes :
    delete_shell terminals_svc (codes "a@b.c") (codes "s1") (with_terminals (a1 ∷ []))
    ≡ (ok tt, ended)
unfolding delete_shell load_shell get_shell_by_id statement find_shell is_open text_eq trim_space
    equal_fold delete_loaded_shell mark_shell_deleted has_open end_shell drop_shell_attachments
    close_shell_connections destroy_remote_shell record_event to_upper update_shell update_shells
    connections_of other_connections without_shell gone_is_ok shell_missing
deletes = refl

delete_shell_ends_example :
    Closed (codes "s1") ended
    × (is_ok (start_attachment terminals_svc (codes "s1") (codes "tok") ended).0 ≡ false)
delete_shell_ends_example =
    delete_shell_ends terminals_svc terminals_svc-FindsMachines (codes "a@b.c") (codes "s1")
      (codes "tok") (with_terminals (a1 ∷ [])) ended ended s1 loads deletes refl

s2-OfAnother : OfAnother (trim_space (codes " a@b.c")) (codes "s2") s2 (with_terminals [])
unfolding find_shell is_open text_eq equal_fold trim_space
s2-OfAnother = record { row = refl; owner = refl }

close_machine_sessions-OfAnother_example :
    OfAnother
      (trim_space (codes " a@b.c"))
      (codes "s2")
      s2
      (close_machine_sessions terminals_svc (codes " a@b.c") (codes "m1") (with_terminals [])).1
close_machine_sessions-OfAnother_example =
    close_machine_sessions-OfAnother terminals_svc terminals_svc-FindsMachines (codes " a@b.c")
      (codes "m1") (codes "s2") s2 (with_terminals []) s2-OfAnother

abbrev command : Text → Bool → ExecRecord
command email done = record {
  id = codes "e1";
  user_id = codes "u1";
  user_email = email;
  machine_id = codes "i1";
  machine_name = codes "m1";
  host_id = none;
  command_text = codes "ls";
  cwd = [];
  state = codes "RUNNING";
  requested_timeout_seconds = 0;
  exit_code = none;
  failure_class = none;
  stdout_text = [];
  stderr_text = [];
  stdout_truncated = false;
  stderr_truncated = false;
  completed = done;
  cancel_requested = false;
}

abbrev e1 : ExecRecord
e1 = command (codes "a@b.c") false

abbrev with_exec : ExecRecord → World
with_exec r = record (world (running_machine ∷ [])) {
  terminals = record no_terminals { execs = r ∷ []; jobs = (codes "e1", false) ∷ [] };
}

abbrev in_time : ExecContext
in_time = record { deadline_exceeded = false; canceled = false }

abbrev exit_1 : Failure
exit_1 = record {
  text = codes "exit status 1";
  is_deadline = false;
  is_canceled = false;
  is_eof = false;
  exit_code = some 1;
  close_status = none;
}

abbrev failed_run : Run
failed_run = Run.ended (codes "out" ∷ []) (codes "no" ∷ []) (some exit_1) none none

run_exec_settles_example :
    (q' : ExecRecord) × ((find_exec
          (codes "e1")
          (run_exec in_time e1 failed_run (with_exec e1)).1.terminals.execs
        ≡ some q')
      × Recorded in_time (job_cancelled (codes "e1") ((codes "e1", false) ∷ [])) failed_run q')
unfolding trim_space find_exec text_eq
run_exec_settles_example = run_exec_settles in_time e1 e1 failed_run (with_exec e1) refl refl refl

abbrev cancelled_world : World
cancelled_world = (cancel_exec (codes "a@b.c") (codes "e1") (with_exec e1)).1

cancels : cancel_exec (codes "a@b.c") (codes "e1") (with_exec e1) ≡ (ok tt, cancelled_world)
unfolding cancel_exec load_exec get_exec_by_id statement find_exec text_eq trim_space equal_fold
    to_upper request_cancel mark_exec_cancel_requested update_exec has_exec update_execs cancel_job
    record_event
cancels = refl

abbrev asked : ExecRecord
asked = record e1 { cancel_requested = true }

cancel-run_exec_example :
    (q' : ExecRecord) × ((find_exec
          (codes "e1")
          (run_exec in_time e1 failed_run cancelled_world).1.terminals.execs
        ≡ some q')
      × ((q'.completed ≡ true) × (q'.state ≡ exec_state_cancelled)))
unfolding cancel_exec load_exec get_exec_by_id statement find_exec text_eq trim_space equal_fold
    to_upper request_cancel mark_exec_cancel_requested update_exec has_exec update_execs cancel_job
    record_event contains_text has_job to_lower has_prefix first_failure
cancel-run_exec_example =
    cancel-run_exec (codes "a@b.c") (codes "e1") (with_exec e1) cancelled_world cancelled_world e1
      e1 asked in_time failed_run exit_1 cancels refl refl refl refl refl refl refl refl refl

cancel_exec_keeps_others_example :
    (find_exec
        (codes "e1")
        (cancel_exec (codes "d@e.f") (codes " e1") (with_exec e1)).1.terminals.execs
      ≡ some e1)
    × (job_cancelled
          (codes "e1")
          (cancel_exec (codes "d@e.f") (codes " e1") (with_exec e1)).1.terminals.jobs
        ≡ job_cancelled (codes "e1") (with_exec e1).terminals.jobs)
unfolding find_exec text_eq equal_fold
cancel_exec_keeps_others_example =
    cancel_exec_keeps_others (codes "d@e.f") (codes " e1") (codes "e1") (with_exec e1) e1 refl refl

read_word-shell_literal_example :
    read_word Mode.bare (codes "'it'\\''s' && rm") ≡ some (codes "it's", codes " && rm")
unfolding ends_word shell_literal shell_quote_single replace_code
read_word-shell_literal_example = read_word-shell_literal (codes "it's") (codes " && rm") refl

abbrev entries : List Entry
entries =
    Entry.ordinary b'.' b'M'
      (codes "N" ∷ codes "1" ∷ codes "1" ∷ codes "1" ∷ codes "a" ∷ codes "b" ∷ []) (codes "x y")
    ∷ Entry.unmerged b'U' b'U'
        (codes "N" ∷ codes "1" ∷ codes "1" ∷ codes "1" ∷ codes "1" ∷ codes "a" ∷ []) (codes "b")
        (codes "c") (codes "z")
    ∷ []

parse-porcelain_example : parse_git_changed_files (porcelain entries) ≡ ok (map file_of entries)
unfolding any_code has_code records_of fields_text
parse-porcelain_example =
    parse-porcelain entries
      ((refl, (refl, (refl, refl))), (refl, ((refl, (refl, (refl, refl))), (refl, tt))))

abbrev streamed : ExecJob
streamed = close_subscribers (
    broadcast (ExecStreamEvent.result e1) (
      logged (ExecStreamEvent.result e1) (
        set_final e1 (
          broadcast (ExecStreamEvent.stdout (codes "out"))
            (logged (ExecStreamEvent.stdout (codes "out")) (subscribe new_job))))))
