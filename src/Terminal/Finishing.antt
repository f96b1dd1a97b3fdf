-- ===== src/Terminal/Finishing.antt =====
-- How a command ends: runExec, finishExec and CancelExec of internal/browserterm/exec.go.
use mathlib.Core.List.{append-nil}
use fascinate.Base.{
  sym, ◌++◌, if◌then◌else◌, ◌≡◌, refl, ap, ◌∙◌, Bool, true, false, Option, none, some, List, [],
  ◌∷◌, arith, Bool-cases, inl, inr, ltb, length, take,
}
use fascinate.Base.Text.{codes, codes, Text, text_eq, trim_space}
use fascinate.Result.{ok}
use fascinate.Database.Records.{World, ExecRecord, EventKind}
use fascinate.Database.Monad.{statement}
use fascinate.Database.Execs.{
  find_exec, has_exec, update_execs, update_exec, complete_exec, get_exec_by_id, finished,
  FinishExecParams,
}
use fascinate.Terminal.Opening.{record_event_terminals, record_event_ok}
use fascinate.Terminal.Output.{
  write_string-capped, CappedStringBuffer, joined, write_all-take, exec_output_store_limit,
}
use fascinate.Terminal.Failures.{
  exec_state_error, classify-Verdict, Verdict, Failure, ExecContext, classify_exec_error,
}
use fascinate.Terminal.Execs.{
  failure_line, finish_params, Run, Outcome, outcome_of, first_failure, finish_exec, run_exec,
  job_cancelled, remove_job,
}

find-has_exec :
    (i : Text) (rows : List ExecRecord) (q : ExecRecord)
    → find_exec i rows ≡ some q
    → has_exec i rows ≡ true
unfolding find_exec has_exec
find-has_exec i [] q e = absurd (ground arith)
find-has_exec i (r ∷ rest) q e = elim (Bool-cases (text_eq r.id i)) [
  | inl same ↦ ground arith
  | inr other ↦ ground (arith, find-has_exec i rest q)
]

find-update_execs :
    (i : Text) (f : ExecRecord → ExecRecord) (rows : List ExecRecord) (q : ExecRecord)
    → ((r : ExecRecord) → (f r).id ≡ r.id)
    → find_exec i rows ≡ some q
    → find_exec i (update_execs i f rows) ≡ some (f q)
unfolding find_exec update_execs
find-update_execs i f [] q k e = absurd (ground arith)
find-update_execs i f (r ∷ rest) q k e = elim (Bool-cases (text_eq r.id i)) [
  | inl same ↦ ground (arith, k r)
  | inr other ↦ ground (arith, find-update_execs i f rest q k)
]

-- Without faults, the row of a command that is there is finished.
complete_exec_runs :
    (p : FinishExecParams) (w : World) (q : ExecRecord)
    → w.faults ≡ []
    → trim_space p.id ≡ p.id
    → find_exec p.id w.terminals.execs ≡ some q
    → ((complete_exec p w).0 ≡ ok (finished p q))
      × ((complete_exec p w).1.terminals
          ≡ record w.terminals { execs = update_execs p.id (finished p) w.terminals.execs })
unfolding complete_exec update_exec get_exec_by_id statement
complete_exec_runs p w q quiet trimmed row = (
  ground (
    arith,
    find-has_exec p.id w.terminals.execs q,
    find-update_execs p.id (finished p) w.terminals.execs q (λ r. refl) row,
  ),
  ground (
    arith,
    find-has_exec p.id w.terminals.execs q,
    find-update_execs p.id (finished p) w.terminals.execs q (λ r. refl) row,
  ),
)

-- The pieces that were read from the process's standard output.
abbrev pub stdout_pieces : Run → List Text
stdout_pieces (Run.not_started f) = []
stdout_pieces (Run.ended out errors wait one two) = out

-- The error with which it ended, if any.
abbrev pub failure_of : Run → Option Failure
failure_of (Run.not_started f) = some f
failure_of (Run.ended out errors wait one two) = first_failure wait one two

-- The line that is added to the standard error of a command that ended in an error of its own.
abbrev pub error_line : Text → Option Failure → Text
error_line state none = []
error_line state (some f) = if text_eq state exec_state_error then f.text ++ codes "\n" else []

-- What is to stand in the standard error of a command with a state: the pieces that were read, and the
-- error.
abbrev pub stderr_whole : Text → Run → Text
stderr_whole state (Run.not_started f) = trim_space f.text ++ codes "\n"
stderr_whole state (Run.ended out errors wait one two) =
    joined errors ++ error_line state (first_failure wait one two)

-- A buffer that has been written a text, with the limit for commands.
abbrev stored : Text → CappedStringBuffer
stored s = record {
  limit = exec_output_store_limit;
  content = take exec_output_store_limit s;
  truncated = ltb exec_output_store_limit (length s);
}

failure_line-stored :
    (state : Text) (f : Option Failure) (s : Text)
    → failure_line state f (stored s) ≡ stored (s ++ error_line state f)
unfolding failure_line
failure_line-stored state none s = ap stored (sym (append-nil s))
failure_line-stored state (some f) s = elim (Bool-cases (text_eq state exec_state_error)) [
  | inl e ↦
      rw e (write_string-capped exec_output_store_limit s (f.text ++ codes "\n") (omega arith))
  | inr e ↦ rw e (ap stored (sym (append-nil s)))
]

outcome_stderr :
    (cancelled : Bool) (ctx : ExecContext) (run : Run)
    → (outcome_of cancelled ctx run).stderr
      ≡ stored (stderr_whole (outcome_of cancelled ctx run).classified.state run)
unfolding outcome_of
outcome_stderr cancelled ctx (Run.not_started f) =
    write_string-capped exec_output_store_limit [] (trim_space f.text ++ codes "\n") (omega arith)
outcome_stderr cancelled ctx (Run.ended out errors wait one two) =
    ap (failure_line (classify_exec_error cancelled ctx failure).state failure)
      (write_all-take exec_output_store_limit errors (omega arith))
    ∙ failure_line-stored (classify_exec_error cancelled ctx failure).state failure (joined errors)
  where
    failure : Option Failure
    failure = first_failure wait one two

outcome_stdout :
    (cancelled : Bool) (ctx : ExecContext) (run : Run)
    → (outcome_of cancelled ctx run).stdout ≡ record {
      limit = exec_output_store_limit;
      content = take exec_output_store_limit (joined (stdout_pieces run));
      truncated = ltb exec_output_store_limit (length (joined (stdout_pieces run)));
    }
unfolding outcome_of
outcome_stdout cancelled ctx (Run.not_started f) = refl
outcome_stdout cancelled ctx (Run.ended out errors wait one two) =
    write_all-take exec_output_store_limit out (omega arith)

outcome_classified :
    (cancelled : Bool) (ctx : ExecContext) (run : Run)
    → (outcome_of cancelled ctx run).classified ≡ classify_exec_error cancelled ctx (failure_of run)
unfolding outcome_of
outcome_classified cancelled ctx (Run.not_started f) = refl
outcome_classified cancelled ctx (Run.ended out errors wait one two) = refl

classify_state_trimmed :
    (cancelled : Bool) (ctx : ExecContext) (f : Option Failure)
    → trim_space (classify_exec_error cancelled ctx f).state
      ≡ (classify_exec_error cancelled ctx f).state
unfolding classify_exec_error trim_space
classify_state_trimmed cancelled ctx none = refl
classify_state_trimmed cancelled ctx (some f) = ground arith

job_removed : (i : Text) (jobs : List (Text × Bool)) → job_cancelled i (remove_job i jobs) ≡ false
unfolding job_cancelled remove_job
job_removed i [] = refl
job_removed i ((j, c) ∷ rest) = ground (arith, job_removed i rest)

-- The row q of a command, after the process has gone as it did: the two outputs are the first bytes of
-- the whole, and marked as truncated exactly if there was more.
pub record Recorded (ctx : ExecContext) (cancelled : Bool) (run : Run) (q : ExecRecord)
    : Type 0 where
  pub completed : q.completed ≡ true
  pub verdict : Verdict cancelled ctx (failure_of run) q.state q.exit_code q.failure_class
  pub stdout_eq : q.stdout_text ≡ take exec_output_store_limit (joined (stdout_pieces run))
  pub truncated_eq :
      q.stdout_truncated ≡ ltb exec_output_store_limit (length (joined (stdout_pieces run)))
  pub stderr_eq : q.stderr_text ≡ take exec_output_store_limit (stderr_whole q.state run)
  pub stderr_truncated_eq :
      q.stderr_truncated ≡ ltb exec_output_store_limit (length (stderr_whole q.state run))

outcome_state :
    (ctx : ExecContext) (cancelled : Bool) (run : Run)
    → trim_space (outcome_of cancelled ctx run).classified.state
      ≡ (outcome_of cancelled ctx run).classified.state
outcome_state ctx cancelled run =
    ap (λ c. trim_space c.state) (outcome_classified cancelled ctx run)
    ∙ classify_state_trimmed cancelled ctx (failure_of run)
    ∙ ap (λ c. c.state) (sym (outcome_classified cancelled ctx run))

outcome-Recorded :
    (ctx : ExecContext) (cancelled : Bool) (run : Run) (i : Text) (q : ExecRecord)
    → Recorded ctx cancelled run (finished (finish_params i (outcome_of cancelled ctx run)) q)
outcome-Recorded ctx cancelled run i q = record {
  completed = refl;
  verdict =
      rw (outcome_state ctx cancelled run) (
        rw (outcome_classified cancelled ctx run)
          (classify-Verdict cancelled ctx (failure_of run)));
  stdout_eq = ap (λ b. b.content) (outcome_stdout cancelled ctx run);
  truncated_eq = ap (λ b. b.truncated) (outcome_stdout cancelled ctx run);
  stderr_eq =
      rw (outcome_state ctx cancelled run) (ap (λ b. b.content) (outcome_stderr cancelled ctx run));
  stderr_truncated_eq =
      rw (outcome_state ctx cancelled run)
        (ap (λ b. b.truncated) (outcome_stderr cancelled ctx run));
}

finish_exec_runs :
    (r q : ExecRecord) (o : Outcome) (w : World)
    → w.faults ≡ []
    → trim_space r.id ≡ r.id
    → find_exec r.id w.terminals.execs ≡ some q
    → ((finish_exec r o w).0 ≡ ok (finished (finish_params r.id o) q))
      × ((finish_exec r o w).1.terminals.execs
          ≡ update_execs r.id (finished (finish_params r.id o)) w.terminals.execs)
unfolding finish_exec
finish_exec_runs r q o w quiet trimmed row =
    let p = finish_params r.id o in
    let (done, after) = complete_exec_runs p w q quiet trimmed row in
    let logged =
      record_event_terminals (some (finished p q).user_id) (some (finished p q).machine_id)
        EventKind.exec_completed (complete_exec p w).1 in
    let told =
      record_event_ok (some (finished p q).user_id) (some (finished p q).machine_id)
        EventKind.exec_completed (complete_exec p w).1 in
    (ground (arith, done, told), ground (arith, done, after, told, logged))

module _ (ctx : ExecContext) (r q : ExecRecord) (run : Run) (w : World) where
  abbrev ending : Outcome
  ending = outcome_of (job_cancelled r.id w.terminals.jobs) ctx run

  run_exec_row :
      w.faults ≡ []
      → trim_space r.id ≡ r.id
      → find_exec r.id w.terminals.execs ≡ some q
      → find_exec r.id (run_exec ctx r run w).1.terminals.execs
        ≡ some (finished (finish_params r.id ending) q)
  unfolding run_exec
  run_exec_row quiet trimmed row =
      let (done, after) = finish_exec_runs r q ending w quiet trimmed row in
      ground (
        arith,
        done,
        after,
        find-update_execs r.id (finished (finish_params r.id ending)) w.terminals.execs q
            (λ x. refl) row,
      )

  -- The state that runExec writes, by its own classification.
  pub run_exec_state :
      w.faults ≡ []
      → trim_space r.id ≡ r.id
      → find_exec r.id w.terminals.execs ≡ some q
      → (q' : ExecRecord) × ((find_exec r.id (run_exec ctx r run w).1.terminals.execs ≡ some q')
          × ((q'.completed ≡ true)
              × (q'.state
                  ≡ (classify_exec_error
                      (job_cancelled r.id w.terminals.jobs)
                      ctx
                      (failure_of run)).state)))
  run_exec_state quiet trimmed row = (
    finished (finish_params r.id ending) q,
    (
      run_exec_row quiet trimmed row,
      (
        refl,
        outcome_state ctx (job_cancelled r.id w.terminals.jobs) run
            ∙ ap (λ c. c.state) (outcome_classified (job_cancelled r.id w.terminals.jobs) ctx run),
      ),
    ),
  )

  -- Where no statement fails, runExec finishes the row of its command. The row is completed; its
  -- state, exit code and failure class are those of the verdict on the failure with which the process
  -- ended; its two outputs are the first bytes, up to the limit, of the pieces that were read, where
  -- the standard error ends with the error if the process did not start or its state is ERROR; and each
  -- output is marked as truncated exactly if there was more. Output that was lost before it was read is
  -- not part of it.
  pub run_exec_settles :
      w.faults ≡ []
      → trim_space r.id ≡ r.id
      → find_exec r.id w.terminals.execs ≡ some q
      → (q' : ExecRecord) × ((find_exec r.id (run_exec ctx r run w).1.terminals.execs ≡ some q')
          × Recorded ctx (job_cancelled r.id w.terminals.jobs) run q')
  run_exec_settles quiet trimmed row = (
    finished (finish_params r.id ending) q,
    (
      run_exec_row quiet trimmed row,
      outcome-Recorded ctx (job_cancelled r.id w.terminals.jobs) run r.id q,
    ),
  )
