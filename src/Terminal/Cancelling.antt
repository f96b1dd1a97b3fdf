-- ===== src/Terminal/Cancelling.antt =====
-- What CancelExec of internal/browserterm/exec.go does to a command, and what it leaves.
use fascinate.Base.{
  ◌≡◌, sym, ap, ◌∙◌, Bool, true, false, ◌||◌, some, List, [], ◌∷◌, arith, if◌then◌else◌,
}
use fascinate.Base.Text.{Text, codes, text_eq, trim_space, contains_text}
use fascinate.Result.{ok}
use fascinate.Database.Records.{World, ExecRecord}
use fascinate.Database.Monad.{pure, statement, record_event}
use fascinate.Database.Execs.{find_exec, update_exec, get_exec_by_id, mark_exec_cancel_requested}
use fascinate.Database.Inversion.{bind_ok}
use fascinate.Base.Text.Trim.{trim_space_idem}
use fascinate.Terminal.Failures.{
  Failure, ExecContext, classify_exec_error, exec_state_cancelled, folded,
}
use fascinate.Terminal.Execs.{
  Run, run_exec, job_cancelled, cancel_job, load_exec, cancel_exec, request_cancel,
}
use fascinate.Terminal.Finishing.{failure_of, run_exec_state}

-- A job is among those that run.
unfoldable pub has_job : Text → List (Text × Bool) → Bool
has_job i [] = false
has_job i ((j, c) ∷ rest) = text_eq j i || has_job i rest

cancel_job_sets :
    (i : Text) (jobs : List (Text × Bool))
    → has_job i jobs ≡ true
    → job_cancelled i (cancel_job i jobs) ≡ true
unfolding job_cancelled cancel_job has_job
cancel_job_sets i [] e = absurd (ground arith)
cancel_job_sets i ((j, c) ∷ rest) e = ground (arith, cancel_job_sets i rest)

request_cancel_jobs :
    (i : Text) (w : World)
    → request_cancel i w ≡ (ok tt, (request_cancel i w).1)
    → (request_cancel i w).1.terminals.jobs ≡ cancel_job (trim_space i) w.terminals.jobs
unfolding request_cancel mark_exec_cancel_requested update_exec get_exec_by_id statement
    record_event
request_cancel_jobs i w h = ground arith

load_exec_sound :
    (i email : Text) (w v : World) (r : ExecRecord)
    → load_exec i email w ≡ (ok r, v)
    → (find_exec (trim_space i) w.terminals.execs ≡ some r) × (v.terminals ≡ w.terminals)
unfolding load_exec get_exec_by_id statement
load_exec_sound i email w v r h = (ground arith, ground arith)

cancel_exec_jobs :
    (email i : Text) (w v : World) (q : ExecRecord)
    → cancel_exec email i w ≡ (ok tt, v)
    → find_exec (trim_space i) w.terminals.execs ≡ some q
    → q.completed ≡ false
    → v.terminals.jobs ≡ cancel_job (trim_space i) w.terminals.jobs
unfolding cancel_exec
cancel_exec_jobs email i w v q h row running =
    let (r, (e1, k1)) =
      bind_ok (load_exec i email) (λ r. if r.completed then pure tt else request_cancel i) w v tt
        h in
    let w1 = (load_exec i email w).1 in
    let (found, kept) = load_exec_sound i email w w1 r e1 in
    let asked : request_cancel i w1 ≡ (ok tt, v) = ground (arith, k1, found) in
    ap (λ p. p.1.terminals.jobs) (sym asked)
    ∙ request_cancel_jobs i w1 (asked ∙ ap (λ p. (ok tt, p.1)) (sym asked))
    ∙ ap (λ t. cancel_job (trim_space i) t.jobs) kept

classify_cancelled :
    (ctx : ExecContext) (f : Failure)
    → (f.is_deadline
        || ctx.deadline_exceeded
        || contains_text (folded f) (codes "deadline exceeded"))
      ≡ false
    → (classify_exec_error true ctx (some f)).state ≡ exec_state_cancelled
unfolding classify_exec_error
classify_cancelled ctx f in_time = ground arith

-- A command that was cancelled while it ran, and whose process then ends with an error that is no
-- deadline, is recorded as cancelled, where no statement fails.
pub cancel-run_exec :
    (email i : Text) (w v u : World) (q r q2 : ExecRecord) (ctx : ExecContext) (run : Run)
    (f : Failure)
    → cancel_exec email i w ≡ (ok tt, v)
    → find_exec (trim_space i) w.terminals.execs ≡ some q
    → q.completed ≡ false
    → has_job (trim_space i) w.terminals.jobs ≡ true
    → u.terminals.jobs ≡ v.terminals.jobs
    → u.faults ≡ []
    → r.id ≡ trim_space i
    → find_exec r.id u.terminals.execs ≡ some q2
    → failure_of run ≡ some f
    → (f.is_deadline
        || ctx.deadline_exceeded
        || contains_text (folded f) (codes "deadline exceeded"))
      ≡ false
    → (q' : ExecRecord) × ((find_exec r.id (run_exec ctx r run u).1.terminals.execs ≡ some q')
        × ((q'.completed ≡ true) × (q'.state ≡ exec_state_cancelled)))
cancel-run_exec email i w v u q r q2 ctx run f h row running job same quiet key row2 failed
      in_time =
    let trimmed : trim_space r.id ≡ r.id = ap trim_space key ∙ trim_space_idem i ∙ sym key in
    let flagged : job_cancelled r.id u.terminals.jobs ≡ true =
      ap (job_cancelled r.id) (same ∙ cancel_exec_jobs email i w v q h row running)
      ∙ ap (λ j. job_cancelled j (cancel_job (trim_space i) w.terminals.jobs)) key
      ∙ cancel_job_sets (trim_space i) w.terminals.jobs job in
    let (q', (found, done)) = run_exec_state ctx r q2 run u quiet trimmed row2 in
    (
      q',
      (
        found,
        (
          done.0,
          done.1
              ∙ ap (λ c. (classify_exec_error c ctx (failure_of run)).state) flagged
              ∙ ap (λ e. (classify_exec_error true ctx e).state) failed
              ∙ classify_cancelled ctx f in_time,
        ),
      ),
    )
