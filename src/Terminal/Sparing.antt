-- ===== src/Terminal/Sparing.antt =====
-- Which commands CancelExec (internal/browserterm/exec.go) leaves as they are.
use fascinate.Base.{
  ◌≡◌, refl, sym, ap, ◌∙◌, Bool, true, false, not, ◌||◌, some, List, [], ◌∷◌, arith, Bool-cases,
  inl, inr,
}
use fascinate.Base.Text.{Text, text_eq, text_eq_refl, eq_of_text_eq, trim_space, equal_fold}
use fascinate.Result.{Result, ok, err, not_found}
use fascinate.Database.Records.{World, ExecRecord, EventKind}
use fascinate.Database.Monad.{M, pure, statement}
use fascinate.Database.Frame.{statement-Same}
use fascinate.Database.Effect.{
  KeepsTo, IsEffect, seq-KeepsTo, bind-KeepsTo, attempt-KeepsTo, Same-KeepsTo, lift-KeepsTo,
  gets-KeepsTo, fail_if-KeepsTo, modify-KeepsTo, record_event-KeepsTo, allow_missing-KeepsTo,
  if-KeepsTo,
}
use fascinate.Database.Execs.{
  find_exec, has_exec, update_exec, update_execs, get_exec_by_id, mark_exec_cancel_requested,
}
use fascinate.Terminal.Execs.{
  job_cancelled, cancel_job, load_exec, cancel_exec, request_cancel, exec_event,
}

apart : (a j k : Text) → a ≡ k → text_eq j k ≡ false → text_eq a j ≡ false
apart a j k at other = elim (Bool-cases (text_eq a j)) [
  | inr miss ↦ miss
  | inl hit ↦
      let same : j ≡ k = sym (eq_of_text_eq a j hit) ∙ at in
      absurd (ground (arith, other, ap (λ t. text_eq t k) same, text_eq_refl k))
]

find-update_other :
    (j k : Text) (f : ExecRecord → ExecRecord) (rows : List ExecRecord)
    → text_eq j k ≡ false
    → ((r : ExecRecord) → (f r).id ≡ r.id)
    → find_exec j (update_execs k f rows) ≡ find_exec j rows
unfolding find_exec update_execs
find-update_other j k f [] other keep = refl
find-update_other j k f (r ∷ rest) other keep = elim (Bool-cases (text_eq r.id k)) [
  | inl hit ↦
      let at : r.id ≡ k = eq_of_text_eq r.id k hit in
      let miss : text_eq r.id j ≡ false = apart r.id j k at other in
      ground (arith, keep r, miss, find-update_other j k f rest other keep)
  | inr skip ↦ ground (arith, find-update_other j k f rest other keep)
]

cancel_job_other :
    (j k : Text) (jobs : List (Text × Bool))
    → text_eq j k ≡ false
    → job_cancelled j (cancel_job k jobs) ≡ job_cancelled j jobs
unfolding job_cancelled cancel_job
cancel_job_other j k [] other = refl
cancel_job_other j k ((a, c) ∷ rest) other = elim (Bool-cases (text_eq a k)) [
  | inl hit ↦
      let at : a ≡ k = eq_of_text_eq a k hit in
      let miss : text_eq a j ≡ false = apart a j k at other in
      ground (arith, miss, cancel_job_other j k rest other)
  | inr skip ↦ ground (arith, cancel_job_other j k rest other)
]

-- A command of another user, or one that has been completed, is not cancelled.
cancel_exec_refused :
    (email i : Text) (w : World) (q : ExecRecord)
    → find_exec (trim_space i) w.terminals.execs ≡ some q
    → (not (equal_fold q.user_email email) || q.completed) ≡ true
    → (cancel_exec email i w).1.terminals ≡ w.terminals
unfolding cancel_exec load_exec get_exec_by_id statement
cancel_exec_refused email i w q row shut = ground arith

-- The command j and its flag are as they were.
record Spares (j : Text) (w w' : World) : Type 0 where
  pub exec_eq : find_exec j w'.terminals.execs ≡ find_exec j w.terminals.execs
  pub flag_eq : job_cancelled j w'.terminals.jobs ≡ job_cancelled j w.terminals.jobs

Spares-terminals : (j : Text) (w w' : World) → w'.terminals ≡ w.terminals → Spares j w w'
Spares-terminals j w w' h = record {
  exec_eq = ap (λ t. find_exec j t.execs) h;
  flag_eq = ap (λ t. job_cancelled j t.jobs) h;
}

Spares-IsEffect : (j : Text) → IsEffect (Spares j)
Spares-IsEffect j = record {
  same = λ w w' h. Spares-terminals j w w' h.terminals_eq;
  chain = λ u v w a b. record { exec_eq = b.exec_eq ∙ a.exec_eq; flag_eq = b.flag_eq ∙ a.flag_eq };
  log = λ w c es. Spares-terminals j w _ refl;
}

module _ (email i j : Text) (other : text_eq j (trim_space i) ≡ false) where
  e : IsEffect (Spares j)
  e = Spares-IsEffect j

  query-Spares : KeepsTo (Spares j) (get_exec_by_id i)
  unfolding get_exec_by_id statement
  query-Spares = record { step = λ w. Spares-terminals j w _ (ground arith) }

  load_exec-Spares : KeepsTo (Spares j) (load_exec i email)
  unfolding load_exec
  load_exec-Spares = bind-KeepsTo e query-Spares λ r.
      seq-KeepsTo e (fail_if-KeepsTo e (not (equal_fold r.user_email email)) not_found)
        (lift-KeepsTo e (ok r))

  mark-Spares : KeepsTo (Spares j) (mark_exec_cancel_requested i)
  unfolding mark_exec_cancel_requested update_exec
  mark-Spares = seq-KeepsTo e (Same-KeepsTo e statement statement-Same) (
      bind-KeepsTo e (gets-KeepsTo e (λ w. has_exec (trim_space i) w.terminals.execs)) λ known.
        seq-KeepsTo e (fail_if-KeepsTo e (not known) not_found) (
          modify-KeepsTo e
            (λ w. record w {
              terminals = record w.terminals {
                execs =
                    update_execs (trim_space i) (λ r. record r { cancel_requested = true })
                      w.terminals.execs;
              };
            })
            λ w. record {
              exec_eq =
                  find-update_other j (trim_space i) (λ r. record r { cancel_requested = true })
                    w.terminals.execs other (λ r. refl);
              flag_eq = refl;
            }))

  request_cancel-Spares : KeepsTo (Spares j) (request_cancel i)
  unfolding request_cancel
  request_cancel-Spares = seq-KeepsTo e (allow_missing-KeepsTo e mark-Spares) (
      seq-KeepsTo e
        (modify-KeepsTo e
          (λ w. record w {
            terminals = record w.terminals { jobs = cancel_job (trim_space i) w.terminals.jobs };
          })
          λ w. record {
            exec_eq = refl;
            flag_eq = cancel_job_other j (trim_space i) w.terminals.jobs other;
          })
        (attempt-KeepsTo e query-Spares told))
    where
      told :
          (q : Result ExecRecord)
          → KeepsTo (Spares j) (elim q as (λ _. M (Unit {0})) [
            | err x ↦ pure tt
            | ok updated ↦ exec_event updated EventKind.exec_cancel_requested
          ])
      told (ok updated) = record_event-KeepsTo e _ _ _
      told (err x) = lift-KeepsTo e (ok tt)

  cancel_exec-Spares : KeepsTo (Spares j) (cancel_exec email i)
  unfolding cancel_exec
  cancel_exec-Spares =
      bind-KeepsTo e load_exec-Spares
        λ r. if-KeepsTo e r.completed (lift-KeepsTo e (ok tt)) request_cancel-Spares

-- CancelExec leaves every command of another user than the caller, and every completed one, as it was,
-- whichever command it is called for and on every path, and sets the flag of no such command.
pub cancel_exec_keeps_others :
    (email i j : Text) (w : World) (q : ExecRecord)
    → find_exec j w.terminals.execs ≡ some q
    → (not (equal_fold q.user_email email) || q.completed) ≡ true
    → (find_exec j (cancel_exec email i w).1.terminals.execs ≡ some q)
      × (job_cancelled j (cancel_exec email i w).1.terminals.jobs
          ≡ job_cancelled j w.terminals.jobs)
cancel_exec_keeps_others email i j w q row shut = elim (Bool-cases (text_eq j (trim_space i))) [
  | inl same ↦
      let at : j ≡ trim_space i = eq_of_text_eq j (trim_space i) same in
      let kept =
        cancel_exec_refused email i w q (ap (λ k. find_exec k w.terminals.execs) (sym at) ∙ row)
          shut in
      (ap (λ t. find_exec j t.execs) kept ∙ row, ap (λ t. job_cancelled j t.jobs) kept)
  | inr other ↦
      let kept = (cancel_exec-Spares email i j other).step w in (kept.exec_eq ∙ row, kept.flag_eq)
]
