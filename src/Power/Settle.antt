-- ===== src/Power/Settle.antt =====
-- Where starting and stopping a machine (internal/controlplane/machine_power.go) leave its row.
use fascinate.Base.{ℕ, ◌≡◌, refl, some, arith, if◌then◌else◌}
use fascinate.Base.Text.{Text}
use fascinate.Result.{Result, ok, err, is_ok}
use fascinate.Database.Records.{World, MachineRecord, Call}
use fascinate.Database.Monad.{attempt, M, ask}
use fascinate.Database.Effect.{IsEffect, ask-KeepsTo}
use fascinate.Database.Machines.{update_machine_state_and_disk_usage}
use fascinate.Database.Rows.{Touches, Touches-IsEffect, Touches-Ready, Ready}
use fascinate.Database.Leaves.{
  Leaves, ask-Ready, state_of, recorded-Leaves, allow_missing-Leaves, ignore-Leaves, attempt-Leaves,
  update_machine_state-Leaves, update_machine_state_and_disk_usage-Leaves,
}
use fascinate.Service.{Service, runtime_name_for_record}
use fascinate.Service.State.{machine_state_running, machine_state_stopped}
use fascinate.Service.Machines.{refresh_machine_disk_usage}
use fascinate.Service.Storage.{retained_machine_disk_bytes}
use fascinate.Env.Vars.{sync_managed_env}
use fascinate.Power.Start.{
  persist_state, or_current, finish_start_success, finish_start_failure, stop_again, run_start,
}
use fascinate.Power.Stop.{finish_stop_success, finish_stop_failure, run_stop}
use fascinate.Power.Isolation.{refresh-Touches, refresh_id, sync_managed_env-KeepsTo}

module _ (s : Service) (r : MachineRecord) where
  -- The refresh of the disk usage, and the write of the state with it.
  abbrev pub write_state : Text → M (Unit {0})
  write_state st = attempt (refresh_machine_disk_usage s r) λ q.
      update_machine_state_and_disk_usage (or_current q r).id st
        (retained_machine_disk_bytes (or_current q r))

  pub write_state-Leaves : (st : Text) → Leaves r.id st (write_state st)
  unfolding or_current
  write_state-Leaves st = attempt-Leaves (refresh-Touches s r) after
    where
      write :
          (i : Text) (n : ℕ)
          → i ≡ r.id
          → Leaves r.id st (update_machine_state_and_disk_usage i st n)
      write i n h = rw h (update_machine_state_and_disk_usage-Leaves r.id st n)

      after :
          (w v : World) (q : Result MachineRecord)
          → refresh_machine_disk_usage s r w ≡ (q, v)
          → Leaves r.id st (
              update_machine_state_and_disk_usage
                (or_current q r).id
                st
                (retained_machine_disk_bytes (or_current q r)))
      after w v (ok q) h = write q.id _ (refresh_id s r q w v h)
      after w v (err x) h = write r.id _ refl

  persist_state-Leaves : (st : Text) → Leaves r.id st (persist_state s r st)
  unfolding persist_state
  persist_state-Leaves st = allow_missing-Leaves (write_state-Leaves st)

  finish_start_success-Leaves : Leaves r.id machine_state_running (finish_start_success s r)
  unfolding finish_start_success
  finish_start_success-Leaves = recorded-Leaves (persist_state-Leaves machine_state_running) _ _ _

  finish_stop_success-Leaves : Leaves r.id machine_state_stopped (finish_stop_success s r)
  unfolding finish_stop_success
  finish_stop_success-Leaves = recorded-Leaves (persist_state-Leaves machine_state_stopped) _ _ _

  finish_start_failure-Leaves : Leaves r.id machine_state_stopped (finish_start_failure s r)
  unfolding finish_start_failure
  finish_start_failure-Leaves = ignore-Leaves (
      recorded-Leaves
        (allow_missing-Leaves (update_machine_state-Leaves r.id machine_state_stopped)) _ _ _)

  finish_stop_failure-Leaves : Leaves r.id machine_state_running (finish_stop_failure s r)
  unfolding finish_stop_failure
  finish_stop_failure-Leaves = ignore-Leaves (
      recorded-Leaves
        (allow_missing-Leaves (update_machine_state-Leaves r.id machine_state_running)) _ _ _)

  stop_again-Leaves : Leaves r.id machine_state_stopped (stop_again s r)
  unfolding stop_again
  stop_again-Leaves =
      attempt-Leaves (ask-KeepsTo e s.runtime.live_reply _) λ w v q h. finish_start_failure-Leaves
    where
      e : IsEffect (Touches r.id)
      e = Touches-IsEffect r.id

  pub run_start_settles :
      (w : World)
      → Ready r.id w
      → state_of r.id (run_start s r w).1.machines
        ≡ some (if is_ok (run_start s r w).0 then machine_state_running else machine_state_stopped)
  unfolding run_start
  run_start_settles w d = ground (
    arith,
    (update_machine_state-Leaves r.id machine_state_stopped).state_is w d,
    finish_start_failure-Leaves.state_is w1 d1,
    finish_start_failure-Leaves.succeeds w1 d1,
    stop_again-Leaves.state_is w2 d2,
    stop_again-Leaves.succeeds w2 d2,
    finish_start_success-Leaves.state_is w2 d2,
    finish_start_success-Leaves.succeeds w2 d2,
  )
    where
      c : Call
      c = Call.start_machine (runtime_name_for_record r)

      w1 : World
      w1 = (ask s.runtime.live_reply c w).1

      w2 : World
      w2 = (sync_managed_env s r w1).1

      d1 : Ready r.id w1
      d1 = ask-Ready s.runtime.live_reply r.id c w d

      d2 : Ready r.id w2
      d2 =
          Touches-Ready r.id w1 w2 ((sync_managed_env-KeepsTo s (Touches-IsEffect r.id) r).step w1)
            d1

  pub run_stop_settles :
      (w : World)
      → Ready r.id w
      → state_of r.id (run_stop s r w).1.machines
        ≡ some (if is_ok (run_stop s r w).0 then machine_state_stopped else machine_state_running)
  unfolding run_stop
  run_stop_settles w d = ground (
    arith,
    (update_machine_state-Leaves r.id machine_state_running).state_is w d,
    finish_stop_failure-Leaves.state_is w1 d1,
    finish_stop_failure-Leaves.succeeds w1 d1,
    finish_stop_success-Leaves.state_is w1 d1,
    finish_stop_success-Leaves.succeeds w1 d1,
  )
    where
      w1 : World
      w1 = (ask s.runtime.live_reply (Call.stop_machine (runtime_name_for_record r)) w).1

      d1 : Ready r.id w1
      d1 = ask-Ready s.runtime.live_reply r.id _ w d
