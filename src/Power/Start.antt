-- ===== src/Power/Start.antt =====
-- StartMachine of internal/controlplane/machine_power.go. The locks of the owner and of the host
-- make each call run by itself; the calls are modelled one at a time.
use fascinate.Base.{some}
use fascinate.Base.Text.{Text, is_empty}
use fascinate.Result.{Result, ok, err, owner_required}
use fascinate.Database.Records.{User, MachineRecord, LiveMachine, Call, EventKind}
use fascinate.Database.Monad.{
  M, pure, lift, attempt, ignore, rescue, fail_if, ask, record_event, allow_missing, ◌>>=◌, ◌>>◌,
}
use fascinate.Database.Machines.{
  normalize_email, get_machine_by_name, update_machine_state, update_machine_state_and_disk_usage,
}
use fascinate.Service.{Service, executor_for_host_id, machine_host_id, runtime_name_for_record}
use fascinate.Service.State.{
  machine_state_starting, machine_state_running, machine_state_stopped,
  ensure_machine_stopped_for_start,
}
use fascinate.Service.Storage.{ResourceSpec, retained_machine_disk_bytes}
use fascinate.Service.Users.{ensure_user}
use fascinate.Service.Machines.{
  event_of, owned_machine_record, host_by_id, machine_from_record, refresh_machine_disk_usage,
}
use fascinate.Budget.Spec.{machine_spec_for_record}
use fascinate.Budget.Check.{ensure_user_can_start_machine, ensure_host_can_start_machine}
use fascinate.Env.Vars.{sync_managed_env}

unfoldable pub or_current : Result MachineRecord → MachineRecord → MachineRecord
or_current (ok refreshed) r = refreshed
or_current (err _) r = r

module _ (s : Service) where
  -- finishStartSuccess and finishStopSuccess: the disk usage is refreshed, and the new state is
  -- written with it.
  unfoldable pub persist_state : MachineRecord → Text → M (Unit {0})
  unfolding or_current
  persist_state r state = attempt (refresh_machine_disk_usage s r) λ q. allow_missing (
      update_machine_state_and_disk_usage (or_current q r).id state
        (retained_machine_disk_bytes (or_current q r)))

  unfoldable pub finish_start_success : MachineRecord → M (Unit {0})
  finish_start_success r = do
    persist_state r machine_state_running
    event_of r EventKind.machine_start_succeeded

  -- finishStartFailure
  unfoldable pub finish_start_failure : MachineRecord → M (Unit {0})
  finish_start_failure r = ignore (do
    allow_missing (update_machine_state r.id machine_state_stopped)
    event_of r EventKind.machine_start_failed)

  -- Under the lock of the host: the checks, and the write of STARTING.
  unfoldable pub admit_start : User → MachineRecord → ResourceSpec → M (Unit {0})
  admit_start user r spec = do
    host ← host_by_id (machine_host_id r s.local_host_id)
    rescue (ensure_user_can_start_machine s user spec)
        (record_event (some user.id) (some r.id) EventKind.machine_start_rejected)
    rescue (ensure_host_can_start_machine s host spec)
        (record_event (some user.id) (some r.id) EventKind.machine_start_rejected)
    update_machine_state r.id machine_state_starting

  -- A failure of syncManagedEnv stops the machine again.
  unfoldable pub stop_again : MachineRecord → M (Unit {0})
  stop_again r = do
    ignore (ask s.runtime.live_reply (Call.stop_machine (runtime_name_for_record r)))
    finish_start_failure r

  -- From the executor's lookup to the persisted state.
  unfoldable pub run_start : MachineRecord → M LiveMachine
  run_start r = do
    rescue (lift (executor_for_host_id s (machine_host_id r s.local_host_id)))
        (ignore (update_machine_state r.id machine_state_stopped))
    live ←
        rescue (ask s.runtime.live_reply (Call.start_machine (runtime_name_for_record r)))
          (finish_start_failure r)
    rescue (sync_managed_env s r) (stop_again r)
    rescue (finish_start_success r) (finish_start_failure r)
    pure live

  -- Both, for a machine that may be started.
  unfoldable pub perform_start : User → MachineRecord → ResourceSpec → M LiveMachine
  perform_start user found spec = do
    admit_start user found spec
    record_event (some user.id) (some found.id) EventKind.machine_start_started
    run_start (record found { state = machine_state_starting })

  -- StartMachine, at the identifier that a new user would get.
  unfoldable pub start_machine : Text → Text → Text → M MachineRecord
  start_machine fresh name owner_email = do
    let email = normalize_email owner_email
    fail_if (is_empty email) owner_required
    found ← owned_machine_record name email
    lift (ensure_machine_stopped_for_start found)
    spec ← lift (machine_spec_for_record s found)
    user ← ensure_user s fresh email
    live ← perform_start user found spec
    refreshed ← get_machine_by_name found.name
    machine_from_record refreshed live
