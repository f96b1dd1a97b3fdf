-- ===== src/Power/Stop.antt =====
-- StopMachine of internal/controlplane/machine_power.go.
use fascinate.Base.Text.{Text, is_empty}
use fascinate.Result.{owner_required}
use fascinate.Database.Records.{MachineRecord, LiveMachine, Call, EventKind}
use fascinate.Database.Monad.{
  M, pure, lift, ignore, rescue, fail_if, ask, allow_missing, ◌>>=◌, ◌>>◌,
}
use fascinate.Database.Machines.{normalize_email, get_machine_by_name, update_machine_state}
use fascinate.Service.{Service, executor_for_host_id, machine_host_id, runtime_name_for_record}
use fascinate.Service.State.{
  machine_state_running, machine_state_stopping, machine_state_stopped,
  ensure_machine_running_for_stop,
}
use fascinate.Service.Machines.{event_of, owned_machine_record, machine_from_record}
use fascinate.Power.Start.{persist_state}

module _ (s : Service) where
  -- finishStopSuccess
  unfoldable pub finish_stop_success : MachineRecord → M (Unit {0})
  finish_stop_success r = do
    persist_state s r machine_state_stopped
    event_of r EventKind.machine_stop_succeeded

  -- finishStopFailure
  unfoldable pub finish_stop_failure : MachineRecord → M (Unit {0})
  finish_stop_failure r = ignore (do
    allow_missing (update_machine_state r.id machine_state_running)
    event_of r EventKind.machine_stop_failed)

  -- From the executor's lookup to the persisted state.
  unfoldable pub run_stop : MachineRecord → M LiveMachine
  run_stop r = do
    rescue (lift (executor_for_host_id s (machine_host_id r s.local_host_id)))
        (ignore (update_machine_state r.id machine_state_running))
    live ←
        rescue (ask s.runtime.live_reply (Call.stop_machine (runtime_name_for_record r)))
          (finish_stop_failure r)
    rescue (finish_stop_success r) (finish_stop_failure r)
    pure live

  -- For a machine that may be stopped.
  unfoldable pub perform_stop : MachineRecord → M LiveMachine
  perform_stop found = do
    update_machine_state found.id machine_state_stopping
    event_of found EventKind.machine_stop_started
    run_stop (record found { state = machine_state_stopping })

  -- StopMachine
  unfoldable pub stop_machine : Text → Text → M MachineRecord
  stop_machine name owner_email = do
    let email = normalize_email owner_email
    fail_if (is_empty email) owner_required
    found ← owned_machine_record name email
    lift (ensure_machine_running_for_stop found)
    live ← perform_stop found
    refreshed ← get_machine_by_name found.name
    machine_from_record refreshed live
