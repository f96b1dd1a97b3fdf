-- ===== src/Machine/Create.antt =====
-- The task that makes a machine, of internal/controlplane/service.go, from the inserted row on:
-- queueMachineCreate, runMachineCreate, and the two ways in which it ends. No manager of tool
-- credentials is configured, so restoreToolAuth returns at once.
use fascinate.Base.{some, none, if◌then◌else◌}
use fascinate.Base.Text.{Text, trim_space, is_empty}
use fascinate.Result.{Result, Error, ok, err}
use fascinate.Database.Records.{MachineRecord, LiveMachine, Call, EventKind}
use fascinate.Database.Monad.{M, pure, lift, attempt, ask, ◌>>=◌, ◌>>◌}
use fascinate.Database.Machines.{
  get_machine_by_name, update_machine_state, update_machine_state_and_disk_usage,
}
use fascinate.Database.Snapshots.{get_snapshot_by_id}
use fascinate.Service.{Service, executor_for_host_id, machine_host_id, runtime_name_for_record}
use fascinate.Service.State.{machine_state_failed}
use fascinate.Service.Storage.{retained_machine_disk_bytes}
use fascinate.Service.Machines.{event_of, refresh_machine_disk_usage, cleanup_runtime_machine}
use fascinate.Budget.Spec.{machine_spec_for_record}
use fascinate.Env.Vars.{sync_managed_env}
use fascinate.Power.Start.{or_current}

module _ (s : Service) where
  -- What follows the update of finishCreateSuccess: a row that has gone takes its machine with it,
  -- another error is logged.
  unfoldable pub after_update : MachineRecord → Result (Unit {0}) → M (Unit {0})
  after_update r (err Error.not_found) =
      cleanup_runtime_machine s (runtime_name_for_record r) (machine_host_id r s.local_host_id)
  after_update r _ = event_of r EventKind.machine_create_succeeded

  -- finishCreateSuccess
  unfoldable pub finish_create_success : MachineRecord → LiveMachine → M (Unit {0})
  finish_create_success r live = attempt (get_machine_by_name r.name) λ q. elim q [
    | err _ ↦
        cleanup_runtime_machine s (runtime_name_for_record r) (machine_host_id r s.local_host_id)
    | ok current ↦ attempt (refresh_machine_disk_usage s current) λ p.
        attempt
          (update_machine_state_and_disk_usage (or_current p current).id live.state
            (retained_machine_disk_bytes (or_current p current)))
          (after_update r)
  ]

  -- finishCreateFailure
  unfoldable pub finish_create_failure : MachineRecord → Text → M (Unit {0})
  finish_create_failure r runtime_name = do
    cleanup_runtime_machine s runtime_name (machine_host_id r s.local_host_id)
    attempt (get_machine_by_name r.name) λ q. elim q [
      | err _ ↦ pure tt
      | ok current ↦
          attempt (update_machine_state current.id machine_state_failed)
            λ _. event_of r EventKind.machine_create_failed
    ]

  -- runMachineCreate, with the name of its request
  unfoldable pub run_machine_create : MachineRecord → Text → M (Unit {0})
  run_machine_create r name = do
    event_of r EventKind.machine_create_started
    attempt (lift (executor_for_host_id s (machine_host_id r s.local_host_id))) λ q. elim q [
      | err _ ↦ finish_create_failure r name
      | ok _ ↦ attempt (ask s.runtime.live_reply (Call.create_machine name)) λ p. elim p [
        | err _ ↦ finish_create_failure r name
        | ok live ↦ (do
          event_of r EventKind.machine_create_runtime_ready
          attempt (sync_managed_env s r) λ t. elim t [
            | err _ ↦ finish_create_failure r name
            | ok _ ↦ finish_create_success r live
          ])
      ]
    ]

  -- The lookup of the snapshot that the machine is made from, if it is made from one.
  unfoldable pub source_snapshot_found : MachineRecord → M (Unit {0})
  source_snapshot_found r = elim r.source_snapshot_id [
    | none ↦ pure tt
    | some i ↦
        if is_empty (trim_space i)
        then pure tt
        else (do snapshot ← get_snapshot_by_id (trim_space i); pure tt)
  ]

  -- queueMachineCreate, followed by its task; no creation under the same name is running.
  unfoldable pub queue_machine_create : MachineRecord → M (Unit {0})
  queue_machine_create r =
      let name = runtime_name_for_record r in
      if is_empty name
      then pure tt
      else attempt (lift (machine_spec_for_record s r)) λ q. elim q [
        | err _ ↦ finish_create_failure r name
        | ok spec ↦
            attempt (source_snapshot_found r) λ p. elim p [
              | err _ ↦ finish_create_failure r name
              | ok _ ↦ run_machine_create r name
            ]
      ]
