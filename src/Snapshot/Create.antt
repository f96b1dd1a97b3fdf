-- ===== src/Snapshot/Create.antt =====
-- CreateSnapshot of internal/controlplane/service.go and the task that it starts: runSnapshotCreate,
-- finishSnapshotSuccess and finishSnapshotFailure.
use fascinate.Base.{ℕ, some, none, []}
use fascinate.Base.Text.{Text, trim_space, is_empty}
use fascinate.Result.{Error, ok, err, owner_required, snapshot_name_required}
use fascinate.Database.Records.{User, MachineRecord, SnapshotRecord, LiveSnapshot, Call, EventKind}
use fascinate.Database.Monad.{
  M, pure, lift, attempt, ask, ignore, rescue, fail_if, record_event, ◌>>=◌, ◌>>◌,
}
use fascinate.Database.Machines.{normalize_email}
use fascinate.Database.Snapshots.{
  create_snapshot_row, get_snapshot_by_id, update_snapshot_artifacts, update_snapshot_state,
}
use fascinate.Service.{Service, executor_for_host_id, machine_host_id, snapshot_host_id}
use fascinate.Service.State.{
  snapshot_state_creating, snapshot_state_ready, snapshot_state_failed,
  ensure_machine_running_for_action,
}
use fascinate.Service.Storage.{ResourceSpec, estimated_snapshot_artifact_bytes}
use fascinate.Service.Users.{ensure_user}
use fascinate.Service.Machines.{owned_machine_record, host_by_id, refresh_if_known}
use fascinate.Budget.Spec.{machine_spec_for_record}
use fascinate.Budget.Check.{ensure_user_can_create_snapshot, ensure_host_can_fit_snapshot}

-- CreateSnapshotInput
pub record CreateSnapshotInput : Type 0 where
  pub machine_name : Text
  pub snapshot_name : Text
  pub owner_email : Text

-- An event about a snapshot.
abbrev pub snapshot_event : SnapshotRecord → EventKind → M (Unit {0})
snapshot_event r kind = record_event (some r.owner_user_id) r.source_machine_id kind

-- sourceMachineNameForSnapshot
unfoldable pub source_machine_name_for_snapshot : SnapshotRecord → Text
source_machine_name_for_snapshot r = elim r.source_machine_name [
  | none ↦ []
  | some name ↦ trim_space name
]

-- finishSnapshotFailure
unfoldable pub finish_snapshot_failure : SnapshotRecord → M (Unit {0})
finish_snapshot_failure r = attempt (get_snapshot_by_id r.id) λ q. elim q [
  | err _ ↦ pure tt
  | ok current ↦ (do
    ignore (update_snapshot_state current.id snapshot_state_failed)
    snapshot_event r EventKind.snapshot_create_failed)
]

module _ (s : Service) where
  -- The runtime's snapshot is removed where its row has gone.
  unfoldable pub remove_orphan : SnapshotRecord → Error → M (Unit {0})
  remove_orphan r Error.not_found = ignore (do
    executor ← lift (executor_for_host_id s (snapshot_host_id r))
    ask s.runtime.unit_reply (Call.delete_snapshot r.runtime_name))
  remove_orphan r _ = pure tt

  -- finishSnapshotSuccess
  unfoldable pub finish_snapshot_success : SnapshotRecord → LiveSnapshot → M (Unit {0})
  finish_snapshot_success r live = attempt (get_snapshot_by_id r.id) λ q. elim q [
    | err e ↦ remove_orphan r e
    | ok current ↦ (do
      ignore (update_snapshot_artifacts current.id live.disk_size_bytes live.memory_size_bytes)
      ignore (update_snapshot_state current.id snapshot_state_ready)
      snapshot_event r EventKind.snapshot_create_succeeded)
  ]

  -- runSnapshotCreate
  unfoldable pub run_snapshot_create : SnapshotRecord → M (Unit {0})
  run_snapshot_create r = do
    snapshot_event r EventKind.snapshot_create_started
    attempt (lift (executor_for_host_id s (snapshot_host_id r))) λ q. elim q [
      | err _ ↦ finish_snapshot_failure r
      | ok _ ↦
          attempt
            (ask s.runtime.snapshot_reply
              (Call.create_snapshot (source_machine_name_for_snapshot r) r.runtime_name))
            λ p. elim p [
              | err _ ↦ finish_snapshot_failure r
              | ok live ↦ finish_snapshot_success r live
            ]
    ]

  -- The row that is inserted, at its identifier and the runtime's name. The join with the machines
  -- shows the name of the source.
  abbrev pub snapshot_row :
      User → MachineRecord → ResourceSpec → Text → Text → Text → SnapshotRecord
  snapshot_row user source spec i runtime_name name = record {
    id = i;
    name = name;
    owner_user_id = user.id;
    owner_email = user.email;
    host_id = some (machine_host_id source s.local_host_id);
    source_machine_id = some source.id;
    source_machine_name = some source.name;
    runtime_name = runtime_name;
    state = snapshot_state_creating;
    cpu = spec.cpu;
    memory_bytes = spec.memory_bytes;
    disk_bytes = spec.disk_bytes;
    artifact_dir = s.join_path s.cfg.runtime_snapshot_dir runtime_name;
    disk_size_bytes = spec.disk_bytes;
    memory_size_bytes = spec.memory_bytes;
  }

  -- Under the lock of the host: the checks and the insertion.
  unfoldable pub admit_snapshot : User → MachineRecord → ℕ → SnapshotRecord → M SnapshotRecord
  admit_snapshot user source reserved row = do
    host ← host_by_id (machine_host_id source s.local_host_id)
    rescue (ensure_user_can_create_snapshot s user reserved)
        (record_event (some user.id) (some source.id) EventKind.snapshot_create_rejected)
    rescue (ensure_host_can_fit_snapshot s host reserved)
        (record_event (some user.id) (some source.id) EventKind.snapshot_create_rejected)
    create_snapshot_row row

  -- CreateSnapshot, at the identifiers that a new user, the row and the runtime's snapshot would get.
  -- The task that it starts runs here before the answer, which does not depend on it.
  unfoldable pub create_snapshot : Text → Text → Text → CreateSnapshotInput → M SnapshotRecord
  create_snapshot fresh_user fresh fresh_runtime input = do
    let email = normalize_email input.owner_email
    fail_if (is_empty email) owner_required
    let name = trim_space input.snapshot_name
    fail_if (is_empty name) snapshot_name_required
    user ← ensure_user s fresh_user email
    found ← owned_machine_record input.machine_name email
    lift (ensure_machine_running_for_action found)
    source ← refresh_if_known s found
    spec ← lift (machine_spec_for_record s source)
    r ←
        admit_snapshot user source (estimated_snapshot_artifact_bytes source spec)
          (snapshot_row user source spec fresh fresh_runtime name)
    record_event (some user.id) (some source.id) EventKind.snapshot_create_queued
    run_snapshot_create r
    pure r
