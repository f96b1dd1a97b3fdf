-- ===== src/Machine/Request.antt =====
-- CreateMachine of internal/controlplane/service.go, up to the inserted row and its queued task. No
-- manager of tool credentials is configured, so syncToolAuthFromOwnerRunningMachines returns at once.
use fascinate.Base.{ℕ, not, Option, some, none, [], ◌∷◌, if◌then◌else◌}
use fascinate.Base.Text.{Text, trim_space, is_empty, equal_fold}
use fascinate.Result.{Result, owner_required, wrong_state}
use fascinate.Size.{format_byte_size}
use fascinate.Database.Records.{User, MachineRecord, EventKind}
use fascinate.Database.Monad.{M, pure, lift, ignore, rescue, fail_if, record_event, ◌>>=◌, ◌>>◌}
use fascinate.Database.Machines.{normalize_email, list_machines, create_machine_row}
use fascinate.Database.Snapshots.{get_snapshot_by_name}
use fascinate.Database.Users.{mark_user_tutorial_completed}
use fascinate.Service.{Service, executor_for_host_id, snapshot_host_id}
use fascinate.Service.State.{machine_state_creating, snapshot_state_ready}
use fascinate.Service.Storage.{
  ResourceSpec, estimated_fresh_machine_retained_disk_bytes, estimated_snapshot_restore_disk_bytes,
}
use fascinate.Service.Users.{ensure_user}
use fascinate.Service.Machines.{host_by_id, machine_from_record, no_live}
use fascinate.Budget.Spec.{
  default_machine_spec, snapshot_spec_for_record, validate_machine_size_limit,
}
use fascinate.Budget.Check.{ensure_user_can_create_machine, ensure_host_can_fit_machine}
use fascinate.Host.Placement.{get_placement_host}
use fascinate.Machine.Name.{validate_machine_name}
use fascinate.Machine.Create.{queue_machine_create}

-- CreateMachineInput
pub record CreateMachineInput : Type 0 where
  pub name : Text
  pub owner_email : Text
  pub snapshot_name : Text

-- What is decided before the lock of the host is taken: the variables spec, hostID, sourceSnapshotID
-- and retainedDiskBytes.
pub record Plan : Type 0 where
  pub spec : ResourceSpec
  pub host_id : Text
  pub source_snapshot_id : Option Text
  pub retained : ℕ

-- markUserTutorialCompletedBestEffort
unfoldable pub mark_user_tutorial_completed_best_effort : Text → M (Unit {0})
mark_user_tutorial_completed_best_effort i = ignore (mark_user_tutorial_completed i)

module _ (s : Service) where
  -- validateMachineSizeLimit at a specification
  unfoldable pub spec_within_limit : ResourceSpec → Result (Unit {0})
  spec_within_limit spec =
      validate_machine_size_limit s spec.cpu (format_byte_size spec.memory_bytes)
        (format_byte_size spec.disk_bytes)

  -- The branch of a machine that is made from a snapshot.
  unfoldable pub plan_from_snapshot : User → Text → M Plan
  plan_from_snapshot user name = do
    r ← get_snapshot_by_name user.id name
    fail_if (not (equal_fold r.state snapshot_state_ready)) (wrong_state r.state)
    spec ← lift (snapshot_spec_for_record s r)
    lift (spec_within_limit spec)
    let own = snapshot_host_id r
    let host_id = if is_empty own then s.local_host_id else own
    executor ← lift (executor_for_host_id s host_id)
    pure (record {
      spec = spec;
      host_id = host_id;
      source_snapshot_id = some r.id;
      retained = estimated_snapshot_restore_disk_bytes r spec;
    })

  -- The other branch.
  unfoldable pub plan_fresh : ResourceSpec → M Plan
  plan_fresh spec = do
    host ←
        get_placement_host s spec.cpu (format_byte_size spec.memory_bytes)
          (format_byte_size spec.disk_bytes)
    pure (record {
      spec = spec;
      host_id = host.id;
      source_snapshot_id = none;
      retained = estimated_fresh_machine_retained_disk_bytes spec;
    })

  -- The row that is inserted.
  abbrev pub created_row : User → Text → Text → ℕ → Plan → MachineRecord
  created_row user i name port plan = record {
    id = i;
    name = name;
    owner_user_id = user.id;
    owner_email = [];
    host_id = some plan.host_id;
    runtime_name = name;
    source_snapshot_id = plan.source_snapshot_id;
    state = machine_state_creating;
    cpu = plan.spec.cpu;
    memory_bytes = plan.spec.memory_bytes;
    disk_bytes = plan.spec.disk_bytes;
    disk_usage_bytes = plan.retained;
    primary_port = port;
  }

  -- Under the lock of the host: the checks and the insertion. `rejected` records the event of a
  -- refusal.
  unfoldable pub admit_machine : User → M (Unit {0}) → Plan → MachineRecord → M MachineRecord
  admit_machine user rejected plan row = do
    host ← host_by_id plan.host_id
    rescue (ensure_user_can_create_machine s user plan.spec plan.retained) rejected
    rescue (ensure_host_can_fit_machine s host plan.spec plan.retained) rejected
    create_machine_row row

  -- CreateMachine, at the identifiers that a new user and the machine would get. The task that is
  -- queued at the end runs here before the answer, which does not depend on it.
  unfoldable pub create_machine : Text → Text → CreateMachineInput → M MachineRecord
  create_machine fresh_user fresh input = do
    name ← lift (validate_machine_name input.name)
    let email = normalize_email input.owner_email
    fail_if (is_empty email) owner_required
    user ← ensure_user s fresh_user email
    existing ← list_machines email
    spec ← lift (default_machine_spec s)
    lift (spec_within_limit spec)
    let snapshot_name = trim_space input.snapshot_name
    plan ← if is_empty snapshot_name then plan_fresh spec else plan_from_snapshot user snapshot_name
    r ←
        admit_machine user (record_event (some user.id) none EventKind.machine_create_rejected) plan
          (created_row user fresh name s.cfg.default_primary_port plan)
    record_event (some user.id) (some r.id) EventKind.machine_create_queued
    elim existing [ [] ↦ pure tt | _ ∷ _ ↦ mark_user_tutorial_completed_best_effort user.id ]
    queue_machine_create s r
    machine_from_record r no_live
