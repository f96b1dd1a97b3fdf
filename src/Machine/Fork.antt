-- ===== src/Machine/Fork.antt =====
-- ForkMachine and finishForkFailure of internal/controlplane/service.go.
use fascinate.Base.{not, some, none}
use fascinate.Base.Text.{Text, text_eq, is_empty}
use fascinate.Result.{ok, err, owner_required, same_name, not_found}
use fascinate.Database.Records.{User, MachineRecord, LiveMachine, Call, EventKind}
use fascinate.Database.Monad.{
  M, pure, lift, attempt, ask, ignore, rescue, fail_if, record_event, ◌>>=◌, ◌>>◌,
}
use fascinate.Database.Machines.{
  normalize_email, get_machine_by_name, update_machine_state, update_machine_state_and_disk_usage,
}
use fascinate.Service.{Service, executor_for_host_id, machine_host_id, runtime_name_for_record}
use fascinate.Service.State.{machine_state_failed, ensure_machine_running_for_action}
use fascinate.Service.Storage.{estimated_fork_disk_bytes, retained_machine_disk_bytes}
use fascinate.Service.Users.{ensure_user}
use fascinate.Service.Machines.{
  event_of, machine_from_record, refresh_if_known, cleanup_runtime_machine,
}
use fascinate.Budget.Spec.{machine_spec_from_runtime}
use fascinate.Env.Vars.{sync_managed_env}
use fascinate.Machine.Name.{validate_machine_name}
use fascinate.Machine.Request.{
  Plan, spec_within_limit, created_row, admit_machine, mark_user_tutorial_completed_best_effort,
}

-- ForkMachineInput
pub record ForkMachineInput : Type 0 where
  pub source_name : Text
  pub target_name : Text
  pub owner_email : Text

module _ (s : Service) where
  -- finishForkFailure
  unfoldable pub finish_fork_failure : MachineRecord → M (Unit {0})
  finish_fork_failure r = do
    cleanup_runtime_machine s (runtime_name_for_record r) (machine_host_id r s.local_host_id)
    attempt (get_machine_by_name r.name) λ q. elim q [
      | err _ ↦ pure tt
      | ok current ↦ ignore (update_machine_state current.id machine_state_failed)
    ]
    event_of r EventKind.machine_fork_failed

  -- What the runtime made of the target's row.
  abbrev pub forked : MachineRecord → LiveMachine → MachineRecord
  forked r live = record r { runtime_name = live.name; state = live.state }

  -- From the runtime's call to the answer, for an inserted row.
  unfoldable pub run_fork : User → MachineRecord → MachineRecord → Text → M MachineRecord
  run_fork user source r target_name = do
    live ←
        rescue
          (ask s.runtime.live_reply
            (Call.fork_machine (runtime_name_for_record source) target_name))
          (finish_fork_failure r)
    refreshed ← rescue (refresh_if_known s (forked r live)) (finish_fork_failure (forked r live))
    rescue
        (update_machine_state_and_disk_usage refreshed.id live.state
          (retained_machine_disk_bytes refreshed))
        (finish_fork_failure refreshed)
    mark_user_tutorial_completed_best_effort user.id
    rescue (sync_managed_env s refreshed) (finish_fork_failure refreshed)
    record_event (some user.id) (some refreshed.id) EventKind.machine_fork_succeeded
    machine_from_record refreshed live

  -- ForkMachine, at the identifiers that a new user and the target would get.
  unfoldable pub fork_machine : Text → Text → ForkMachineInput → M MachineRecord
  fork_machine fresh_user fresh input = do
    source_name ← lift (validate_machine_name input.source_name)
    target_name ← lift (validate_machine_name input.target_name)
    fail_if (text_eq source_name target_name) same_name
    let email = normalize_email input.owner_email
    fail_if (is_empty email) owner_required
    found ← get_machine_by_name source_name
    fail_if (not (text_eq (normalize_email found.owner_email) email)) not_found
    lift (ensure_machine_running_for_action found)
    let host_id = machine_host_id found s.local_host_id
    executor ← lift (executor_for_host_id s host_id)
    live ← ask s.runtime.live_reply (Call.get_machine (runtime_name_for_record found))
    source ← refresh_if_known s found
    spec ← lift (machine_spec_from_runtime s source live)
    lift (spec_within_limit s spec)
    user ← ensure_user s fresh_user email
    let plan : Plan = record {
      spec = spec;
      host_id = host_id;
      source_snapshot_id = none;
      retained = estimated_fork_disk_bytes source spec;
    }
    r ←
        admit_machine s user
          (record_event (some user.id) (some source.id) EventKind.machine_fork_rejected) plan
          (created_row s user fresh target_name source.primary_port plan)
    record_event (some user.id) (some source.id) EventKind.machine_fork_started
    run_fork user source r target_name
