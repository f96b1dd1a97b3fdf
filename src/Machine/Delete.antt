-- ===== src/Machine/Delete.antt =====
-- DeleteMachine of internal/controlplane/service.go. No manager of tool credentials is configured,
-- so captureToolAuthBestEffort does nothing.
use fascinate.Base.Text.{Text, is_empty}
use fascinate.Result.{Result, Error, ok, err, owner_required}
use fascinate.Database.Records.{MachineRecord, Call, EventKind}
use fascinate.Database.Monad.{
  M, lift, attempt, ask, ignore, rescue, fail_if, allow_missing, ◌>>=◌, ◌>>◌,
}
use fascinate.Database.Machines.{normalize_email, update_machine_state, mark_machine_deleted}
use fascinate.Service.{Service, executor_for_host_id, machine_host_id, runtime_name_for_record}
use fascinate.Service.State.{machine_state_deleting, ensure_machine_deletable}
use fascinate.Service.Machines.{event_of, owned_machine_record}

-- A machine that the runtime does not know is deleted.
unfoldable pub gone_is_ok : Result (Unit {0}) → Result (Unit {0})
gone_is_ok (err Error.machine_not_found) = ok tt
gone_is_ok q = q

module _ (s : Service) where
  -- executor.DeleteMachine, with the error that the code lets pass
  unfoldable pub delete_from_runtime : Text → M (Unit {0})
  delete_from_runtime name =
      attempt (ask s.runtime.unit_reply (Call.delete_machine name)) λ q. lift (gone_is_ok q)

  -- Where the runtime refuses, the row gets its state back.
  unfoldable pub restore_state : MachineRecord → M (Unit {0})
  restore_state r = ignore (update_machine_state r.id r.state)

  -- For a machine that may be deleted, as it was found.
  unfoldable pub perform_delete : MachineRecord → M (Unit {0})
  perform_delete found = do
    event_of found EventKind.machine_delete_started
    allow_missing (update_machine_state found.id machine_state_deleting)
    rescue (lift (executor_for_host_id s (machine_host_id found s.local_host_id)))
        (restore_state found)
    rescue (delete_from_runtime (runtime_name_for_record found))
        (do restore_state found; event_of found EventKind.machine_delete_failed)
    mark_machine_deleted found.id
    event_of found EventKind.machine_delete_succeeded

  -- DeleteMachine
  unfoldable pub delete_machine : Text → Text → M (Unit {0})
  delete_machine name owner_email = do
    let email = normalize_email owner_email
    fail_if (is_empty email) owner_required
    found ← owned_machine_record name email
    lift (ensure_machine_deletable found)
    perform_delete found
