-- ===== src/Snapshot/Delete.antt =====
-- DeleteSnapshot of internal/controlplane/service.go.
use fascinate.Base.{some}
use fascinate.Base.Text.{Text, trim_space, is_empty}
use fascinate.Result.{Result, Error, ok, err, owner_required}
use fascinate.Database.Records.{User, SnapshotRecord, Call, EventKind}
use fascinate.Database.Monad.{M, lift, attempt, ask, rescue, fail_if, record_event, ◌>>=◌, ◌>>◌}
use fascinate.Database.Machines.{normalize_email}
use fascinate.Database.Users.{get_user_by_email}
use fascinate.Database.Snapshots.{get_snapshot_by_name, mark_snapshot_deleted}
use fascinate.Service.{Service, executor_for_host_id, snapshot_host_id}

-- A snapshot that the runtime does not know is deleted.
unfoldable pub snapshot_gone_is_ok : Result (Unit {0}) → Result (Unit {0})
snapshot_gone_is_ok (err Error.snapshot_not_found) = ok tt
snapshot_gone_is_ok q = q

module _ (s : Service) where
  -- executor.DeleteSnapshot, with the error that the code lets pass
  unfoldable pub delete_snapshot_from_runtime : Text → M (Unit {0})
  delete_snapshot_from_runtime name =
      attempt (ask s.runtime.unit_reply (Call.delete_snapshot name))
        λ q. lift (snapshot_gone_is_ok q)

  -- For a snapshot that was found.
  unfoldable pub perform_snapshot_delete : User → SnapshotRecord → M (Unit {0})
  perform_snapshot_delete user r = do
    record_event (some user.id) r.source_machine_id EventKind.snapshot_delete_started
    executor ← lift (executor_for_host_id s (snapshot_host_id r))
    rescue (delete_snapshot_from_runtime r.runtime_name)
        (record_event (some user.id) r.source_machine_id EventKind.snapshot_delete_failed)
    mark_snapshot_deleted r.id
    record_event (some user.id) r.source_machine_id EventKind.snapshot_delete_succeeded

  -- DeleteSnapshot
  unfoldable pub delete_snapshot : Text → Text → M (Unit {0})
  delete_snapshot name owner_email = do
    let email = normalize_email owner_email
    fail_if (is_empty email) owner_required
    user ← get_user_by_email email
    r ← get_snapshot_by_name user.id (trim_space name)
    perform_snapshot_delete user r
