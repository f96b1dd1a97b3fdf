-- ===== src/Snapshot/Outcome.antt =====
-- Where the task of CreateSnapshot, and DeleteSnapshot, leave the row of a snapshot
-- (internal/controlplane/service.go).
use fascinate.Base.{
  ◌≡◌, true, false, ◌&&◌, Option, none, some, [], ◌∷◌, arith, if◌then◌else◌, inl, inr,
}
use fascinate.Base.Text.{Text, trim_space}
use fascinate.Result.{Result, Result-cases, ok, is_ok}
use fascinate.Database.Records.{User, World, SnapshotRecord, LiveSnapshot, Call, EventKind}
use fascinate.Database.Monad.{ask, record_event, statement}
use fascinate.Database.Snapshots.{
  has_id, update_snapshot_artifacts, update_snapshot_state, mark_snapshot_deleted,
}
use fascinate.Database.SnapshotRows.{
  Stored, snapshot_state_of, get_snapshot_by_id_found, get_snapshot_by_id_gone,
  update_snapshot_state_done, update_snapshot_artifacts-Stored, mark_snapshot_deleted_done,
}
use fascinate.Database.Leaves.{record_event_ok}
use fascinate.Service.{Service, executor_for_host_id, snapshot_host_id}
use fascinate.Service.State.{snapshot_state_ready, snapshot_state_failed}
use fascinate.Snapshot.Create.{
  source_machine_name_for_snapshot, finish_snapshot_failure, finish_snapshot_success, remove_orphan,
  run_snapshot_create,
}
use fascinate.Snapshot.Delete.{
  delete_snapshot_from_runtime, snapshot_gone_is_ok, perform_snapshot_delete,
}

-- The world with an event more.
abbrev noted : Option Text → Option Text → EventKind → World → World
noted a m k w = record w {
  events = record { actor_user_id = a; machine_id = m; kind = k } ∷ w.events;
}

record_event_run :
    (a m : Option Text) (k : EventKind) (w : World)
    → w.faults ≡ []
    → record_event a m k w ≡ (ok tt, noted a m k w)
unfolding record_event statement
record_event_run a m k w h = ground (arith, h)

record_event_snapshots :
    (a m : Option Text) (k : EventKind) (w : World)
    → (record_event a m k w).1.snapshots ≡ w.snapshots
unfolding record_event statement
record_event_snapshots a m k w = ground arith

noted-Stored :
    (i : Text) (a m : Option Text) (k : EventKind) (w : World)
    → Stored i w
    → Stored i (noted a m k w)
noted-Stored i a m k w d = record { no_faults = d.no_faults; trimmed = d.trimmed; known = d.known }

finish_snapshot_failure_state :
    (r : SnapshotRecord) (w : World)
    → Stored r.id w
    → snapshot_state_of r.id (finish_snapshot_failure r w).1.snapshots ≡ some snapshot_state_failed
unfolding finish_snapshot_failure
finish_snapshot_failure_state r w d =
    let (q, (found, same)) = get_snapshot_by_id_found r.id w d in
    ground (
      arith,
      found,
      same,
      record_event_snapshots (some r.owner_user_id) r.source_machine_id
          EventKind.snapshot_create_failed (update_snapshot_state r.id snapshot_state_failed w).1,
      (update_snapshot_state_done r.id w snapshot_state_failed d).1,
    )

module _ (s : Service) (r : SnapshotRecord) where
  finish_snapshot_success_state :
      (live : LiveSnapshot) (w : World)
      → Stored r.id w
      → snapshot_state_of r.id (finish_snapshot_success s r live w).1.snapshots
        ≡ some snapshot_state_ready
  unfolding finish_snapshot_success
  finish_snapshot_success_state live w d =
      let (q, (found, same)) = get_snapshot_by_id_found r.id w d in
      ground (
        arith,
        found,
        same,
        record_event_snapshots (some r.owner_user_id) r.source_machine_id
            EventKind.snapshot_create_succeeded
            (update_snapshot_state r.id snapshot_state_ready v).1,
        (update_snapshot_state_done r.id v snapshot_state_ready (
            update_snapshot_artifacts-Stored r.id w live.disk_size_bytes live.memory_size_bytes
              d)).1,
      )
    where
      v : World
      v = (update_snapshot_artifacts r.id live.disk_size_bytes live.memory_size_bytes w).1

  -- The answer of the runtime, as the first call of the task.
  abbrev pub snapshot_answer : World → Result LiveSnapshot
  snapshot_answer w =
      s.runtime.snapshot_reply
        (Call.create_snapshot (source_machine_name_for_snapshot r) r.runtime_name ∷ w.calls)

  -- When the database does not fail and the snapshot's row is there, the task of CreateSnapshot
  -- leaves it READY if the snapshot's host is known and the runtime makes the snapshot, and FAILED
  -- otherwise.
  pub run_snapshot_create_settles :
      (w : World)
      → Stored r.id w
      → snapshot_state_of r.id (run_snapshot_create s r w).1.snapshots
        ≡ some (
            if is_ok (executor_for_host_id s (snapshot_host_id r)) && is_ok (snapshot_answer w)
            then snapshot_state_ready
            else snapshot_state_failed)
  unfolding run_snapshot_create ask
  run_snapshot_create_settles w d =
      elim (Result-cases (executor_for_host_id s (snapshot_host_id r))) [
        | inr (x, no_host) ↦ ground (arith, started, finish_snapshot_failure_state r w1 d1)
        | inl (key, host) ↦ elim (Result-cases (snapshot_answer w)) [
          | inr (x, refused) ↦ ground (arith, started, finish_snapshot_failure_state r w2 d2)
          | inl (live, made) ↦ ground (arith, started, finish_snapshot_success_state live w2 d2)
        ]
      ]
    where
      w1 : World
      w1 = noted (some r.owner_user_id) r.source_machine_id EventKind.snapshot_create_started w

      w2 : World
      w2 = record w1 {
        calls = Call.create_snapshot (source_machine_name_for_snapshot r) r.runtime_name ∷ w.calls;
      }

      d1 : Stored r.id w1
      d1 = noted-Stored r.id _ _ _ w d

      d2 : Stored r.id w2
      d2 = record { no_faults = d.no_faults; trimmed = d.trimmed; known = d.known }

      started :
          record_event
            (some r.owner_user_id)
            r.source_machine_id
            EventKind.snapshot_create_started
            w
          ≡ (ok tt, w1)
      started =
          record_event_run (some r.owner_user_id) r.source_machine_id
            EventKind.snapshot_create_started w d.no_faults

  -- If the snapshot's row has gone when the runtime has made the snapshot, the task of
  -- CreateSnapshot asks the runtime to delete that snapshot again, when the database does not
  -- fail.
  pub run_snapshot_create_undone :
      (w : World) (live : LiveSnapshot)
      → w.faults ≡ []
      → has_id (trim_space r.id) w.snapshots ≡ false
      → is_ok (executor_for_host_id s (snapshot_host_id r)) ≡ true
      → snapshot_answer w ≡ ok live
      → (run_snapshot_create s r w).1.calls
        ≡ Call.delete_snapshot r.runtime_name
          ∷ Call.create_snapshot (source_machine_name_for_snapshot r) r.runtime_name
          ∷ w.calls
  unfolding run_snapshot_create finish_snapshot_success remove_orphan ask
  run_snapshot_create_undone w live h gone host made = ground (
    arith,
    record_event_run (some r.owner_user_id) r.source_machine_id EventKind.snapshot_create_started w
        h,
    get_snapshot_by_id_gone r.id w2 h gone,
  )
    where
      w2 : World
      w2 =
          record (noted (some r.owner_user_id) r.source_machine_id EventKind.snapshot_create_started
            w) {
              calls =
                  Call.create_snapshot (source_machine_name_for_snapshot r) r.runtime_name
                  ∷ w.calls;
            }

  -- When the database does not fail and the snapshot has a row, deleting it ends with no row if it
  -- succeeds, and with the row's state as it was if it fails.
  pub perform_snapshot_delete_settles :
      (user : User) (w : World)
      → Stored r.id w
      → snapshot_state_of r.id (perform_snapshot_delete s user r w).1.snapshots ≡ (
          if is_ok (perform_snapshot_delete s user r w).0
          then none
          else snapshot_state_of r.id w.snapshots)
  unfolding perform_snapshot_delete delete_snapshot_from_runtime snapshot_gone_is_ok ask
  perform_snapshot_delete_settles user w d = ground (
    arith,
    record_event_run (some user.id) r.source_machine_id EventKind.snapshot_delete_started w
        d.no_faults,
    record_event_snapshots (some user.id) r.source_machine_id EventKind.snapshot_delete_failed w2,
    (mark_snapshot_deleted_done r.id w2 d2).0,
    (mark_snapshot_deleted_done r.id w2 d2).1,
    record_event_ok (some user.id) r.source_machine_id EventKind.snapshot_delete_succeeded
        (mark_snapshot_deleted r.id w2).1,
    record_event_snapshots (some user.id) r.source_machine_id EventKind.snapshot_delete_succeeded
        (mark_snapshot_deleted r.id w2).1,
  )
    where
      w2 : World
      w2 = record (noted (some user.id) r.source_machine_id EventKind.snapshot_delete_started w) {
        calls = Call.delete_snapshot r.runtime_name ∷ w.calls;
      }

      d2 : Stored r.id w2
      d2 = record { no_faults = d.no_faults; trimmed = d.trimmed; known = d.known }
