-- ===== src/Machine/Outcome.antt =====
-- What deleting a machine (internal/controlplane/service.go) leaves of its row.
use fascinate.Base.{◌≡◌, refl, some, none, List, [], ◌∷◌, arith, if◌then◌else◌}
use fascinate.Base.Text.{Text}
use fascinate.Result.{ok, is_ok}
use fascinate.Database.Records.{World, MachineRecord, Call, EventKind}
use fascinate.Database.Monad.{◌>>◌, statement, ask, allow_missing}
use fascinate.Database.Machines.{delete_rows, update_machine_state, mark_machine_deleted}
use fascinate.Database.Rows.{Ready, Touches-Ready, update_machine_state-Touches}
use fascinate.Database.Leaves.{
  Leaves, state_of, record_event_machines, record_event_ok, update_machine_state-Leaves,
  recorded-Leaves, ignore-Leaves, event-Ready, ask-Ready, allow_missing-Leaves,
}
use fascinate.Service.{Service, runtime_name_for_record}
use fascinate.Service.State.{machine_state_deleting}
use fascinate.Service.Machines.{event_of}
use fascinate.Machine.Delete.{delete_from_runtime, restore_state, perform_delete}

state_of-delete_rows :
    (i : Text) (rows : List MachineRecord) → state_of i (delete_rows i rows) ≡ none
unfolding state_of delete_rows
state_of-delete_rows i [] = refl
state_of-delete_rows i (r ∷ rs) = ground (arith, state_of-delete_rows i rs)

-- The row is there, so marking it succeeds.
mark_machine_deleted_lem :
    (i : Text) (w : World)
    → Ready i w
    → ((mark_machine_deleted i w).0 ≡ ok tt)
      × (state_of i (mark_machine_deleted i w).1.machines ≡ none)
unfolding mark_machine_deleted statement
mark_machine_deleted_lem i w d = (
  ground (arith, d.no_faults, d.known),
  ground (arith, d.no_faults, d.known, state_of-delete_rows i w.machines),
)

module _ (s : Service) (found : MachineRecord) where
  restore_state-Leaves : Leaves found.id found.state (restore_state s found)
  unfolding restore_state
  restore_state-Leaves = ignore-Leaves (update_machine_state-Leaves found.id found.state)

  -- When no statement of the database fails and the machine has a row, deleting it ends with no row if
  -- it succeeds, and with the row in the state in which the machine was found if it fails.
  pub perform_delete_settles :
      (w : World)
      → Ready found.id w
      → state_of found.id (perform_delete s found w).1.machines
        ≡ (if is_ok (perform_delete s found w).0 then none else some found.state)
  unfolding perform_delete delete_from_runtime
  perform_delete_settles w d = ground (
    arith,
    record_event_ok (some found.owner_user_id) (some found.id) EventKind.machine_delete_started w,
    deleting.succeeds w1 d1,
    restore_state-Leaves.state_is w2 d2,
    failed.state_is w3 d3,
    failed.succeeds w3 d3,
    restore_state-Leaves.succeeds w2 d2,
    (mark_machine_deleted_lem found.id w3 d3).0,
    (mark_machine_deleted_lem found.id w3 d3).1,
    record_event_ok (some found.owner_user_id) (some found.id) EventKind.machine_delete_succeeded
        (mark_machine_deleted found.id w3).1,
    record_event_machines (some found.owner_user_id) (some found.id)
        EventKind.machine_delete_succeeded (mark_machine_deleted found.id w3).1,
  )
    where
      failed :
          Leaves found.id found.state
            (restore_state s found >> event_of found EventKind.machine_delete_failed)
      failed = recorded-Leaves restore_state-Leaves _ _ _

      deleting :
          Leaves found.id machine_state_deleting
            (allow_missing (update_machine_state found.id machine_state_deleting))
      deleting = allow_missing-Leaves (update_machine_state-Leaves found.id machine_state_deleting)

      w1 : World
      w1 = (event_of found EventKind.machine_delete_started w).1

      d1 : Ready found.id w1
      d1 = event-Ready found.id _ _ _ w d

      w2 : World
      w2 = (update_machine_state found.id machine_state_deleting w1).1

      d2 : Ready found.id w2
      d2 =
          Touches-Ready found.id w1 w2
            ((update_machine_state-Touches found.id machine_state_deleting).step w1) d1

      w3 : World
      w3 = (ask s.runtime.unit_reply (Call.delete_machine (runtime_name_for_record found)) w2).1

      d3 : Ready found.id w3
      d3 = ask-Ready s.runtime.unit_reply found.id _ w2 d2
