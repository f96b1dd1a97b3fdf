-- ===== src/Service/Guards.antt =====
-- Which operations a machine's state admits (internal/controlplane/service.go, machine_power.go).
use fascinate.Base.{◌≡◌, true, false, ◌&&◌, arith}
use fascinate.Result.{ok, is_ok}
use fascinate.Database.Records.{MachineRecord}
use fascinate.Service.State.{
  transitional, machine_state_is_transitional, stopped_for_start, running_for_stop, delete_refused,
  ensure_machine_stopped_for_start, ensure_machine_running_for_stop, ensure_machine_deletable,
}

-- A machine that is CREATING, STARTING, STOPPING or DELETING is refused by the checks of starting, of
-- stopping and of deleting.
pub transitional_refused :
    (r : MachineRecord)
    → machine_state_is_transitional r.state ≡ true
    → (is_ok (ensure_machine_stopped_for_start r) ≡ false)
      × (is_ok (ensure_machine_running_for_stop r) ≡ false)
      × (is_ok (ensure_machine_deletable r) ≡ false)
unfolding machine_state_is_transitional ensure_machine_stopped_for_start
    ensure_machine_running_for_stop ensure_machine_deletable transitional stopped_for_start
    running_for_stop delete_refused
transitional_refused r h = (ground arith, ground arith, ground arith)

-- A machine that is not CREATING, STARTING, STOPPING or DELETING may be deleted, and at most one of
-- starting and stopping is admitted.
pub settled_admitted :
    (r : MachineRecord)
    → machine_state_is_transitional r.state ≡ false
    → (ensure_machine_deletable r ≡ ok tt)
      × ((is_ok (ensure_machine_stopped_for_start r) && is_ok (ensure_machine_running_for_stop r))
          ≡ false)
unfolding machine_state_is_transitional ensure_machine_stopped_for_start
    ensure_machine_running_for_stop ensure_machine_deletable transitional stopped_for_start
    running_for_stop delete_refused
settled_admitted r h = (ground arith, ground arith)
