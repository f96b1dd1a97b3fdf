-- ===== src/Service/State.antt =====
-- The states of machines and snapshots (internal/controlplane/service.go, budgets.go and
-- machine_power.go): texts in the database, which the code compares after trimming and upper case.
use fascinate.Base.{Bool, true, false, not, ◌||◌, if◌then◌else◌}
use fascinate.Base.Text.{Text, codes, text_eq, trim_space, to_upper, equal_fold, is_empty}
use fascinate.Result.{Result, ok, err, wrong_state}
use fascinate.Database.Records.{MachineRecord}

abbrev pub machine_state_creating : Text
machine_state_creating = codes "CREATING"

abbrev pub machine_state_starting : Text
machine_state_starting = codes "STARTING"

abbrev pub machine_state_running : Text
machine_state_running = codes "RUNNING"

abbrev pub machine_state_stopping : Text
machine_state_stopping = codes "STOPPING"

abbrev pub machine_state_stopped : Text
machine_state_stopped = codes "STOPPED"

abbrev pub machine_state_deleting : Text
machine_state_deleting = codes "DELETING"

abbrev pub machine_state_failed : Text
machine_state_failed = codes "FAILED"

abbrev pub snapshot_state_creating : Text
snapshot_state_creating = codes "CREATING"

abbrev pub snapshot_state_ready : Text
snapshot_state_ready = codes "READY"

abbrev pub snapshot_state_failed : Text
snapshot_state_failed = codes "FAILED"

-- The cases of the switches over a machine's state.
pub data Phase : Type 0 where
  creating starting running stopping stopped deleting failed other : Phase

unfoldable pub phase_of : Text → Phase
phase_of t =
    if text_eq t machine_state_creating
    then creating
    else if text_eq t machine_state_starting
    then starting
    else if text_eq t machine_state_running
    then running
    else if text_eq t machine_state_stopping
    then stopping
    else if text_eq t machine_state_stopped
    then stopped
    else if text_eq t machine_state_deleting
    then deleting
    else if text_eq t machine_state_failed
    then failed
    else other

-- switch strings.ToUpper(strings.TrimSpace(state))
unfoldable pub phase : Text → Phase
phase state = phase_of (to_upper (trim_space state))

-- machineCountsTowardQuota and machineConsumesDisk
unfoldable pub machine_counts_toward_quota : Text → Bool
machine_counts_toward_quota state = not (equal_fold (trim_space state) machine_state_failed)

unfoldable pub machine_consumes_disk : Text → Bool
machine_consumes_disk state = not (equal_fold (trim_space state) machine_state_failed)

unfoldable pub consumes_compute : Phase → Bool
consumes_compute creating = true
consumes_compute starting = true
consumes_compute running = true
consumes_compute stopping = true
consumes_compute _ = false

-- machineConsumesCompute
unfoldable pub machine_consumes_compute : Text → Bool
unfolding consumes_compute
machine_consumes_compute state = consumes_compute (phase state)

-- snapshotCountsTowardQuota and snapshotConsumesDisk
unfoldable pub snapshot_counts_toward_quota : Text → Bool
snapshot_counts_toward_quota state = not (equal_fold (trim_space state) snapshot_state_failed)

unfoldable pub snapshot_consumes_disk : Text → Bool
snapshot_consumes_disk state = not (equal_fold (trim_space state) snapshot_state_failed)

unfoldable pub transitional : Phase → Bool
transitional creating = true
transitional starting = true
transitional stopping = true
transitional deleting = true
transitional _ = false

-- machineStateIsTransitional
unfoldable pub machine_state_is_transitional : Text → Bool
unfolding transitional
machine_state_is_transitional state = transitional (phase state)

unfoldable pub allows_missing_runtime : Phase → Bool
allows_missing_runtime creating = true
allows_missing_runtime deleting = true
allows_missing_runtime failed = true
allows_missing_runtime _ = false

-- machineStateAllowsMissingRuntime
unfoldable pub machine_state_allows_missing_runtime : Text → Bool
unfolding allows_missing_runtime
machine_state_allows_missing_runtime state = allows_missing_runtime (phase state)

-- shouldAdoptRuntimeState
unfoldable pub should_adopt_runtime_state : Text → Text → Bool
should_adopt_runtime_state record_state runtime_state =
    let r = to_upper (trim_space record_state) in
    let l = to_upper (trim_space runtime_state) in
    if is_empty r || is_empty l
    then false
    else if text_eq r l
    then false
    else not (machine_state_is_transitional r || text_eq r machine_state_failed)

unfoldable pub stopped_for_start : Text → Phase → Result (Unit {0})
stopped_for_start state stopped = ok tt
stopped_for_start state _ = err (wrong_state state)

-- ensureMachineStoppedForStart; the error keeps the state that its message names.
unfoldable pub ensure_machine_stopped_for_start : MachineRecord → Result (Unit {0})
unfolding stopped_for_start
ensure_machine_stopped_for_start r = stopped_for_start r.state (phase r.state)

unfoldable pub running_for_stop : Text → Phase → Result (Unit {0})
running_for_stop state running = ok tt
running_for_stop state _ = err (wrong_state state)

-- ensureMachineRunningForStop
unfoldable pub ensure_machine_running_for_stop : MachineRecord → Result (Unit {0})
unfolding running_for_stop
ensure_machine_running_for_stop r = running_for_stop r.state (phase r.state)

-- ensureMachineRunningForAction; the state is not trimmed here.
unfoldable pub ensure_machine_running_for_action : MachineRecord → Result (Unit {0})
ensure_machine_running_for_action r =
    if equal_fold r.state machine_state_running then ok tt else err (wrong_state r.state)

unfoldable pub delete_refused : Phase → Bool
delete_refused creating = true
delete_refused starting = true
delete_refused stopping = true
delete_refused deleting = true
delete_refused _ = false

-- The switch at the head of DeleteMachine.
unfoldable pub ensure_machine_deletable : MachineRecord → Result (Unit {0})
unfolding delete_refused
ensure_machine_deletable r =
    if delete_refused (phase r.state) then err (wrong_state r.state) else ok tt
