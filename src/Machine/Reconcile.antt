-- ===== src/Machine/Reconcile.antt =====
-- ReconcileRuntimeState of internal/controlplane/service.go.
use fascinate.Base.{Bool, false, ◌&&◌, ◌||◌, Option, some, none, List, [], ◌∷◌, if◌then◌else◌}
use fascinate.Base.Text.{Text, text_eq, trim_space, is_empty, equal_fold}
use fascinate.Result.{Result, Error, ok, err, reconcile_failed}
use fascinate.Database.Records.{MachineRecord, LiveMachine, Call}
use fascinate.Database.Monad.{M, pure, lift, attempt, ask, allow_missing, ◌>>=◌, ◌>>◌}
use fascinate.Database.Machines.{list_machines, update_machine_state}
use fascinate.Service.{Service, executor_for_host_id, machine_host_id, runtime_name_for_record}
use fascinate.Service.State.{machine_state_creating, should_adopt_runtime_state}
use fascinate.Service.Machines.{refresh_machine_disk_usage}
use fascinate.Machine.Create.{queue_machine_create}
use fascinate.Machine.Delete.{delete_from_runtime}

-- known: whether a row has the runtime's name
unfoldable pub is_known : Text → List MachineRecord → Bool
is_known name [] = false
is_known name (r ∷ rs) = text_eq (runtime_name_for_record r) name || is_known name rs

-- recordByRuntime: the rows with a runtime's name, of those with the same name the last one.
unfoldable pub record_by_runtime : List MachineRecord → List MachineRecord
record_by_runtime [] = []
record_by_runtime (r ∷ rs) =
    let rest = record_by_runtime rs in
    if is_empty (runtime_name_for_record r) || is_known (runtime_name_for_record r) rs
    then rest
    else r ∷ rest

-- liveMachines[name], the last machine with the name
unfoldable pub live_machine : Text → List LiveMachine → Option LiveMachine
live_machine name [] = none
live_machine name (m ∷ ms) = elim (live_machine name ms) [
  | some found ↦ some found
  | none ↦ if text_eq (trim_space m.name) name then some m else none
]

-- Of the errors of a refresh, those of a machine or a row that is not there are let pass.
unfoldable pub serious : Result MachineRecord → List Error → List Error
serious (ok r) errors = errors
serious (err Error.machine_not_found) errors = errors
serious (err Error.not_found) errors = errors
serious (err e) errors = e ∷ errors

-- errors.Join
unfoldable pub join_errors : List Error → Result (Unit {0})
join_errors [] = ok tt
join_errors (e ∷ es) = err reconcile_failed

module _ (s : Service) where
  -- The loop over the runtime's machines: those that no row knows are deleted.
  unfoldable pub delete_unknown : List MachineRecord → List LiveMachine → M (Unit {0})
  delete_unknown known [] = pure tt
  delete_unknown known (m ∷ ms) =
      let name = trim_space m.name in
      let rest = delete_unknown known ms in
      if is_empty name || is_known name known then rest else (do delete_from_runtime s name; rest)

  -- A row whose machine the runtime does not have: a creation of this host is queued again.
  unfoldable pub resume_create : MachineRecord → M (Unit {0})
  resume_create r =
      if equal_fold r.state machine_state_creating
        && text_eq (machine_host_id r s.local_host_id) s.local_host_id
      then queue_machine_create s r
      else pure tt

  -- A row whose machine the runtime has.
  unfoldable pub adopt_state : MachineRecord → LiveMachine → M (Unit {0})
  adopt_state r live =
      if should_adopt_runtime_state r.state live.state
      then allow_missing (update_machine_state r.id live.state)
      else pure tt

  -- The loop over the rows, with the errors so far.
  unfoldable pub reconcile_rows : List LiveMachine → List Error → List MachineRecord → M (Unit {0})
  reconcile_rows machines errors [] = lift (join_errors errors)
  reconcile_rows machines errors (r ∷ rs) =
      elim (live_machine (runtime_name_for_record r) machines) [
        | none ↦ (do resume_create r; reconcile_rows machines errors rs)
        | some live ↦ (do
          adopt_state r live
          attempt (refresh_machine_disk_usage s r)
              λ q. reconcile_rows machines (serious q errors) rs)
      ]

  -- ReconcileRuntimeState; `arrange` is the order in which the map of rows is walked.
  unfoldable pub reconcile_runtime_state : (List MachineRecord → List MachineRecord) → M (Unit {0})
  reconcile_runtime_state arrange = do
    records ← list_machines []
    executor ← lift (executor_for_host_id s s.local_host_id)
    machines ← ask s.runtime.machines_reply Call.list_machines
    delete_unknown records machines
    reconcile_rows machines [] (arrange (record_by_runtime records))
