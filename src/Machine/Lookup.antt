-- ===== src/Machine/Lookup.antt =====
-- GetMachine, GetPublicMachine and machineFromRecordWithRuntime of internal/controlplane/service.go.
use fascinate.Base.Text.{Text, codes}
use fascinate.Base.{if◌then◌else◌}
use fascinate.Result.{Result, Error, ok, err}
use fascinate.Database.Records.{MachineRecord, LiveMachine, Call}
use fascinate.Database.Monad.{M, lift, fail, attempt, ask, ignore, ◌>>=◌, ◌>>◌}
use fascinate.Database.Machines.{get_machine_by_name, update_machine_state}
use fascinate.Service.{Service, executor_for_host_id, machine_host_id, runtime_name_for_record}
use fascinate.Service.State.{machine_state_allows_missing_runtime}
use fascinate.Service.Machines.{
  normalize_machine_name, owned_machine_record, machine_from_record, no_live,
}

abbrev pub machine_state_missing : Text
machine_state_missing = codes "missing"

-- What becomes of a row whose machine the runtime does not know.
unfoldable pub missing_machine : MachineRecord → M MachineRecord
missing_machine r =
    if machine_state_allows_missing_runtime r.state then machine_from_record r no_live else (do
      ignore (update_machine_state r.id machine_state_missing)
      machine_from_record (record r { state = machine_state_missing }) no_live)

-- The branches on the runtime's answer.
unfoldable pub answered : MachineRecord → Result LiveMachine → M MachineRecord
answered r (ok live) = machine_from_record r live
answered r (err Error.machine_not_found) = missing_machine r
answered r (err e) = fail e

module _ (s : Service) where
  -- machineFromRecordWithRuntime
  unfoldable pub machine_from_record_with_runtime : MachineRecord → M MachineRecord
  machine_from_record_with_runtime r = do
    executor ← lift (executor_for_host_id s (machine_host_id r s.local_host_id))
    attempt (ask s.runtime.live_reply (Call.get_machine (runtime_name_for_record r))) (answered r)

  -- GetMachine
  unfoldable pub get_machine : Text → Text → M MachineRecord
  get_machine name owner_email = do
    r ← owned_machine_record name owner_email
    machine_from_record_with_runtime r

  -- GetPublicMachine
  unfoldable pub get_public_machine : Text → M MachineRecord
  get_public_machine name = do
    r ← get_machine_by_name (normalize_machine_name name)
    machine_from_record_with_runtime r
