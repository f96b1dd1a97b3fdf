-- ===== src/Service/Machines.antt =====
-- Steps of internal/controlplane that several operations on machines share: ownedMachineRecord,
-- machineFromRecord, hostByID, refreshMachineDiskUsage and cleanupRuntimeMachine.
use fascinate.Base.{ℕ, not, ◌&&◌, some, [], ◌==◌, if◌then◌else◌}
use fascinate.Base.Text.{Text, text_eq, trim_space, to_lower, is_empty}
use fascinate.Result.{Result, Error, ok, err, owner_required, host_required, not_found}
use fascinate.Database.Records.{MachineRecord, HostRecord, LiveMachine, Call, EventKind}
use fascinate.Database.Monad.{
  attempt, M, pure, lift, ignore, fail_if, ask, record_event, ◌>>=◌, ◌>>◌,
}
use fascinate.Database.Machines.{
  normalize_email, get_machine_by_name, update_machine_state, update_machine_disk_usage,
}
use fascinate.Database.Hosts.{get_host_by_id}
use fascinate.Service.{Service, executor_for_host_id, machine_host_id, runtime_name_for_record}
use fascinate.Service.State.{should_adopt_runtime_state}

-- normalizeMachineName
unfoldable pub normalize_machine_name : Text → Text
normalize_machine_name value = to_lower (trim_space value)

-- ownedMachineRecord
unfoldable pub owned_machine_record : Text → Text → M MachineRecord
owned_machine_record name owner_email = do
  let email = normalize_email owner_email
  fail_if (is_empty email) owner_required
  found ← get_machine_by_name (normalize_machine_name name)
  fail_if (not (text_eq (normalize_email found.owner_email) email)) not_found
  pure found

-- hostByID
unfoldable pub host_by_id : Text → M HostRecord
host_by_id i = do fail_if (is_empty (trim_space i)) host_required; get_host_by_id i

-- The state that machineFromRecord shows. It writes the runtime's state to the database where that
-- is to be adopted, and drops the error.
unfoldable pub machine_from_record : MachineRecord → LiveMachine → M MachineRecord
machine_from_record r live =
    if not (is_empty live.name)
      && not (is_empty live.state)
      && not (text_eq live.state r.state)
      && should_adopt_runtime_state r.state live.state
    then (do ignore (update_machine_state r.id live.state); pure (record r { state = live.state }))
    else pure r

-- An event about a machine of its owner.
abbrev pub event_of : MachineRecord → EventKind → M (Unit {0})
event_of r kind = record_event (some r.owner_user_id) (some r.id) kind

-- What machineFromRecord shows of a machine that has no runtime.
abbrev pub no_live : LiveMachine
no_live = record { name = []; state = []; cpu = []; memory = []; disk = [] }

module _ (s : Service) where
  -- machineDiskUsageBytes, with the size of the file that the runtime names
  unfoldable pub machine_disk_usage_bytes : MachineRecord → M ℕ
  machine_disk_usage_bytes r = do
    executor ← lift (executor_for_host_id s (machine_host_id r s.local_host_id))
    ask s.runtime.usage_reply (Call.inspect_machine (runtime_name_for_record r))

  -- refreshMachineDiskUsage
  unfoldable pub refresh_machine_disk_usage : MachineRecord → M MachineRecord
  refresh_machine_disk_usage r = do
    bytes ← machine_disk_usage_bytes r
    if bytes == r.disk_usage_bytes
        then pure r
        else (do update_machine_disk_usage r.id bytes; pure (record r { disk_usage_bytes = bytes }))

  -- cleanupRuntimeMachine
  unfoldable pub cleanup_runtime_machine : Text → Text → M (Unit {0})
  cleanup_runtime_machine name host_id = ignore (do
    executor ← lift (executor_for_host_id s host_id)
    ask s.runtime.unit_reply (Call.delete_machine name))

  -- `record, err = s.refreshMachineDiskUsage(record)`, where the errors of a machine or a row that is
  -- not there are let pass.
  unfoldable pub kept_or_fail : MachineRecord → Result MachineRecord → Result MachineRecord
  kept_or_fail r (ok refreshed) = ok refreshed
  kept_or_fail r (err Error.machine_not_found) = ok r
  kept_or_fail r (err Error.not_found) = ok r
  kept_or_fail r (err e) = err e

  unfoldable pub refresh_if_known : MachineRecord → M MachineRecord
  refresh_if_known r = attempt (refresh_machine_disk_usage r) λ q. lift (kept_or_fail r q)
