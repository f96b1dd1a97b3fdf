-- ===== src/Budget/Usage.antt =====
-- What a user's or a host's machines and snapshots use: calculateUserUsage, calculateHostUsage and
-- accumulateMachinePowerState of internal/controlplane/budgets.go.
use fascinate.Base.{ℕ, Bool, List, [], ◌∷◌, if◌then◌else◌}
use fascinate.Base.Word.{◌+w◌}
use fascinate.Base.Text.{Text, text_eq, trim_space, is_empty}
use fascinate.Result.{Result, ok, err}
use fascinate.Size.{parse_cpu_count}
use fascinate.Database.Records.{MachineRecord, SnapshotRecord}
use fascinate.Database.Monad.{M, pure, lift, attempt, ◌>>=◌}
use fascinate.Database.Machines.{list_machines}
use fascinate.Database.Snapshots.{list_snapshots}
use fascinate.Database.Hosts.{get_host_by_id}
use fascinate.Service.{Service, machine_host_id, snapshot_host_id}
use fascinate.Service.State.{
  Phase, phase, machine_counts_toward_quota, machine_consumes_compute, machine_consumes_disk,
  snapshot_counts_toward_quota, snapshot_consumes_disk,
}
use fascinate.Service.Storage.{retained_machine_disk_bytes, snapshot_reserved_disk_bytes}
use fascinate.Budget.Spec.{machine_spec_for_record}

-- The machines in each state.
pub record PowerCounts : Type 0 where
  pub creating_machine_count : ℕ
  pub starting_machine_count : ℕ
  pub running_machine_count : ℕ
  pub stopping_machine_count : ℕ
  pub stopped_machine_count : ℕ
  pub deleting_machine_count : ℕ

-- userUsage, and hostUsage but for the free disk.
pub record Usage (F : Type 0) : Type 0 where
  pub cpu : F
  pub memory_bytes : ℕ
  pub disk_bytes : ℕ
  pub retained_machine_disk_bytes : ℕ
  pub retained_snapshot_disk_bytes : ℕ
  pub machine_count : ℕ
  pub snapshot_count : ℕ
  pub power : PowerCounts

pub record HostUsage (F : Type 0) : Type 0 where
  pub usage : Usage F
  pub available_disk_bytes : ℕ

abbrev pub no_power : PowerCounts
no_power = record {
  creating_machine_count = 0;
  starting_machine_count = 0;
  running_machine_count = 0;
  stopping_machine_count = 0;
  stopped_machine_count = 0;
  deleting_machine_count = 0;
}

unfoldable pub accumulate : PowerCounts → Phase → PowerCounts
accumulate c Phase.creating = record c { creating_machine_count = c.creating_machine_count +w 1 }
accumulate c Phase.starting = record c { starting_machine_count = c.starting_machine_count +w 1 }
accumulate c Phase.running = record c { running_machine_count = c.running_machine_count +w 1 }
accumulate c Phase.stopping = record c { stopping_machine_count = c.stopping_machine_count +w 1 }
accumulate c Phase.stopped = record c { stopped_machine_count = c.stopped_machine_count +w 1 }
accumulate c Phase.deleting = record c { deleting_machine_count = c.deleting_machine_count +w 1 }
accumulate c _ = c

-- accumulateMachinePowerState
unfoldable pub accumulate_machine_power_state : PowerCounts → Text → PowerCounts
unfolding accumulate
accumulate_machine_power_state c state = accumulate c (phase state)

module _ {F : Type 0} where
  -- `if machineCountsTowardQuota(record.State)`
  unfoldable pub add_count : MachineRecord → Usage F → Usage F
  add_count r u =
      if machine_counts_toward_quota r.state
      then record u {
        machine_count = u.machine_count +w 1;
        power = accumulate_machine_power_state u.power r.state;
      }
      else u

  -- `if machineConsumesDisk(record.State)`
  unfoldable pub add_disk : MachineRecord → Usage F → Usage F
  add_disk r u =
      if machine_consumes_disk r.state
      then record u {
        retained_machine_disk_bytes =
            u.retained_machine_disk_bytes +w retained_machine_disk_bytes r;
        disk_bytes = u.disk_bytes +w retained_machine_disk_bytes r;
      }
      else u

  -- The second loop's body.
  unfoldable pub add_snapshot : SnapshotRecord → Usage F → Usage F
  add_snapshot r u =
      let counted : Usage F =
        if snapshot_counts_toward_quota r.state
        then record u { snapshot_count = u.snapshot_count +w 1 }
        else u in
      if snapshot_consumes_disk r.state
      then record counted {
        retained_snapshot_disk_bytes =
            counted.retained_snapshot_disk_bytes +w snapshot_reserved_disk_bytes r;
        disk_bytes = counted.disk_bytes +w snapshot_reserved_disk_bytes r;
      }
      else counted

  -- The second loop, over the snapshots that `keep` lets through.
  unfoldable pub add_snapshots : (SnapshotRecord → Bool) → List SnapshotRecord → Usage F → Usage F
  add_snapshots keep [] u = u
  add_snapshots keep (r ∷ rs) u = add_snapshots keep rs (if keep r then add_snapshot r u else u)

module _ (s : Service) where
  open s use {floats}
  open floats use {Float, of_int, add_float}

  abbrev pub no_usage : Usage Float
  no_usage = record {
    cpu = of_int 0;
    memory_bytes = 0;
    disk_bytes = 0;
    retained_machine_disk_bytes = 0;
    retained_snapshot_disk_bytes = 0;
    machine_count = 0;
    snapshot_count = 0;
    power = no_power;
  }

  -- `if machineConsumesCompute(record.State)`
  unfoldable pub add_compute : MachineRecord → Text → ℕ → Usage Float → Result (Usage Float)
  add_compute r cpu memory u =
      if machine_consumes_compute r.state
      then elim (parse_cpu_count floats cpu) [
        | ok c ↦ ok (record u { cpu = add_float u.cpu c; memory_bytes = u.memory_bytes +w memory })
        | err e ↦ err e
      ]
      else ok u

  -- The first loop's body.
  unfoldable pub add_machine : MachineRecord → Usage Float → Result (Usage Float)
  add_machine r u = elim (machine_spec_for_record s r) [
    | err e ↦ err e
    | ok spec ↦ elim (add_compute r spec.cpu spec.memory_bytes (add_count r u)) [
      | err e ↦ err e
      | ok u' ↦ ok (add_disk r u')
    ]
  ]

  -- The first loop, over the machines that `keep` lets through.
  unfoldable pub add_machines :
      (MachineRecord → Bool) → List MachineRecord → Usage Float → Result (Usage Float)
  add_machines keep [] u = ok u
  add_machines keep (r ∷ rs) u = elim (if keep r then add_machine r u else ok u) [
    | ok u' ↦ add_machines keep rs u'
    | err e ↦ err e
  ]

  -- Both loops.
  unfoldable pub tally : (MachineRecord → Bool) → (SnapshotRecord → Bool) → M (Usage Float)
  tally keep keep_snapshot = do
    machines ← list_machines []
    usage ← lift (add_machines keep machines no_usage)
    snapshots ← list_snapshots
    pure (add_snapshots keep_snapshot snapshots usage)

  abbrev pub owned_by : Text → MachineRecord → Bool
  owned_by user_id r = text_eq (trim_space r.owner_user_id) (trim_space user_id)

  abbrev pub snapshot_owned_by : Text → SnapshotRecord → Bool
  snapshot_owned_by user_id r = text_eq (trim_space r.owner_user_id) (trim_space user_id)

  -- calculateUserUsage
  unfoldable pub calculate_user_usage : Text → M (Usage Float)
  calculate_user_usage user_id = tally (owned_by user_id) (snapshot_owned_by user_id)

  -- hostAvailableDiskBytes
  unfoldable pub host_available_disk_bytes : Text → M ℕ
  host_available_disk_bytes host_id =
      let recorded : M ℕ = (do host ← get_host_by_id host_id; pure host.available_disk_bytes) in
      if text_eq (trim_space host_id) (trim_space s.local_host_id)
      then elim s.local_available_disk [ ok bytes ↦ pure bytes | err _ ↦ recorded ]
      else recorded

  abbrev pub on_host : Text → MachineRecord → Bool
  on_host host_id r = text_eq (machine_host_id r s.local_host_id) host_id

  abbrev pub snapshot_on_host : Text → SnapshotRecord → Bool
  snapshot_on_host host_id r = text_eq (snapshot_host_id r) host_id

  bytes_or_zero : Result ℕ → ℕ
  bytes_or_zero (ok n) = n
  bytes_or_zero (err _) = 0

  -- calculateHostUsage
  unfoldable pub calculate_host_usage : Text → M (HostUsage Float)
  unfolding bytes_or_zero
  calculate_host_usage host_id = do
    let trimmed = trim_space host_id
    let key = if is_empty trimmed then s.local_host_id else trimmed
    usage ← tally (on_host key) (snapshot_on_host key)
    attempt (host_available_disk_bytes key)
        λ r. pure (record { usage = usage; available_disk_bytes = bytes_or_zero r })
