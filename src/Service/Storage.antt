-- ===== src/Service/Storage.antt =====
-- The disk estimates of internal/controlplane/machine_storage.go and budgets.go.
use fascinate.Base.{ℕ, ◌^◌, if◌then◌else◌, ◌||◌}
use fascinate.Base.Word.{◌+w◌, sle, slt, is_positive}
use fascinate.Base.Text.{Text}
use fascinate.Database.Records.{MachineRecord, SnapshotRecord}

pub record ResourceSpec : Type 0 where
  pub cpu : Text
  pub memory_bytes : ℕ
  pub disk_bytes : ℕ

abbrev pub fresh_machine_retained_disk_estimate_bytes : ℕ
fresh_machine_retained_disk_estimate_bytes = 2 ^ 30

-- retainedMachineDiskBytes
unfoldable pub retained_machine_disk_bytes : MachineRecord → ℕ
retained_machine_disk_bytes r = if is_positive r.disk_usage_bytes then r.disk_usage_bytes else 0

-- estimatedFreshMachineRetainedDiskBytes
unfoldable pub estimated_fresh_machine_retained_disk_bytes : ResourceSpec → ℕ
estimated_fresh_machine_retained_disk_bytes spec =
    if sle spec.disk_bytes 0
    then fresh_machine_retained_disk_estimate_bytes
    else if slt spec.disk_bytes fresh_machine_retained_disk_estimate_bytes
    then spec.disk_bytes
    else fresh_machine_retained_disk_estimate_bytes

-- estimatedSnapshotRestoreDiskBytes
unfoldable pub estimated_snapshot_restore_disk_bytes : SnapshotRecord → ResourceSpec → ℕ
estimated_snapshot_restore_disk_bytes r spec =
    if is_positive r.disk_size_bytes
    then r.disk_size_bytes
    else if is_positive spec.disk_bytes
    then spec.disk_bytes
    else estimated_fresh_machine_retained_disk_bytes spec

-- estimatedForkDiskBytes
unfoldable pub estimated_fork_disk_bytes : MachineRecord → ResourceSpec → ℕ
estimated_fork_disk_bytes r spec =
    if is_positive (retained_machine_disk_bytes r)
    then retained_machine_disk_bytes r
    else if is_positive spec.disk_bytes
    then spec.disk_bytes
    else estimated_fresh_machine_retained_disk_bytes spec

-- estimatedSnapshotArtifactBytes
unfoldable pub estimated_snapshot_artifact_bytes : MachineRecord → ResourceSpec → ℕ
estimated_snapshot_artifact_bytes r spec =
    let memory_bytes = if slt spec.memory_bytes 0 then 0 else spec.memory_bytes in
    if is_positive (retained_machine_disk_bytes r)
    then retained_machine_disk_bytes r +w memory_bytes
    else spec.disk_bytes +w memory_bytes

-- snapshotReservedDiskBytes
unfoldable pub snapshot_reserved_disk_bytes : SnapshotRecord → ℕ
snapshot_reserved_disk_bytes r =
    if is_positive r.disk_size_bytes || is_positive r.memory_size_bytes
    then r.disk_size_bytes +w r.memory_size_bytes
    else r.disk_bytes +w r.memory_bytes
