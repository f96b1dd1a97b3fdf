-- ===== src/Service.antt =====
-- The receiver of the control plane's methods (internal/controlplane/service.go) and the parts of
-- internal/config/config.go that they read.
pub mod State
pub mod Storage
pub mod Users
pub mod Machines
pub mod Guards
use fascinate.Base.{
  ℕ, List, [], ◌∷◌, Option, none, some, Bool, true, false, ◌||◌, not, if◌then◌else◌,
}
use fascinate.Base.Word.{is_positive}
use fascinate.Base.Text.{Text, text_eq, trim_space, is_empty}
use fascinate.Result.{Result, ok, err, refuse_if, host_unavailable}
use fascinate.Float.{Floats}
use fascinate.Database.Records.{Call, LiveMachine, LiveSnapshot, MachineRecord, SnapshotRecord}

pub record Config : Type 0 where
  pub host_id : Text
  pub host_region : Text
  pub base_domain : Text
  pub host_heartbeat_interval : ℕ
  pub default_machine_cpu : Text
  pub default_machine_ram : Text
  pub default_machine_disk : Text
  pub default_user_max_cpu : Text
  pub default_user_max_ram : Text
  pub default_user_max_disk : Text
  pub host_shared_cpu_ratio : Text
  pub default_user_max_machines : ℕ
  pub default_user_max_snapshots : ℕ
  pub max_machines_per_user : ℕ
  pub max_machine_cpu : Text
  pub max_machine_ram : Text
  pub max_machine_disk : Text
  pub host_min_free_disk : Text
  pub default_primary_port : ℕ
  pub runtime_snapshot_dir : Text

-- The runtime behind hostExecutor: what it answers to a call, by the calls so far, the newest first.
-- `usage_reply` is InspectMachine with the size of the disk that it names.
pub record Runtime : Type 0 where
  pub live_reply : List Call → Result LiveMachine
  pub unit_reply : List Call → Result (Unit {0})
  pub usage_reply : List Call → Result ℕ
  pub snapshot_reply : List Call → Result LiveSnapshot
  pub machines_reply : List Call → Result (List LiveMachine)

-- Service with what it calls that is not in the repository: floating point, the clock's two layouts
-- of time.Parse, and statfs on the data directory.
pub record Service : Type 1 where
  pub cfg : Config
  pub local_host_id : Text
  -- the keys of the map `executors`
  pub executors : List Text
  pub runtime : Runtime
  pub floats : Floats
  pub admin_emails : List Text
  -- filepath.Join
  pub join_path : Text → Text → Text
  pub parse_time : Text → Option ℕ
  pub parse_sql_time : Text → Option ℕ
  -- the free bytes of diskStats(cfg.DataDir)
  pub local_available_disk : Result ℕ

-- EffectiveDefaultUserMaxMachines
unfoldable pub effective_default_user_max_machines : Config → ℕ
effective_default_user_max_machines c =
    if is_positive c.default_user_max_machines
    then c.default_user_max_machines
    else if is_positive c.max_machines_per_user
    then c.max_machines_per_user
    else 5

has_executor : Text → List Text → Bool
has_executor h [] = false
has_executor h (k ∷ ks) = text_eq k h || has_executor h ks

-- executorForHostID: the key under which the host's executor is found.
unfoldable pub executor_for_host_id : Service → Text → Result Text
unfolding has_executor
executor_for_host_id s host_id =
    let trimmed = trim_space host_id in
    let key = if is_empty trimmed then s.local_host_id else trimmed in
    if has_executor key s.executors then ok key else err (host_unavailable key)

given : Option Text → Option Text
given none = none
given (some v) = if is_empty (trim_space v) then none else some (trim_space v)

-- machineHostID
unfoldable pub machine_host_id : MachineRecord → Text → Text
unfolding given
machine_host_id r fallback = elim (given r.host_id) [ some v ↦ v | none ↦ trim_space fallback ]

-- snapshotHostID
unfoldable pub snapshot_host_id : SnapshotRecord → Text
unfolding given
snapshot_host_id r = elim (given r.host_id) [ some v ↦ v | none ↦ [] ]

-- runtimeNameForRecord
unfoldable pub runtime_name_for_record : MachineRecord → Text
runtime_name_for_record r =
    let runtime_name = trim_space r.runtime_name in
    if is_empty runtime_name then trim_space r.name else runtime_name
