-- ===== src/Budget/Spec.antt =====
-- What a machine, a snapshot or a user is entitled to: the specifications and the budget of
-- internal/controlplane/budgets.go.
use fascinate.Base.{ℕ, if◌then◌else◌}
use fascinate.Base.Word.{sle, slt, is_positive}
use fascinate.Base.Text.{Text, trim_space, is_empty, codes, text_eq, to_lower}
use fascinate.Result.{
  Result, ok, ◌>>=◌, ◌>>◌, refuse_if, or_error, cpu_limit, memory_limit, disk_limit,
  ratio_not_numeric, ratio_not_positive,
}
use fascinate.Size.{parse_cpu_count, parse_byte_size}
use fascinate.Database.Records.{
  User, MachineRecord, SnapshotRecord, LiveMachine, UserBudgetDefaults,
}
use fascinate.Service.{Service, effective_default_user_max_machines}
use fascinate.Service.Storage.{ResourceSpec}

pub record UserBudget (F : Type 0) : Type 0 where
  pub soft_max_cpu : F
  pub soft_max_cpu_text : Text
  pub max_memory_bytes : ℕ
  pub max_disk_bytes : ℕ
  pub max_machine_count : ℕ
  pub max_snapshot_count : ℕ

pub record BudgetDelta (F : Type 0) : Type 0 where
  pub cpu : F
  pub cpu_text : Text
  pub memory_bytes : ℕ
  pub disk_bytes : ℕ
  pub machine_count : ℕ
  pub snapshot_count : ℕ

-- `if strings.TrimSpace(value) != "" { x = strings.TrimSpace(value) }`
or_given : Text → Text → Text
or_given value x = let trimmed = trim_space value in if is_empty trimmed then x else trimmed

-- `if value > 0 { x = value }`
or_positive : ℕ → ℕ → ℕ
or_positive value x = if is_positive value then value else x

module _ (s : Service) where
  open s use {cfg, floats}
  open floats use {Float, of_int, parse_float, le_float, lt_float, mul_float, round_float}

  -- defaultMachineSpec
  unfoldable pub default_machine_spec : Result ResourceSpec
  default_machine_spec = do
    memory_bytes ← parse_byte_size floats cfg.default_machine_ram
    disk_bytes ← parse_byte_size floats cfg.default_machine_disk
    ok (record {
      cpu = trim_space cfg.default_machine_cpu;
      memory_bytes = memory_bytes;
      disk_bytes = disk_bytes;
    })

  -- defaultUserBudgetDefaults
  unfoldable pub default_user_budget_defaults : Result UserBudgetDefaults
  default_user_budget_defaults = do
    memory ← parse_byte_size floats cfg.default_user_max_ram
    disk ← parse_byte_size floats cfg.default_user_max_disk
    ok (record {
      max_cpu = trim_space cfg.default_user_max_cpu;
      max_memory_bytes = memory;
      max_disk_bytes = disk;
      max_machine_count = effective_default_user_max_machines cfg;
      max_snapshot_count = cfg.default_user_max_snapshots;
    })

  -- machineSpecForRecord
  unfoldable pub machine_spec_for_record : MachineRecord → Result ResourceSpec
  unfolding or_given or_positive
  machine_spec_for_record r = do
    defaults ← default_machine_spec
    ok (record {
      cpu = or_given r.cpu defaults.cpu;
      memory_bytes = or_positive r.memory_bytes defaults.memory_bytes;
      disk_bytes = or_positive r.disk_bytes defaults.disk_bytes;
    })

  -- snapshotSpecForRecord
  unfoldable pub snapshot_spec_for_record : SnapshotRecord → Result ResourceSpec
  unfolding or_given or_positive
  snapshot_spec_for_record r = do
    defaults ← default_machine_spec
    ok (record {
      cpu = or_given r.cpu defaults.cpu;
      memory_bytes = or_positive r.memory_bytes defaults.memory_bytes;
      disk_bytes = or_positive r.disk_bytes defaults.disk_bytes;
    })

  size_if_given : Text → ℕ → Result ℕ
  size_if_given value x = if is_empty (trim_space value) then ok x else parse_byte_size floats value

  -- machineSpecFromRuntime
  unfoldable pub machine_spec_from_runtime : MachineRecord → LiveMachine → Result ResourceSpec
  unfolding or_given size_if_given
  machine_spec_from_runtime r live = do
    spec ← machine_spec_for_record r
    memory_bytes ← size_if_given live.memory spec.memory_bytes
    disk_bytes ← size_if_given live.disk spec.disk_bytes
    ok (record {
      cpu = or_given live.cpu spec.cpu;
      memory_bytes = memory_bytes;
      disk_bytes = disk_bytes;
    })

  size_or_default : ℕ → Text → Result ℕ
  size_or_default value default = if sle value 0 then parse_byte_size floats default else ok value

  -- userBudgetForUser
  unfoldable pub user_budget_for_user : User → Result (UserBudget Float)
  unfolding size_or_default
  user_budget_for_user user = do
    let own = trim_space user.max_cpu
    let max_cpu_text = if is_empty own then trim_space cfg.default_user_max_cpu else own
    max_cpu ← parse_cpu_count floats max_cpu_text
    memory ← size_or_default user.max_memory_bytes cfg.default_user_max_ram
    disk ← size_or_default user.max_disk_bytes cfg.default_user_max_disk
    ok (record {
      soft_max_cpu = max_cpu;
      soft_max_cpu_text = max_cpu_text;
      max_memory_bytes = memory;
      max_disk_bytes = disk;
      max_machine_count =
          if sle user.max_machine_count 0
          then effective_default_user_max_machines cfg
          else user.max_machine_count;
      max_snapshot_count =
          if sle user.max_snapshot_count 0
          then cfg.default_user_max_snapshots
          else user.max_snapshot_count;
    })

  -- computeBudgetDelta
  unfoldable pub compute_budget_delta : ResourceSpec → ℕ → Result (BudgetDelta Float)
  compute_budget_delta spec retained = do
    requested ← parse_cpu_count floats spec.cpu
    ok (record {
      cpu = requested;
      cpu_text = trim_space spec.cpu;
      memory_bytes = spec.memory_bytes;
      disk_bytes = if slt retained 0 then 0 else retained;
      machine_count = 0;
      snapshot_count = 0;
    })

  -- hostSharedCPURatio
  host_shared_cpu_ratio : Result Float
  host_shared_cpu_ratio = do
    let value = trim_space cfg.host_shared_cpu_ratio
    ratio ←
        or_error (parse_float (if is_empty value then codes "1.67" else value)) ratio_not_numeric
    refuse_if (le_float ratio (of_int 0)) ratio_not_positive
    ok ratio

  -- hostSharedCPUCeiling
  unfoldable pub host_shared_cpu_ceiling : ℕ → Result Float
  unfolding host_shared_cpu_ratio
  host_shared_cpu_ceiling total_cpu = if sle total_cpu 0 then ok (of_int 0) else (do
    ratio ← host_shared_cpu_ratio
    let ceiling = round_float (mul_float (of_int total_cpu) ratio)
    ok (if lt_float ceiling (of_int 1) then of_int 1 else ceiling))

  -- hostMinFreeDiskBytes
  unfoldable pub host_min_free_disk_bytes : Result ℕ
  host_min_free_disk_bytes =
      let value = trim_space cfg.host_min_free_disk in
      if is_empty value
      then ok 0
      else if text_eq (to_lower value) (codes "0")
      then ok 0
      else if text_eq (to_lower value) (codes "0b")
      then ok 0
      else parse_byte_size floats value

  -- validateMachineSizeLimit: one resource, where a limit is configured.
  cpu_within_limit : Text → Result (Unit {0})
  cpu_within_limit cpu =
      let limit = trim_space cfg.max_machine_cpu in
      if is_empty limit then ok tt else (do
        requested ← parse_cpu_count floats cpu
        allowed ← parse_cpu_count floats limit
        refuse_if (lt_float allowed requested) cpu_limit)

  memory_within_limit : Text → Result (Unit {0})
  memory_within_limit memory =
      let limit = trim_space cfg.max_machine_ram in
      if is_empty limit then ok tt else (do
        requested ← parse_byte_size floats memory
        allowed ← parse_byte_size floats limit
        refuse_if (slt allowed requested) memory_limit)

  disk_within_limit : Text → Result (Unit {0})
  disk_within_limit disk =
      let limit = trim_space cfg.max_machine_disk in
      if is_empty limit then ok tt else (do
        requested ← parse_byte_size floats disk
        allowed ← parse_byte_size floats limit
        refuse_if (slt allowed requested) disk_limit)

  unfoldable pub validate_machine_size_limit : Text → Text → Text → Result (Unit {0})
  unfolding cpu_within_limit memory_within_limit disk_within_limit
  validate_machine_size_limit cpu memory disk = do
    cpu_within_limit cpu
    memory_within_limit memory
    disk_within_limit disk
