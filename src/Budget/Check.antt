-- ===== src/Budget/Check.antt =====
-- The checks that admit a machine or a snapshot: ensureUserCan… and ensureHostCan… of
-- internal/controlplane/budgets.go, and hostHeartbeatFresh of internal/controlplane/hosts.go.
use fascinate.Base.{[], ℕ, ◌*◌, ◌%◌, Bool, false, not, ◌&&◌, Option, none, some, if◌then◌else◌}
use fascinate.Base.Word.{◌+w◌, ◌-w◌, sle, slt, is_positive, word_mod}
use fascinate.Base.Text.{Text, codes, trim_space, is_empty, equal_fold}
use fascinate.Result.{
  machine_quota, snapshot_quota, user_memory, user_disk, host_inactive, host_stale, host_cpu,
  host_memory, host_disk, host_headroom,
}
use fascinate.Database.Records.{User, HostRecord}
use fascinate.Database.Monad.{M, lift, gets, fail_if, ◌>>=◌, ◌>>◌}
use fascinate.Service.{Service}
use fascinate.Service.Storage.{ResourceSpec}
use fascinate.Budget.Spec.{
  BudgetDelta, user_budget_for_user, compute_budget_delta, host_shared_cpu_ceiling,
  host_min_free_disk_bytes,
}
use fascinate.Budget.Usage.{calculate_user_usage, calculate_host_usage}

abbrev pub host_status_active : Text
host_status_active = codes "ACTIVE"

-- `limit > 0 && used+requested > limit`
unfoldable pub exceeds : ℕ → ℕ → ℕ → Bool
exceeds limit used requested = is_positive limit && slt limit (used +w requested)

-- 90 * time.Second
abbrev default_grace : ℕ
default_grace = 90 * 1000000000

module _ (s : Service) where
  open s use {floats}
  open floats use {Float, of_int, add_float, lt_float}

  -- ensureUserCanFitDelta
  unfoldable pub ensure_user_can_fit_delta : User → BudgetDelta Float → M (Unit {0})
  ensure_user_can_fit_delta user delta = do
    budget ← lift (user_budget_for_user s user)
    usage ← calculate_user_usage s user.id
    fail_if (exceeds budget.max_machine_count usage.machine_count delta.machine_count)
        (machine_quota budget.max_machine_count)
    fail_if (exceeds budget.max_memory_bytes usage.memory_bytes delta.memory_bytes)
        (user_memory usage.memory_bytes delta.memory_bytes budget.max_memory_bytes)
    fail_if (exceeds budget.max_disk_bytes usage.disk_bytes delta.disk_bytes)
        (user_disk usage.disk_bytes delta.disk_bytes budget.max_disk_bytes)

  -- ensureUserCanCreateMachine
  unfoldable pub ensure_user_can_create_machine : User → ResourceSpec → ℕ → M (Unit {0})
  ensure_user_can_create_machine user spec retained = do
    delta ← lift (compute_budget_delta s spec retained)
    ensure_user_can_fit_delta user (record delta { machine_count = 1 })

  -- ensureUserCanStartMachine
  unfoldable pub ensure_user_can_start_machine : User → ResourceSpec → M (Unit {0})
  ensure_user_can_start_machine user spec = do
    delta ← lift (compute_budget_delta s spec 0)
    ensure_user_can_fit_delta user delta

  -- ensureUserCanFitSnapshotDelta
  unfoldable pub ensure_user_can_fit_snapshot_delta : User → ℕ → ℕ → M (Unit {0})
  ensure_user_can_fit_snapshot_delta user disk_bytes snapshot_count = do
    budget ← lift (user_budget_for_user s user)
    usage ← calculate_user_usage s user.id
    fail_if (exceeds budget.max_snapshot_count usage.snapshot_count snapshot_count)
        (snapshot_quota budget.max_snapshot_count)
    fail_if (exceeds budget.max_disk_bytes usage.disk_bytes disk_bytes)
        (user_disk usage.disk_bytes disk_bytes budget.max_disk_bytes)

  -- ensureUserCanCreateSnapshot
  unfoldable pub ensure_user_can_create_snapshot : User → ℕ → M (Unit {0})
  ensure_user_can_create_snapshot user reserved = ensure_user_can_fit_snapshot_delta user reserved 1

  heartbeat_time : Text → Option ℕ
  heartbeat_time value = elim (s.parse_time (trim_space value)) [
    | some t ↦ some t
    | none ↦ s.parse_sql_time (trim_space value)
  ]

  grace : ℕ
  grace =
      let g = (s.cfg.host_heartbeat_interval * 3) % word_mod in if sle g 0 then default_grace else g

  since_fresh : ℕ → Option ℕ → Bool
  unfolding grace
  since_fresh now none = false
  since_fresh now (some t) = sle (now -w t) grace

  -- hostHeartbeatFresh, at a time
  unfoldable pub host_heartbeat_fresh : ℕ → HostRecord → Bool
  unfolding since_fresh heartbeat_time
  host_heartbeat_fresh now host = elim host.heartbeat_at [
    | none ↦ false
    | some v ↦ if is_empty (trim_space v) then false else since_fresh now (heartbeat_time v)
  ]

  abbrev pub is_active : HostRecord → Bool
  is_active host = equal_fold (trim_space host.status) host_status_active

  -- ensureHostCanFitDelta
  unfoldable pub ensure_host_can_fit_delta : HostRecord → BudgetDelta Float → M (Unit {0})
  ensure_host_can_fit_delta host delta = do
    fail_if (not (is_active host)) (host_inactive host.id)
    now ← gets λ w. w.now
    fail_if (not (host_heartbeat_fresh now host)) (host_stale host.id)
    used ← calculate_host_usage s host.id
    ceiling ← lift (host_shared_cpu_ceiling s host.total_cpu)
    fail_if (lt_float (of_int 0) ceiling && lt_float ceiling (add_float used.usage.cpu delta.cpu))
        (host_cpu host.id)
    fail_if (exceeds host.total_memory_bytes used.usage.memory_bytes delta.memory_bytes)
        (host_memory host.id)
    fail_if (exceeds host.total_disk_bytes used.usage.disk_bytes delta.disk_bytes)
        (host_disk host.id)
    min_free ← lift (host_min_free_disk_bytes s)
    fail_if
        (is_positive used.available_disk_bytes
          && slt (used.available_disk_bytes -w delta.disk_bytes) min_free)
        (host_headroom host.id)

  -- ensureHostCanFitMachine
  unfoldable pub ensure_host_can_fit_machine : HostRecord → ResourceSpec → ℕ → M (Unit {0})
  ensure_host_can_fit_machine host spec retained = do
    delta ← lift (compute_budget_delta s spec retained)
    ensure_host_can_fit_delta host delta

  -- ensureHostCanStartMachine
  unfoldable pub ensure_host_can_start_machine : HostRecord → ResourceSpec → M (Unit {0})
  ensure_host_can_start_machine host spec = do
    delta ← lift (compute_budget_delta s spec 0)
    ensure_host_can_fit_delta host delta

  -- ensureHostCanFitSnapshot
  unfoldable pub ensure_host_can_fit_snapshot : HostRecord → ℕ → M (Unit {0})
  ensure_host_can_fit_snapshot host reserved = ensure_host_can_fit_delta host (record {
    cpu = of_int 0;
    cpu_text = [];
    memory_bytes = 0;
    disk_bytes = reserved;
    machine_count = 0;
    snapshot_count = 0;
  })
