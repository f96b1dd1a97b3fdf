-- ===== src/Tests/Control.antt =====
-- The results on creation, forks, snapshots and placement at concrete inputs.
use fascinate.Database.Hosts.{get_host_by_id}
use fascinate.Service.Storage.{snapshot_reserved_disk_bytes}
use fascinate.Database.Snapshots.{list_snapshots}
use fascinate.Database.Monad.{statement}
use fascinate.Budget.Usage.{
  host_available_disk_bytes, calculate_host_usage, add_snapshot, add_machine, add_disk, add_count,
  add_compute, accumulate_machine_power_state, add_snapshots, add_machines, tally,
  calculate_user_usage,
}
use fascinate.Machine.Request.{admit_machine, created_row, Plan}
use fascinate.Snapshot.Outcome.{
  run_snapshot_create_settles, run_snapshot_create_undone, snapshot_answer,
  perform_snapshot_delete_settles,
}
use fascinate.Machine.Fork.{run_fork}
use fascinate.Machine.Settle.{Filed, run_machine_create_settles, create_reply}
use fascinate.Snapshot.Delete.{perform_snapshot_delete}
use fascinate.Snapshot.Create.{source_machine_name_for_snapshot, run_snapshot_create}
use fascinate.Machine.Reconcile.{delete_unknown}
use fascinate.Service.State.{
  snapshot_counts_toward_quota, snapshot_consumes_disk, phase_of, phase,
  machine_counts_toward_quota, machine_consumes_disk, machine_consumes_compute, consumes_compute,
  snapshot_state_failed, snapshot_state_ready, machine_state_failed, machine_state_running,
}
use fascinate.Service.Machines.{host_by_id, normalize_machine_name}
use fascinate.Database.SnapshotRows.{Stored, snapshot_state_of}
use fascinate.Database.Snapshots
use fascinate.Machine.Orphans.{delete_unknown-OrphansOnly, OrphansOnly}
use fascinate.Machine.ForkSettle.{run_fork_settles, fork_reply, Forked}
use fascinate.Machine.Create.{run_machine_create}
use fascinate.Database.Named.{id_named}
use fascinate.Host.Placement.{get_placement_host-Chosen, get_placement_host, Chosen}
use fascinate.Host.Capacity.{HasRoom, Readable, host_placement_fits, host_placement}
use fascinate.Machine.Name.{
  validate_machine_name-IsLabel, IsLabel, matches_tail, matches_name, validate_machine_name,
}
use fascinate.Size.{parse_byte_size, parse_cpu_count}
use fascinate.Database.Machines.{
  get_machine_by_name, find_name, email_of, create_machine_row, insert_row, normalize_email,
  list_machines, has_id,
}
use fascinate.Database.Leaves.{state_of}
use fascinate.Budget.Check.{
  ensure_host_can_fit_machine, ensure_host_can_fit_delta, ensure_user_can_fit_delta,
  ensure_user_can_create_machine, host_heartbeat_fresh, exceeds,
}
use fascinate.Budget.Spec.{
  compute_budget_delta, user_budget_for_user, UserBudget, default_machine_spec,
  machine_spec_for_record, host_shared_cpu_ceiling, host_min_free_disk_bytes,
}
use fascinate.Base.{◌↔◌, ℕ, ◌^◌, ◌≡◌, refl, arith, ◌⊎◌, ◌&&◌, none, some, [], ◌∷◌, if◌then◌else◌}
use fascinate.Base.Text.{Text, text_lt, to_upper, equal_fold, to_lower, codes, trim_space, text_eq}
use fascinate.Result.{ok, is_ok}
use fascinate.Database.Records.{World, MachineRecord, SnapshotRecord, HostRecord, LiveMachine, Call}
use fascinate.Service.{
  machine_host_id, effective_default_user_max_machines, snapshot_host_id, executor_for_host_id,
  Service,
}
use fascinate.Machine.Admission.{admit_machine-Within}
use fascinate.Service.Storage.{retained_machine_disk_bytes}
use fascinate.Database.Hosts
use fascinate.Database.Machines
use fascinate.Power.Start.{start_machine}
use fascinate.Power.Stop.{stop_machine}
use fascinate.Power.Scope.{LookedUp, key_of, stop_machine-LookedUp}
use fascinate.Power.StartScope.{TouchesButUsers, start_machine-LookedUp}
use fascinate.Power.Answer.{Answered, UniqueIds}
use fascinate.Power.Whole.{Stands, start_machine_settles, stop_machine_settles}
use fascinate.Service.Machines.{normalize_machine_name}
use fascinate.Service.State.{machine_state_running, machine_state_stopped}
use fascinate.Service.{runtime_name_for_record}
use fascinate.Database.Rows.{Touches}
use fascinate.Database.Machines.{find_name, has_id}
use fascinate.Database.Records.{Call}
use fascinate.Result.{is_ok}
use fascinate.Tests.{
  stopped_machine, running_machine, usage, spec, Within, all_digits, parse_whole, svc, owner, world,
  m1, live, machine_in, new_machine, w1,
}

validate_machine_name-IsLabel_example : IsLabel (codes "m-1")
unfolding validate_machine_name normalize_machine_name matches_name matches_tail trim_space to_lower
validate_machine_name-IsLabel_example =
    validate_machine_name-IsLabel (codes " M-1") (codes "m-1") refl

-- A service whose clock reads every time stamp as now.
abbrev timed : Service
timed = record svc { parse_time = λ t. some 0; parse_sql_time = λ t. some 0 }

abbrev host : HostRecord
host = record {
  id = codes "h1";
  name = codes "h1";
  region = codes "eu";
  status = codes "ACTIVE";
  heartbeat_at = some (codes "now");
  total_cpu = 8;
  allocated_cpu = 1;
  total_memory_bytes = 2 ^ 34;
  allocated_memory_bytes = 2 ^ 31;
  total_disk_bytes = 2 ^ 38;
  allocated_disk_bytes = 2 ^ 32;
  available_disk_bytes = 2 ^ 38;
}

asks : Readable timed 0 host (codes "1") (codes "2GiB") (codes "4GiB") 1 (2 ^ 31) (2 ^ 32) 16 0
unfolding parse_cpu_count parse_byte_size parse_whole all_digits trim_space host_shared_cpu_ceiling
    host_min_free_disk_bytes
asks = record {
  cpu_read = refl;
  memory_read = refl;
  disk_read = refl;
  ceiling_read = refl;
  min_free_read = refl;
  memory_sum = omega arith;
  disk_sum = omega arith;
  memory_total = omega arith;
  memory_total_fits = omega arith;
  disk_total = omega arith;
  disk_total_fits = omega arith;
  available_fits = omega arith;
  min_free_fits = omega arith;
}

host_placement_fits_example :
    (host_placement timed 0 host (codes "1") (codes "2GiB") (codes "4GiB") ≡ ok tt)
    ↔ HasRoom timed 0 host 1 (2 ^ 31) (2 ^ 32) 16 0
host_placement_fits_example =
    host_placement_fits timed 0 host (codes "1") (codes "2GiB") (codes "4GiB") 1 (2 ^ 31) (2 ^ 32)
      16 0 asks

abbrev w_host : World
w_host = record w1 { hosts = host ∷ [] }

get_placement_host-Chosen_example :
    Chosen
      (λ h. host_placement timed 0 h (codes "1") (codes "2GiB") (codes "4GiB"))
      (host ∷ [])
      (get_placement_host timed (codes "1") (codes "2GiB") (codes "4GiB") w_host).0
get_placement_host-Chosen_example =
    get_placement_host-Chosen timed (codes "1") (codes "2GiB") (codes "4GiB") w_host refl

abbrev w_new : World
w_new = world (new_machine ∷ [])

w_new-Filed : Filed m1 (codes "m1") w_new
unfolding has_id text_eq id_named trim_space
w_new-Filed = record { ready = record { no_faults = refl; known = refl }; named = refl }

run_machine_create_settles_example :
    (state_of m1 (run_machine_create svc new_machine (codes "m1") w_new).1.machines
      ≡ some machine_state_failed)
    ⊎ ((l : LiveMachine) × ((create_reply svc (codes "m1") w_new ≡ ok l)
          × (state_of m1 (run_machine_create svc new_machine (codes "m1") w_new).1.machines
              ≡ some l.state)))
run_machine_create_settles_example =
    run_machine_create_settles svc new_machine (codes "m1") w_new w_new-Filed

abbrev fork_source : MachineRecord
fork_source = machine_in (codes "i2") (codes "m2") machine_state_running

run_fork_settles_example :
    Forked svc owner
      (fork_reply svc owner fork_source (codes "m1") w_new)
      (run_fork svc owner fork_source new_machine (codes "m1") w_new).0
      (state_of m1 (run_fork svc owner fork_source new_machine (codes "m1") w_new).1.machines)
run_fork_settles_example =
    run_fork_settles svc owner fork_source new_machine (codes "m1") w_new w_new-Filed

delete_unknown-OrphansOnly_example : OrphansOnly [] w1 (delete_unknown svc [] (live ∷ []) w1).1
delete_unknown-OrphansOnly_example = delete_unknown-OrphansOnly svc [] (live ∷ []) w1

abbrev snapshot : SnapshotRecord
snapshot = record {
  id = codes "s1";
  name = codes "first";
  owner_user_id = codes "u1";
  owner_email = codes "a@b.c";
  host_id = some (codes "h1");
  source_machine_id = some m1;
  source_machine_name = some (codes "m1");
  runtime_name = codes "snap-1";
  state = codes "CREATING";
  cpu = codes "1";
  memory_bytes = 2 ^ 31;
  disk_bytes = 2 ^ 32;
  artifact_dir = codes "/snapshots/snap-1";
  disk_size_bytes = 2 ^ 32;
  memory_size_bytes = 2 ^ 31;
}

abbrev w_snapshot : World
w_snapshot = record w1 { snapshots = snapshot ∷ [] }

w_snapshot-Stored : Stored (codes "s1") w_snapshot
unfolding Snapshots.has_id text_eq trim_space
w_snapshot-Stored = record { no_faults = refl; trimmed = refl; known = refl }

run_snapshot_create_settles_example :
    snapshot_state_of (codes "s1") (run_snapshot_create svc snapshot w_snapshot).1.snapshots
    ≡ some (
        if is_ok (executor_for_host_id svc (snapshot_host_id snapshot))
          && is_ok (snapshot_answer svc snapshot w_snapshot)
        then snapshot_state_ready
        else snapshot_state_failed)
run_snapshot_create_settles_example =
    run_snapshot_create_settles svc snapshot w_snapshot w_snapshot-Stored

run_snapshot_create_undone_example :
    (run_snapshot_create svc snapshot w1).1.calls
    ≡ Call.delete_snapshot (codes "snap-1")
      ∷ Call.create_snapshot (source_machine_name_for_snapshot snapshot) (codes "snap-1")
      ∷ []
unfolding Snapshots.has_id executor_for_host_id snapshot_host_id trim_space text_eq
run_snapshot_create_undone_example =
    run_snapshot_create_undone svc snapshot w1
      (record {
        name = codes "s1";
        state = codes "READY";
        disk_size_bytes = 2 ^ 20;
        memory_size_bytes = 2 ^ 20;
      })
      refl refl refl refl

perform_snapshot_delete_settles_example :
    snapshot_state_of
      (codes "s1")
      (perform_snapshot_delete svc owner snapshot w_snapshot).1.snapshots
    ≡ (if is_ok (perform_snapshot_delete svc owner snapshot w_snapshot).0
        then none
        else snapshot_state_of (codes "s1") w_snapshot.snapshots)
perform_snapshot_delete_settles_example =
    perform_snapshot_delete_settles svc snapshot owner w_snapshot w_snapshot-Stored

abbrev plan : Plan
plan = record { spec = spec; host_id = codes "h1"; source_snapshot_id = none; retained = 2 ^ 30 }

abbrev new_row : MachineRecord
new_row = created_row timed owner m1 (codes "m1") 3000 plan

abbrev made_row : MachineRecord
made_row = record new_row { owner_email = codes "a@b.c" }

abbrev w_empty : World
w_empty = record (world []) { hosts = host ∷ [] }

abbrev w_made : World
w_made = record (world (made_row ∷ [])) { hosts = host ∷ [] }

machine_admitted :
    admit_machine timed owner (λ w. (ok tt, w)) plan new_row w_empty ≡ (ok made_row, w_made)
unfolding admit_machine host_by_id trim_space get_host_by_id statement Hosts.find_id text_eq
    ensure_user_can_create_machine compute_budget_delta parse_cpu_count parse_whole all_digits
    ensure_user_can_fit_delta user_budget_for_user calculate_user_usage tally list_machines
    add_machines equal_fold text_lt to_lower to_upper ensure_host_can_fit_delta
    ensure_host_can_fit_machine exceeds host_heartbeat_fresh default_machine_spec
    host_min_free_disk_bytes host_shared_cpu_ceiling machine_spec_for_record
    accumulate_machine_power_state add_compute add_count add_disk add_machine add_snapshot
    add_snapshots calculate_host_usage host_available_disk_bytes Machines.clashes create_machine_row
    email_of find_name get_machine_by_name insert_row normalize_email list_snapshots
    consumes_compute machine_consumes_compute machine_consumes_disk machine_counts_toward_quota
    phase phase_of snapshot_consumes_disk snapshot_counts_toward_quota retained_machine_disk_bytes
    snapshot_reserved_disk_bytes effective_default_user_max_machines machine_host_id parse_byte_size
machine_admitted = refl

usage_after : calculate_user_usage timed owner.id w_made ≡ (ok usage, w_made)
unfolding calculate_user_usage tally list_machines statement add_machines normalize_email to_lower
    list_snapshots exceeds add_snapshots equal_fold text_eq to_upper default_machine_spec
    machine_spec_for_record accumulate_machine_power_state add_compute add_count add_disk
    add_machine add_snapshot consumes_compute machine_consumes_compute machine_consumes_disk
    machine_counts_toward_quota phase phase_of snapshot_consumes_disk snapshot_counts_toward_quota
    retained_machine_disk_bytes snapshot_reserved_disk_bytes parse_byte_size parse_cpu_count
    trim_space parse_whole all_digits insert_row
usage_after = refl

admit_machine-Within_example :
    (b : UserBudget ℕ) × ((user_budget_for_user timed owner ≡ ok b) × Within timed b usage)
unfolding machine_spec_for_record default_machine_spec parse_byte_size parse_whole all_digits
    trim_space
admit_machine-Within_example =
    admit_machine-Within timed owner (λ w. (ok tt, w)) m1 (codes "m1") 3000 plan w_empty w_made
      w_made made_row usage (omega arith) refl machine_admitted usage_after

abbrev by_owner : Text
by_owner = codes "A@b.c"

abbrev w_stopped : World
w_stopped = record w_host { machines = stopped_machine ∷ [] }

abbrev w_running : World
w_running = record w_host { machines = running_machine ∷ [] }

stopped-Stands : Stands (codes " M1") stopped_machine w_stopped
unfolding normalize_machine_name find_name text_eq trim_space to_lower has_id UniqueIds
stopped-Stands = record { found = refl; unique = (refl, tt); no_faults = refl }

running-Stands : Stands (codes " M1") running_machine w_running
unfolding normalize_machine_name find_name text_eq trim_space to_lower has_id UniqueIds
running-Stands = record { found = refl; unique = (refl, tt); no_faults = refl }

start_machine_settles_example :
    Answered timed.runtime.live_reply
      (Call.start_machine (runtime_name_for_record stopped_machine))
      m1
      machine_state_running
      machine_state_stopped
      (some machine_state_stopped)
      (start_machine timed (codes "u9") (codes " M1") by_owner w_stopped).0
      (state_of m1 (start_machine timed (codes "u9") (codes " M1") by_owner w_stopped).1.machines)
start_machine_settles_example =
    start_machine_settles timed (codes "u9") (codes " M1") by_owner stopped_machine w_stopped
      stopped-Stands

stop_machine_settles_example :
    Answered timed.runtime.live_reply
      (Call.stop_machine (runtime_name_for_record running_machine))
      m1
      machine_state_stopped
      machine_state_running
      (some machine_state_running)
      (stop_machine timed (codes " M1") by_owner w_running).0
      (state_of m1 (stop_machine timed (codes " M1") by_owner w_running).1.machines)
stop_machine_settles_example =
    stop_machine_settles timed (codes " M1") by_owner running_machine w_running running-Stands

start_machine-LookedUp_example :
    LookedUp TouchesButUsers
      (key_of (codes " M1"))
      by_owner
      w_stopped
      (start_machine timed (codes "u9") (codes " M1") by_owner w_stopped).1
start_machine-LookedUp_example =
    start_machine-LookedUp timed (codes "u9") (codes " M1") by_owner w_stopped

stop_machine-LookedUp_example :
    LookedUp Touches
      (key_of (codes " M1"))
      by_owner
      w_running
      (stop_machine timed (codes " M1") by_owner w_running).1
stop_machine-LookedUp_example = stop_machine-LookedUp timed (codes " M1") by_owner w_running
