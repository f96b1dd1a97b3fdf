-- ===== src/Tests.antt =====
-- The results at concrete inputs: a service with whole numbers for floating point and a runtime
-- that always answers, an owner, and a machine.
mod Auth
mod Control
mod Terminal
use fascinate.Base.{
  ◌++◌, ℕ, ◌+◌, ◌*◌, ◌-◌, ◌≢◌, ◌^◌, ◌≡◌, refl, arith, Bool, true, false, ◌&&◌, Option, some, none,
  List, [], ◌∷◌, leb, ltb, length, All, if◌then◌else◌,
}
use fascinate.Base.Text.{
  Text, codes, text_eq, text_lt, trim_space, to_upper, to_lower, equal_fold, has_prefix,
}
use fascinate.Result.{ok, err, is_ok, env_out_of_fuel}
use fascinate.Float.{Floats, FloatLaws, is_digit, digits_from}
use fascinate.Size.{parse_cpu_count, parse_byte_size, format_byte_size}
use fascinate.Size.RoundTrip.{parse-format_byte_size}
use fascinate.Database.Records.{World, Terminals, User, MachineRecord, LiveMachine}
use fascinate.Database.Machines.{
  has_id, insert_row, update_machine, update_rows, update_machine_state, update_machine_disk_usage,
  update_machine_state_and_disk_usage, list_machines, normalize_email,
}
use fascinate.Database.Snapshots.{list_snapshots}
use fascinate.Database.Monad.{statement, record_event, ask}
use fascinate.Database.Rows.{Touches, Ready}
use fascinate.Database.Leaves.{state_of}
use fascinate.Service.{
  executor_for_host_id, machine_host_id, runtime_name_for_record,
  effective_default_user_max_machines, Service, Config,
}
use fascinate.Service.State.{
  machine_state_running, machine_state_stopped, machine_state_starting, machine_state_creating,
  phase, phase_of, consumes_compute, machine_consumes_compute, machine_consumes_disk,
  machine_counts_toward_quota, snapshot_consumes_disk, snapshot_counts_toward_quota,
  machine_state_is_transitional, ensure_machine_stopped_for_start, ensure_machine_running_for_stop,
  ensure_machine_deletable,
}
use fascinate.Service.Guards.{transitional_refused, settled_admitted}
use fascinate.Service.Storage.{
  ResourceSpec, retained_machine_disk_bytes, snapshot_reserved_disk_bytes,
}
use fascinate.Power.Start.{persist_state, or_current}
use fascinate.Service.Machines.{refresh_machine_disk_usage, machine_disk_usage_bytes}
use fascinate.Power.Stop.{run_stop, finish_stop_success, perform_stop}
use fascinate.Machine.Delete.{perform_delete}
use fascinate.Machine.Outcome.{perform_delete_settles}
use fascinate.Env.Text.{references, replace_all}
use fascinate.Env.Render.{
  resolve_keys, sorted_env_keys, resolve, contains, substitute, set, Map, get, render_effective_env,
}
use fascinate.Budget.Spec.{
  compute_budget_delta, default_machine_spec, UserBudget, user_budget_for_user,
  machine_spec_for_record,
}
use fascinate.Budget.Usage.{
  tally, add_machines, add_snapshots, accumulate_machine_power_state, add_compute, add_count,
  add_disk, add_machine, add_snapshot, Usage, calculate_user_usage, owned_by, snapshot_owned_by,
}
use fascinate.Budget.Check.{exceeds, ensure_user_can_fit_delta, ensure_user_can_create_machine}
use fascinate.Budget.Totals.{Totals, tally-Totals}
use fascinate.Budget.Admission.{CreatedFor, Within, ensure_user_can_create_machine-Within}
use fascinate.Env.Fuel.{render_effective_env_ends}
use fascinate.Runtime.Names.{compact_tap_name, namespace_name}
use fascinate.Env.Builtins.{render_effective_env_builtin}

all_digits : Text → Bool
all_digits [] = true
all_digits (c ∷ s) = is_digit c && all_digits s

parse_whole : Text → Option ℕ
parse_whole s = if ltb 0 (length s) && all_digits s then some (digits_from 0 s) else none

abbrev whole : Floats
whole = record {
  Float = ℕ;
  parse_float = parse_whole;
  of_int = λ n. n;
  to_int = λ n. n;
  add_float = λ a b. a + b;
  sub_float = λ a b. a - b;
  mul_float = λ a b. a * b;
  lt_float = ltb;
  le_float = leb;
  round_float = λ a. a;
  ceil_float = λ a. a;
}

all_digits_of : (s : Text) → All (λ c. is_digit c ≡ Bool.true) s → all_digits s ≡ true
unfolding all_digits
all_digits_of [] h = refl
all_digits_of (c ∷ s) h = rw (h.0, all_digits_of s h.1) refl

whole-FloatLaws : FloatLaws whole
unfolding parse_whole
whole-FloatLaws = record {
  parse_digits = λ s pos digits le. ground (arith, all_digits_of s digits);
  to_int-of_int = λ n le. refl;
  mul-of_int = λ a b le. refl;
  le-of_int = λ a b la lb. refl;
}

abbrev cfg : Config
cfg = record {
  host_id = codes "h1";
  host_region = codes "eu";
  base_domain = codes "example.dev";
  host_heartbeat_interval = 0;
  default_machine_cpu = codes "1";
  default_machine_ram = codes "2GiB";
  default_machine_disk = codes "4GiB";
  default_user_max_cpu = codes "4";
  default_user_max_ram = codes "8GiB";
  default_user_max_disk = codes "50GiB";
  host_shared_cpu_ratio = codes "2";
  default_user_max_machines = 5;
  default_user_max_snapshots = 5;
  max_machines_per_user = 0;
  max_machine_cpu = codes "2";
  max_machine_ram = codes "4GiB";
  max_machine_disk = codes "20GiB";
  host_min_free_disk = [];
  default_primary_port = 3000;
  runtime_snapshot_dir = codes "/snapshots";
}

abbrev live : LiveMachine
live = record {
  name = codes "m1";
  state = machine_state_running;
  cpu = codes "1";
  memory = codes "2GiB";
  disk = codes "4GiB";
}

abbrev svc : Service
svc = record {
  cfg = cfg;
  local_host_id = codes "h1";
  executors = codes "h1" ∷ [];
  runtime = record {
    live_reply = λ calls. ok live;
    unit_reply = λ calls. ok tt;
    usage_reply = λ calls. ok (2 ^ 20);
    snapshot_reply = λ calls. ok (record {
      name = codes "s1";
      state = codes "READY";
      disk_size_bytes = 2 ^ 20;
      memory_size_bytes = 2 ^ 20;
    });
    machines_reply = λ calls. ok (live ∷ []);
  };
  floats = whole;
  admin_emails = [];
  join_path = λ dir name. dir ++ (b'/' ∷ name);
  parse_time = λ t. none;
  parse_sql_time = λ t. none;
  local_available_disk = ok (2 ^ 40);
}

abbrev owner : User
owner = record {
  id = codes "u1";
  email = codes "a@b.c";
  is_admin = false;
  max_cpu = codes "4";
  max_memory_bytes = 2 ^ 33;
  max_disk_bytes = 2 ^ 35;
  max_machine_count = 2;
  max_snapshot_count = 2;
  tutorial_completed = false;
}

abbrev machine_in : Text → Text → Text → MachineRecord
machine_in i name state = record {
  id = i;
  name = name;
  owner_user_id = codes "u1";
  owner_email = codes "a@b.c";
  host_id = none;
  runtime_name = name;
  source_snapshot_id = none;
  state = state;
  cpu = codes "1";
  memory_bytes = 2 ^ 31;
  disk_bytes = 2 ^ 32;
  disk_usage_bytes = 2 ^ 30;
  primary_port = 3000;
}

abbrev m1 : Text
m1 = codes "i1"

abbrev stopped_machine : MachineRecord
stopped_machine = machine_in m1 (codes "m1") machine_state_stopped

abbrev starting_machine : MachineRecord
starting_machine = machine_in m1 (codes "m1") machine_state_starting

abbrev spec : ResourceSpec
spec = record { cpu = codes "1"; memory_bytes = 2 ^ 31; disk_bytes = 2 ^ 32 }

abbrev no_terminals : Terminals
no_terminals = record {
  shells = [];
  execs = [];
  attachments = [];
  connections = [];
  closed = [];
  jobs = [];
  total_created = 0;
  total_attach_failures = 0;
  total_disconnects = 0;
}

abbrev world : List MachineRecord → World
world rows = record {
  users = owner ∷ [];
  machines = rows;
  snapshots = [];
  hosts = [];
  env_vars = [];
  email_codes = [];
  web_sessions = [];
  api_tokens = [];
  terminals = no_terminals;
  events = [];
  calls = [];
  now = 0;
  faults = [];
}

abbrev w1 : World
w1 = world (stopped_machine ∷ [])

w1-Ready : Ready m1 w1
unfolding has_id text_eq
w1-Ready = record { no_faults = refl; known = refl }

abbrev running_machine : MachineRecord
running_machine = machine_in m1 (codes "m1") machine_state_running

abbrev w2 : World
w2 = world (running_machine ∷ [])

w2-Ready : Ready m1 w2
unfolding has_id text_eq
w2-Ready = record { no_faults = refl; known = refl }

parse-format_byte_size_example :
    parse_byte_size whole (format_byte_size (3 * 2 ^ 20)) ≡ ok (3 * 2 ^ 20)
parse-format_byte_size_example =
    parse-format_byte_size whole whole-FloatLaws (3 * 2 ^ 20) (omega arith) (omega arith)

perform_delete_settles_example :
    state_of m1 (perform_delete svc running_machine w2).1.machines
    ≡ (if is_ok (perform_delete svc running_machine w2).0 then none else some machine_state_running)
perform_delete_settles_example = perform_delete_settles svc running_machine w2 w2-Ready

abbrev builtins : Map
builtins = (codes "NAME", codes "m1") ∷ []

abbrev raw : Map
raw = (codes "NAME", codes "other") ∷ (codes "X", codes "${NAME}-x") ∷ []

render_effective_env_ends_example : render_effective_env builtins raw ≢ err env_out_of_fuel
render_effective_env_ends_example = render_effective_env_ends builtins raw

transitional_refused_example :
    (is_ok (ensure_machine_stopped_for_start starting_machine) ≡ false)
    × (is_ok (ensure_machine_running_for_stop starting_machine) ≡ false)
    × (is_ok (ensure_machine_deletable starting_machine) ≡ false)
unfolding machine_state_is_transitional phase phase_of text_eq to_upper trim_space
transitional_refused_example = transitional_refused starting_machine refl

settled_admitted_example :
    (ensure_machine_deletable stopped_machine ≡ ok tt)
    × ((is_ok (ensure_machine_stopped_for_start stopped_machine)
          && is_ok (ensure_machine_running_for_stop stopped_machine))
        ≡ false)
unfolding machine_state_is_transitional phase phase_of text_eq to_upper trim_space
settled_admitted_example = settled_admitted stopped_machine refl

abbrev rendered : Map
rendered = (codes "NAME", codes "m1") ∷ (codes "X", codes "m1-x") ∷ []

render_effective_env_run : render_effective_env builtins raw ≡ ok rendered
unfolding render_effective_env resolve_keys sorted_env_keys text_lt resolve get text_eq contains
    substitute references trim_space set has_prefix replace_all
render_effective_env_run = refl

render_effective_env_builtin_example : get (codes "NAME") rendered ≡ some (codes "m1")
unfolding get has_prefix text_eq
render_effective_env_builtin_example =
    render_effective_env_builtin builtins raw rendered (codes "NAME") (codes "m1")
      render_effective_env_run refl refl

abbrev new_machine : MachineRecord
new_machine = machine_in m1 (codes "m1") machine_state_creating

abbrev empty_world : World
empty_world = world []

abbrev full_world : World
full_world = world (insert_row new_machine [])

new_machine-CreatedFor : CreatedFor svc owner spec (2 ^ 30) new_machine
unfolding text_eq trim_space machine_spec_for_record default_machine_spec parse_byte_size
    parse_whole all_digits
new_machine-CreatedFor = record { owner = refl; state_eq = refl; usage_eq = refl; spec_eq = refl }

admits : ensure_user_can_create_machine svc owner spec (2 ^ 30) empty_world ≡ (ok tt, empty_world)
unfolding ensure_user_can_create_machine compute_budget_delta ensure_user_can_fit_delta
    user_budget_for_user effective_default_user_max_machines calculate_user_usage tally
    list_machines statement add_machines normalize_email to_lower list_snapshots exceeds
    add_snapshots equal_fold text_eq to_upper default_machine_spec machine_spec_for_record
    accumulate_machine_power_state add_compute add_count add_disk add_machine add_snapshot
    consumes_compute machine_consumes_compute machine_consumes_disk machine_counts_toward_quota
    phase phase_of snapshot_consumes_disk snapshot_counts_toward_quota retained_machine_disk_bytes
    snapshot_reserved_disk_bytes parse_byte_size parse_cpu_count trim_space parse_whole all_digits
    insert_row
admits = refl

abbrev usage : Usage ℕ
usage = record {
  cpu = 1;
  memory_bytes = 2 ^ 31;
  disk_bytes = 2 ^ 30;
  retained_machine_disk_bytes = 2 ^ 30;
  retained_snapshot_disk_bytes = 0;
  machine_count = 1;
  snapshot_count = 0;
  power = record {
    creating_machine_count = 1;
    starting_machine_count = 0;
    running_machine_count = 0;
    stopping_machine_count = 0;
    stopped_machine_count = 0;
    deleting_machine_count = 0;
  };
}

counts : calculate_user_usage svc owner.id full_world ≡ (ok usage, full_world)
unfolding calculate_user_usage tally list_machines statement add_machines normalize_email to_lower
    list_snapshots exceeds add_snapshots equal_fold text_eq to_upper default_machine_spec
    machine_spec_for_record accumulate_machine_power_state add_compute add_count add_disk
    add_machine add_snapshot consumes_compute machine_consumes_compute machine_consumes_disk
    machine_counts_toward_quota phase phase_of snapshot_consumes_disk snapshot_counts_toward_quota
    retained_machine_disk_bytes snapshot_reserved_disk_bytes parse_byte_size parse_cpu_count
    trim_space parse_whole all_digits insert_row
counts = refl

ensure_user_can_create_machine-Within_example :
    (b : UserBudget ℕ) × ((user_budget_for_user svc owner ≡ ok b) × Within svc b usage)
ensure_user_can_create_machine-Within_example =
    ensure_user_can_create_machine-Within svc owner spec (2 ^ 30) new_machine new_machine-CreatedFor
      empty_world empty_world full_world full_world usage (omega arith) admits refl refl counts

tally-Totals_example :
    Totals svc (owned_by svc owner.id) (snapshot_owned_by svc owner.id) full_world usage
unfolding calculate_user_usage
tally-Totals_example =
    tally-Totals svc (owned_by svc owner.id) (snapshot_owned_by svc owner.id) full_world full_world
      usage counts

stop_runs :
    state_of m1 (perform_stop svc running_machine w2).1.machines ≡ some machine_state_stopped
unfolding perform_stop run_stop update_machine_state update_machine statement has_id text_eq
    update_rows record_event executor_for_host_id machine_host_id trim_space ask
    runtime_name_for_record finish_stop_success persist_state refresh_machine_disk_usage
    machine_disk_usage_bytes update_machine_disk_usage or_current
    update_machine_state_and_disk_usage retained_machine_disk_bytes state_of
stop_runs = refl

-- Machines whose names differ by a hyphen share a namespace.
shared_namespace : namespace_name (codes "a-b") ≡ namespace_name (codes "ab")
unfolding namespace_name compact_tap_name to_lower trim_space
shared_namespace = refl
