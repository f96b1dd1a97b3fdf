-- ===== src/Database/Frame.antt =====
-- What the queries of internal/database leave alone, and the values that they find.
use fascinate.Base.{◌≡◌, ◌⊎◌, some, [], arith}
use fascinate.Base.Text.{Text, trim_space, to_lower}
use fascinate.Result.{Error, ok, err}
use fascinate.Database.Records.{World, MachineRecord}
use fascinate.Database.Monad.{statement}
use fascinate.Database.Machines.{find_name, get_machine_by_name, list_machines, normalize_email}
use fascinate.Database.Snapshots.{list_snapshots, get_snapshot_by_id}
use fascinate.Database.EnvVars.{list_user_env_vars}
use fascinate.Database.Users.{get_user_by_email}
use fascinate.Database.Hosts.{get_host_by_id, list_hosts}

-- Nothing has changed but the faults to come, of which some may have been met.
pub record Same (w w' : World) : Type 0 where
  pub users_eq : w'.users ≡ w.users
  pub machines_eq : w'.machines ≡ w.machines
  pub snapshots_eq : w'.snapshots ≡ w.snapshots
  pub hosts_eq : w'.hosts ≡ w.hosts
  pub env_vars_eq : w'.env_vars ≡ w.env_vars
  pub email_codes_eq : w'.email_codes ≡ w.email_codes
  pub web_sessions_eq : w'.web_sessions ≡ w.web_sessions
  pub api_tokens_eq : w'.api_tokens ≡ w.api_tokens
  pub terminals_eq : w'.terminals ≡ w.terminals
  pub events_eq : w'.events ≡ w.events
  pub calls_eq : w'.calls ≡ w.calls
  pub now_eq : w'.now ≡ w.now
  pub quiet : w.faults ≡ [] → w'.faults ≡ []

pub Same-refl : (w : World) → Same w w
Same-refl w = ground arith

pub Same-trans : {u v w : World} → Same u v → Same v w → Same u w
Same-trans a b = ground arith

pub statement-Same : (w : World) → Same w (statement w).1
unfolding statement
statement-Same w = ground arith

pub list_machines-Same : (email : Text) (w : World) → Same w (list_machines email w).1
unfolding list_machines
list_machines-Same email w = ground (arith, statement-Same w)

-- Listed for no owner, the machines are all of the table.
pub list_machines_all :
    (w : World)
    → ((list_machines [] w).0 ≡ ok w.machines) ⊎ ((e : Error) × ((list_machines [] w).0 ≡ err e))
unfolding list_machines normalize_email trim_space to_lower
list_machines_all w = ground (arith, statement-Same w)

pub list_snapshots-Same : (w : World) → Same w (list_snapshots w).1
unfolding list_snapshots
list_snapshots-Same w = ground (arith, statement-Same w)

pub list_snapshots_all :
    (w : World)
    → ((list_snapshots w).0 ≡ ok w.snapshots) ⊎ ((e : Error) × ((list_snapshots w).0 ≡ err e))
unfolding list_snapshots
list_snapshots_all w = ground (arith, statement-Same w)

pub get_machine_by_name-Same : (n : Text) (w : World) → Same w (get_machine_by_name n w).1
unfolding get_machine_by_name
get_machine_by_name-Same n w = ground (arith, statement-Same w)

pub get_machine_by_name_found :
    (n : Text) (w w' : World) (r : MachineRecord)
    → get_machine_by_name n w ≡ (ok r, w')
    → find_name (trim_space n) w.machines ≡ some r
unfolding get_machine_by_name
get_machine_by_name_found n w w' r h = ground (arith, statement-Same w)

pub get_snapshot_by_id-Same : (i : Text) (w : World) → Same w (get_snapshot_by_id i w).1
unfolding get_snapshot_by_id
get_snapshot_by_id-Same i w = ground (arith, statement-Same w)

pub get_user_by_email-Same : (e : Text) (w : World) → Same w (get_user_by_email e w).1
unfolding get_user_by_email
get_user_by_email-Same e w = ground (arith, statement-Same w)

pub get_host_by_id-Same : (i : Text) (w : World) → Same w (get_host_by_id i w).1
unfolding get_host_by_id
get_host_by_id-Same i w = ground (arith, statement-Same w)

pub list_hosts-Same : (w : World) → Same w (list_hosts w).1
unfolding list_hosts
list_hosts-Same w = ground (arith, statement-Same w)

pub list_user_env_vars-Same : (u : Text) (w : World) → Same w (list_user_env_vars u w).1
unfolding list_user_env_vars
list_user_env_vars-Same u w = ground (arith, statement-Same w)
