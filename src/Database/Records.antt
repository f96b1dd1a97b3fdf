-- ===== src/Database/Records.antt =====
-- The records of internal/database/models.go, the values that the runtime hands back
-- (internal/runtime/runtime.go), and the world that an operation runs in. Timestamps and payloads of
-- events are left out; so is deleted_at, which no statement sets.
use fascinate.Base.{ℕ, Bool, Option, List}
use fascinate.Base.Text.{Text}

pub record User : Type 0 where
  pub id : Text
  pub email : Text
  pub is_admin : Bool
  pub max_cpu : Text
  pub max_memory_bytes : ℕ
  pub max_disk_bytes : ℕ
  pub max_machine_count : ℕ
  pub max_snapshot_count : ℕ
  pub tutorial_completed : Bool

pub record MachineRecord : Type 0 where
  pub id : Text
  pub name : Text
  pub owner_user_id : Text
  pub owner_email : Text
  pub host_id : Option Text
  pub runtime_name : Text
  pub source_snapshot_id : Option Text
  pub state : Text
  pub cpu : Text
  pub memory_bytes : ℕ
  pub disk_bytes : ℕ
  pub disk_usage_bytes : ℕ
  pub primary_port : ℕ

pub record SnapshotRecord : Type 0 where
  pub id : Text
  pub name : Text
  pub owner_user_id : Text
  pub owner_email : Text
  pub host_id : Option Text
  pub source_machine_id : Option Text
  pub source_machine_name : Option Text
  pub runtime_name : Text
  pub state : Text
  pub cpu : Text
  pub memory_bytes : ℕ
  pub disk_bytes : ℕ
  pub artifact_dir : Text
  pub disk_size_bytes : ℕ
  pub memory_size_bytes : ℕ

pub record HostRecord : Type 0 where
  pub id : Text
  pub name : Text
  pub region : Text
  pub status : Text
  pub heartbeat_at : Option Text
  pub total_cpu : ℕ
  pub allocated_cpu : ℕ
  pub total_memory_bytes : ℕ
  pub allocated_memory_bytes : ℕ
  pub total_disk_bytes : ℕ
  pub allocated_disk_bytes : ℕ
  pub available_disk_bytes : ℕ

pub record EnvVarRecord : Type 0 where
  pub user_id : Text
  pub key : Text
  pub raw_value : Text

pub record UserBudgetDefaults : Type 0 where
  pub max_cpu : Text
  pub max_memory_bytes : ℕ
  pub max_disk_bytes : ℕ
  pub max_machine_count : ℕ
  pub max_snapshot_count : ℕ

-- The kinds of the events that the modelled operations record.
pub data EventKind : Type 0 where
  machine_create_rejected machine_create_queued machine_create_started : EventKind
  machine_create_runtime_ready machine_create_succeeded machine_create_failed : EventKind
  machine_start_rejected machine_start_started machine_start_succeeded : EventKind
  machine_start_failed machine_stop_started machine_stop_succeeded : EventKind
  machine_stop_failed machine_delete_started machine_delete_failed : EventKind
  machine_delete_succeeded machine_fork_rejected machine_fork_started : EventKind
  machine_fork_succeeded machine_fork_failed : EventKind
  snapshot_create_rejected snapshot_create_queued snapshot_create_started : EventKind
  snapshot_create_succeeded snapshot_create_failed snapshot_delete_started : EventKind
  snapshot_delete_failed snapshot_delete_succeeded : EventKind
  shell_created shell_attached shell_attach_failed shell_deleted : EventKind
  exec_started exec_completed exec_cancel_requested : EventKind

pub record EventRecord : Type 0 where
  pub actor_user_id : Option Text
  pub machine_id : Option Text
  pub kind : EventKind

-- A machine as the runtime reports it.
pub record LiveMachine : Type 0 where
  pub name : Text
  pub state : Text
  pub cpu : Text
  pub memory : Text
  pub disk : Text

-- A snapshot as the runtime reports it; its versions are left out.
pub record LiveSnapshot : Type 0 where
  pub name : Text
  pub state : Text
  pub disk_size_bytes : ℕ
  pub memory_size_bytes : ℕ

-- A call of the runtime, by the method of hostExecutor, with the names that it is made at.
pub data Call : Type 0 where
  get_machine create_machine start_machine stop_machine delete_machine : Text → Call
  sync_managed_env inspect_machine restore_auth capture_auth : Text → Call
  fork_machine create_snapshot : Text → Text → Call
  delete_snapshot : Text → Call
  list_machines : Call

-- email_codes; the times are seconds, which the formatted texts of the source order in the same way.
pub record EmailCodeRecord : Type 0 where
  pub id : Text
  pub email : Text
  pub purpose : Text
  pub code_hash : Text
  pub expires_at : ℕ
  pub consumed : Bool

-- A row of web_sessions or of api_tokens; a web session has no name. The address of the user stands
-- in the row, as the join with the users shows it.
pub record TokenRecord : Type 0 where
  pub id : Text
  pub user_id : Text
  pub user_email : Text
  pub name : Text
  pub token_hash : Text
  pub expires_at : ℕ
  pub last_used_at : ℕ
  pub user_agent : Option Text
  pub ip_address : Option Text
  pub revoked : Bool

-- A shell; the address of the user and the name of the machine stand in the row, as the joins show
-- them. Of last_attached_at and deleted_at it is kept whether they are set.
pub record ShellRecord : Type 0 where
  pub id : Text
  pub user_id : Text
  pub user_email : Text
  pub machine_id : Text
  pub machine_name : Text
  pub host_id : Option Text
  pub name : Text
  pub tmux_session : Text
  pub state : Text
  pub cwd : Text
  pub last_error : Option Text
  pub attached : Bool
  pub deleted : Bool

-- A command; of completed_at and cancel_requested_at it is kept whether they are set. An exit code is a
-- 64-bit word, as all integers are.
pub record ExecRecord : Type 0 where
  pub id : Text
  pub user_id : Text
  pub user_email : Text
  pub machine_id : Text
  pub machine_name : Text
  pub host_id : Option Text
  pub command_text : Text
  pub cwd : Text
  pub state : Text
  pub requested_timeout_seconds : ℕ
  pub exit_code : Option ℕ
  pub failure_class : Option Text
  pub stdout_text : Text
  pub stderr_text : Text
  pub stdout_truncated : Bool
  pub stderr_truncated : Bool
  pub completed : Bool
  pub cancel_requested : Bool

-- attachment of internal/browserterm/manager.go, which a token opens once; times in nanoseconds.
pub record Attachment : Type 0 where
  pub shell_id : Text
  pub token_hash : Text
  pub host_id : Text
  pub cols : ℕ
  pub rows : ℕ
  pub expires_at : ℕ
  pub attached_at : Option ℕ

-- The tables of shells and commands, and what browserterm.Manager holds in memory: the attachments by
-- the digest of their token, the open connections by shell, those that it has closed, the running
-- commands with whether they are cancelled, and its counters.
pub record Terminals : Type 0 where
  pub shells : List ShellRecord
  pub execs : List ExecRecord
  pub attachments : List Attachment
  pub connections : List (Text × ℕ)
  pub closed : List ℕ
  pub jobs : List (Text × Bool)
  pub total_created : ℕ
  pub total_attach_failures : ℕ
  pub total_disconnects : ℕ

-- Everything outside an operation: the tables, in the order in which they are listed, the events
-- and the runtime calls so far, newest first, the time, and for each statement to come whether it
-- fails. A statement with no entry succeeds.
pub record World : Type 0 where
  pub users : List User
  pub machines : List MachineRecord
  pub snapshots : List SnapshotRecord
  pub hosts : List HostRecord
  pub env_vars : List EnvVarRecord
  pub email_codes : List EmailCodeRecord
  pub web_sessions : List TokenRecord
  pub api_tokens : List TokenRecord
  pub terminals : Terminals
  pub events : List EventRecord
  pub calls : List Call
  pub now : ℕ
  pub faults : List Bool
