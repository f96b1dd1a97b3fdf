-- ===== src/Lib.antt =====
-- Verification of the control plane of fascinate, which keeps virtual machines for its users
-- (internal/controlplane), with the tables that it stands on (internal/database). Its users sign in
-- by a code sent to their address and then hold a token (internal/browserauth). They open shells and
-- run commands on their machines (internal/browserterm).
--
-- The program. A request for a machine goes through the control plane's Service: it looks the row
-- up, checks the row's state, the owner's budget and the host's capacity, writes a transitional
-- state, calls the runtime of the host, and writes the state that results. A failure on the way is
-- undone as far as it can be. The environment of a machine is rendered from its owner's variables
-- and sent to the guest after a start. A shell is opened by a token that works once; a command runs
-- until its process ends and its row is then completed; both ask the Service for the machine. Sizes
-- are texts such as 2GiB in the configuration and in requests, and bytes in the tables.
--
-- The files, with the code that each is about:
--   Base, Result, Float   helpers: 64-bit words, texts, errors as values, floating point
--   Size                  formatByteSize (budgets.go), parseCPUCount and parseByteSize (service.go)
--   Database              internal/database: Records (models.go), Monad (a statement and its
--                         failure), Machines, Snapshots, Users, Hosts, EnvVars, EmailCodes, Shells,
--                         Execs (the files of those names), Tokens (web_sessions.go, api_tokens.go);
--                         Frame, Effect, Rows, Leaves, Named, SnapshotRows and Inversion are how
--                         changes are reasoned about
--   Service               the receiver Service and its helpers: State (the states and the checks on
--                         them), Storage (machine_storage.go), Users, Machines (ensureUser,
--                         ownedMachineRecord, machineFromRecord and more of service.go), Guards
--   Budget                budgets.go: Spec (specifications and budgets), Usage (the loops), Check
--                         (the checks of admission), Loads, Totals, Effects and
--                         Admission (their proofs)
--   Env                   envvars.go: Text (references, validation), Render (renderEffectiveEnv),
--                         Vars (SetEnvVar, DeleteEnvVar, syncManagedEnv), Fuel and Builtins (proofs)
--   Power                 machine_power.go: Start, Stop; Isolation, Settle, Outcome, Scope, StartScope,
--                         Answer and Whole (proofs)
--   Host                  hosts.go: Capacity (hostCapacityErr, hostPlacementErr), Placement
--                         (getPlacementHost)
--   Runtime               internal/runtime/cloudhypervisor: Names (names of devices, arguments on
--                         sizes), Network (the addresses of an uplink)
--   Machine               service.go: Name (validateMachineName), Request (CreateMachine), Create (the
--                         task that makes a machine), Fork, Delete, Lookup (GetMachine), Reconcile
--                         (ReconcileRuntimeState); Admission, Settle, ForkSettle, Orphans, Outcome
--                         (proofs)
--   Snapshot              service.go: Create (CreateSnapshot and its task), Delete; Outcome (proofs)
--   Auth                  internal/browserauth: Login (RequestCode, VerifyCode, Authenticate, Logout
--                         and the same for API tokens); Codes, Table, Sessions, Invariant (proofs)
--   Terminal              internal/browserterm: Attachments, Shells, Sessions, Close (manager.go:
--                         shells, and the tokens that open them), Execs, Failures, Output (exec.go:
--                         commands), Quoting, Git (manager.go: the commands that are sent and the
--                         parsers of what comes back), Machines (GetMachine as their
--                         machineManager), Guest (commands in the guest of a shell), Subscribers
--                         (execJob); Tokens, Opening, Closing, Isolation, Finishing, Cancelling,
--                         Sparing, Channels, Streams, Delivery, Splitting, Porcelain (proofs)
--   Tests                 concrete inputs, and the results at them, with Control, Auth and Terminal
--
-- How it is modelled. An operation is a function from the world to a result and a world; what was
-- changed before an error stays changed. The world has the tables, in the order in which they are
-- listed, the events and the calls of the runtime so far, the time, which stands still during one
-- operation, and for each statement to come whether it fails. The runtime answers a call by any
-- function of the calls so far. Integers are 64-bit words in two's complement, sums wrap around.
-- Texts are ASCII codes. A method that locks its owner and its host, or the critical part of it,
-- runs as one step. Identifiers and bytes that the code draws at random are arguments. A task that
-- runs in the background (the making of a machine or of a snapshot) runs before the answer of the
-- request that starts it; the answer does not depend on it. Time is in nanoseconds, and the texts of
-- times in the tables of codes and tokens are seconds, which they order in the same way. What the
-- manager of shells and commands keeps in memory is part of the world; its locks make each operation
-- a single step. The channels of the subscribers of a command have their own state, with the steps
-- of the command and of the subscribers as a relation; the events so far, and those before a
-- subscription, are kept beside them, and no step depends on these. The output of a process is what
-- has been read of it.
--
-- Parameters, for what is not code of this repository: floating point with its parser (Float, with
-- the laws that it is exact at whole numbers up to 2 ^ 53, where a proof needs them), the parsers of
-- time stamps, the size of the free disk, joining file paths, the runtime behind its interface, the
-- digest SHA-256 and the hash FNV, the hexadecimal text of bytes, the sender of letters,
-- strconv.Atoi, the texts of errors. How a process that is started over SSH goes, and how a
-- connection ends, are arguments. The order in which ReconcileRuntimeState goes over a map is an
-- argument.
--
-- Bounds. The digits of a number n are printed with n as fuel, each step of which divides by ten.
-- The calls of resolve in renderEffectiveEnv have as fuel the number of the user's variables and
-- one, which is proved to be enough for all variables. The choice of an uplink's addresses tries as
-- many blocks as the source does. All other loops are recursion on lists.
--
-- Not modelled: contexts and time limits, logs, payloads of events and their stream, time stamps of
-- rows other than those of codes and tokens, tool credentials (the service modelled has no manager
-- for them), cancelling a creation, the metrics of the local host, the background refresh of
-- environments, the processes, disks and networks of the Cloud Hypervisor runtime, HTTP, the command
-- line, mail, the bytes that pass between a shell and its connection, the queue of git commands, and
-- the layouts of workspaces.
pub mod Base
pub mod Result
pub mod Float
pub mod Size
pub mod Database
pub mod Service
pub mod Env
pub mod Budget
pub mod Host
pub mod Runtime
pub mod Power
pub mod Machine
pub mod Snapshot
pub mod Auth
pub mod Terminal
pub mod Tests
