-- ===== src/Database.antt =====
-- The store of internal/database over the tables that the control plane uses.
pub mod Records
pub mod Monad
pub mod Machines
pub mod Snapshots
pub mod Users
pub mod Hosts
pub mod EnvVars
pub mod Frame
pub mod Effect
pub mod Rows
pub mod Leaves
pub mod Named
pub mod SnapshotRows
pub mod EmailCodes
pub mod Tokens
pub mod Inversion
pub mod Shells
pub mod Execs
