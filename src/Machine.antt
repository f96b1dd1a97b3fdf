-- ===== src/Machine.antt =====
-- The life of a machine: internal/controlplane/service.go.
pub mod Name
pub mod Create
pub mod Request
pub mod Fork
pub mod Delete
pub mod Lookup
pub mod Reconcile
pub mod Settle
pub mod ForkSettle
pub mod Orphans
pub mod Outcome
pub mod Admission
