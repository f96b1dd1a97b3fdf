-- ===== src/Snapshot.antt =====
-- Snapshots of machines: internal/controlplane/service.go.
pub mod Create
pub mod Delete
pub mod Outcome
