-- ===== src/Host.antt =====
-- Hosts: internal/controlplane/hosts.go.
pub mod Capacity
pub mod Placement
