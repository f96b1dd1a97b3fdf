-- ===== src/Power.antt =====
-- StartMachine and StopMachine: internal/controlplane/machine_power.go.
pub mod Start
pub mod Stop
pub mod Isolation
pub mod Settle
pub mod Outcome
pub mod Scope
pub mod StartScope
pub mod Answer
pub mod Whole
