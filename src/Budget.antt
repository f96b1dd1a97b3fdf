-- ===== src/Budget.antt =====
-- Specifications, budgets and usage: internal/controlplane/budgets.go.
pub mod Spec
pub mod Usage
pub mod Check
pub mod Effects
pub mod Loads
pub mod Admission
pub mod Totals
