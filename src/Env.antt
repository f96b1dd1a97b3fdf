-- ===== src/Env.antt =====
-- Environment variables of machines: internal/controlplane/envvars.go.
pub mod Text
pub mod Render
pub mod Fuel
pub mod Builtins
pub mod Vars
