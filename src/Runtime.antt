-- ===== src/Runtime.antt =====
-- internal/runtime/cloudhypervisor: the names and addresses that it derives for machines.
pub mod Names
pub mod Network
