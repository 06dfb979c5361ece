-- ===== src/Machine.antt =====
-- machine.go and nic.go: the machines and the commands that change them.
pub mod Kinds
pub mod Flags
pub mod Nic
pub mod Info
pub mod Lifecycle
pub mod Config
pub mod Registry
