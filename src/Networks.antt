-- ===== src/Networks.antt =====
-- The networks of VirtualBox: dhcp.go, hostonlynet.go, natnet.go and util.go.
pub mod Lines
pub mod Masks
pub mod Hostonly
pub mod Nat
pub mod Dhcp
