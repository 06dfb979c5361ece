-- ===== src/Tests.antt =====
-- The theorems at concrete inputs.
mod Arguments
mod Ports
mod Faulty
mod Guests
mod Described
mod Disks
mod Vms
mod Hosts
mod Stops
mod Groups
mod Nets
mod Programs
mod Watching
mod Documented
