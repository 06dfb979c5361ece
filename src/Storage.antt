-- ===== src/Storage.antt =====
-- storage.go: storage controllers and their media from the properties that `showvminfo` prints.
pub mod Kinds
pub mod Media
pub mod Controllers
