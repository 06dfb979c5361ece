-- ===== src/Go/Net.antt =====
-- Of package net: addresses, masks and hardware addresses, and the texts they are read from and
-- printed as.
pub mod V4
pub mod V6
pub mod Parse
pub mod Show
pub mod Masks
pub mod Mac
pub mod RoundTrip
pub mod Plain
