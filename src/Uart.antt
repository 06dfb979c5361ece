-- ===== src/Uart.antt =====
-- uart.go: the serial ports of a machine, one module for each part of the file.
pub mod Key
pub mod Com
pub mod Kinds
pub mod Device
pub mod Commands
pub mod FromInfo
pub mod Create
