-- ===== src/Common.antt =====
-- The library that the three managers share (common/).
pub mod Define
pub mod DbusData
pub mod Stdlib
pub mod Text
pub mod Event
pub mod EventQueue
pub mod Dbus
mod Examples
