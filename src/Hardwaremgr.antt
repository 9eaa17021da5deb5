-- ===== src/Hardwaremgr.antt =====
-- The hardware manager (hardwaremgr/): Bluetooth over BlueZ and oFono, and the temperature.
pub mod EventTypeId
pub mod Config
pub mod Hardware
pub mod BluezDbus
pub mod Message
pub mod BluetoothAgent
pub mod DbusReceiver
pub mod MainWorker
pub mod HmSenderFactory
pub mod Gpio
pub mod Notifications
pub mod BluetoothWorker
pub mod Addresses
mod Examples
pub mod OfonoDbus
