-- ===== src/Hardwaremgr/Notifications.antt =====
-- What the hardware manager notifies the core manager of, against what the core manager's receiver
-- needs: the texts that it reads as numbers.
pub mod Parsed
pub mod Fit
pub mod Bluez
pub mod Adapter
pub mod Ofono
pub mod Calls
pub mod Signals
pub mod Devices
pub mod Agent
pub mod Run
