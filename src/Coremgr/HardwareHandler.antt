-- ===== src/Coremgr/HardwareHandler.antt =====
-- coremgr/src/Controller/HardwareHandler.cpp: the handlers of the events about Bluetooth, calls,
-- the phone book and the temperature.
mod Settings
mod Device
pub mod Confirmation
mod Calls
mod Phonebook
unfoldable pub use Settings.*
unfoldable pub use Device.*
unfoldable pub use Confirmation.*
unfoldable pub use Calls.*
unfoldable pub use Phonebook.*
