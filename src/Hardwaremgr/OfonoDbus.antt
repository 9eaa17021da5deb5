-- ===== src/Hardwaremgr/OfonoDbus.antt =====
-- hardwaremgr/src/BT/OfonoDBus.cpp: the contacts and the call history of the phone (`Sync`), its
-- calls (`Calls`), and the sets and maps that the class keeps (`Containers`); theorems on the
-- phonebook (`Phonebook`), on the call history (`History`) and on the commands for calls
-- (`Ringing`, `Outcomes`).
pub mod Containers
pub mod Sync
pub mod Calls
pub mod Phonebook
pub mod History
pub mod Ringing
pub mod Outcomes
unfoldable pub use Containers.*
unfoldable pub use Sync.*
unfoldable pub use Calls.*
