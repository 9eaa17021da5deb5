-- ===== src/Hardwaremgr/BluezDbus.antt =====
-- hardwaremgr/src/BT/BluezDBus.cpp: what is read from BlueZ (`Parse`), the requests to it
-- (`Requests`), and the adapter (`Adapter`). Every function holds the recursive mutex throughout.
pub mod Parse
pub mod Requests
pub mod Adapter
pub mod Reports
unfoldable pub use Parse.*
unfoldable pub use Requests.*
unfoldable pub use Adapter.*
