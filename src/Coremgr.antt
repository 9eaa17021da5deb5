-- ===== src/Coremgr.antt =====
-- The core manager (coremgr/): it serves the clients and drives the two other managers.
pub mod EventTypeId
pub mod StateView
pub mod Timer
pub mod Core
pub mod HardwareHandler
pub mod RecordHandler
pub mod SqliteDbHandler
pub mod MainWorker
pub mod CmSenderFactory
pub mod DbusReceiver
pub mod WebSocket
pub mod WebSocketSession
mod Examples
