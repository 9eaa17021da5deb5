-- ===== src/Recordmgr.antt =====
-- The record manager (recordmgr/): it captures audio on command.
pub mod EventTypeId
pub mod AlsaHelper
pub mod RecordWorker
pub mod MainWorker
pub mod RmSenderFactory
mod Examples
