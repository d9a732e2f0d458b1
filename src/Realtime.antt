-- ===== src/Realtime.antt =====
-- RealtimeServer: the TCP process that owns meetings, chat and media signalling.
pub mod IoWakeup
pub mod Session
pub mod Presence
pub mod MediaSignals
pub mod SlowPool
pub mod SerialQueue
pub mod Meetings
pub mod Accounts
pub mod Dispatch
