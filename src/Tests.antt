-- ===== src/Tests.antt =====
-- Concrete runs of the definitions, and the theorems applied to concrete inputs.
mod IoWakeup
mod Dispatch
mod Session
mod Room
mod RoomPool
mod Logic
mod Requests
mod SignalSession
mod SerialQueue
pub mod Meetings
mod Chat
mod Accounts
mod Routes
