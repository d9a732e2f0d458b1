-- ===== src/Media.antt =====
-- MediaServer: WebRTC sessions, rooms that forward RTP, and the socket to RealtimeServer.
pub mod MediaSession
pub mod Room
pub mod RoomPool
pub mod Logic
pub mod SignalSession
