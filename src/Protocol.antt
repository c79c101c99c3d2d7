-- ===== src/Protocol.antt =====
-- The line reader and the real-time state machine (grbl/protocol.c).
pub mod Hold
pub mod Commands
pub mod Suspend
pub mod Suspension
pub mod Pins
pub mod Examples
pub mod Cycle
pub mod Override
pub mod Realtime
pub mod Bounds
pub mod Critical
pub mod Line
pub mod Transitions
