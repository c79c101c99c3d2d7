-- ===== src/Protocol/Transitions.antt =====
-- Which states a pass over the real-time flags can lead to (`protocol_exec_rt_system`).
pub mod Holds
pub mod Frame
pub mod Cycles
pub mod Passes
