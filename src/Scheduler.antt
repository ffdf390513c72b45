-- ===== src/Scheduler.antt =====
-- scheduler/: the leader's scheduler.
pub mod Strategy
pub mod Engine
