-- ===== src/Election.antt =====
-- election/: the election of a leader.
pub mod State
pub mod Engine
pub mod Server
pub mod Node
pub mod Retry
pub mod Network
