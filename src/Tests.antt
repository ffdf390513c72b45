-- ===== src/Tests.antt =====
-- The theorems at concrete inputs.
mod Election
mod Tasks
mod Schedule
mod Messages
mod Work
mod Nodes
mod Files
mod Process
mod Network
