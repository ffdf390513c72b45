-- ===== src/Worker.antt =====
-- worker/, server/scheduler.go: the run of a task on a worker, and the reports to the leader.
pub mod Engine
pub mod Executor
pub mod Server
pub mod Reports
pub mod Delivery
