-- ===== src/Task.antt =====
-- task/: the tasks, their history and their leases, in the database.
pub mod Model
pub mod Query
pub mod Tx
pub mod Store
pub mod Lifecycle
