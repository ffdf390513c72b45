-- ===== src/Cluster.antt =====
-- cluster/: who is in the cluster.
pub mod Members
pub mod Event
pub mod Node
