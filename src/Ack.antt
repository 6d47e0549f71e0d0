-- ===== src/Ack.antt =====
-- The custom resources of the AWS controllers for Kubernetes (ACK), which this program reads and
-- writes and does not implement.
pub mod Shared
pub mod Instance
pub mod Cluster
