-- ===== src/RdsUtils.antt =====
-- controllers/rds_utils.go
pub mod Entries
pub mod InstanceStatus
pub mod ClusterStatus
pub mod Names
pub mod Bytes
pub mod Credentials
pub mod Passwords
