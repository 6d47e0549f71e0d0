-- ===== src/DbUtils.antt =====
-- controllers/db_utils.go: the tables that the operator keeps for the engines, the default
-- availability zone of a region, and generated passwords.
pub mod Names
pub mod Engine
pub mod Password
