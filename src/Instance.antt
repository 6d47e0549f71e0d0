-- ===== src/Instance.antt =====
-- controllers/rdsinstance_controller.go: the reconciler of RDSInstance.
pub mod Patterns
pub mod Run
pub mod Spec
pub mod Phase
pub mod Conditions
pub mod Finalizer
pub mod Provision
pub mod Sync
pub mod Reconcile
pub mod Requests
pub mod Owners
pub mod Statuses
pub mod Reasons
pub mod Laws
pub mod Guards
pub mod Provisioned
pub mod Reached
pub mod Outcome
pub mod Reports
pub mod Deletion
pub mod Parts
pub mod Specified
