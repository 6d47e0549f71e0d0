-- ===== src/Connection.antt =====
-- controllers/rdsconnection_controller.go: the reconciler of RDSConnection. The state `S` is what
-- the API server keeps; the client's calls on it are a parameter. The closures of Reconcile are
-- handlers over a record of the variables that they share.
pub mod Objects
pub mod Run
pub mod Service
pub mod Access
pub mod Sync
pub mod Reconcile
pub mod Requests
pub mod Outcome
pub mod Ready
pub mod Written
pub mod Requested
