-- ===== src/Inventory.antt =====
-- controllers/rdsinventory_controller.go and api/v1alpha1/rdsinventory_webhook.go: the credentials
-- of an inventory, its condition, the RDS controller, and the requests for inventories.
pub mod Run
pub mod Validate
pub mod Condition
pub mod Requests
pub mod Webhook
pub mod Validated
pub mod Refused
pub mod Stored
pub mod Controller
pub mod Stopped
pub mod Waits
pub mod Server
pub mod Install
pub mod Finalizer
pub mod Database
pub mod Adopt
pub mod Reset
pub mod Services
pub mod Reconcile
pub mod Attempts
pub mod Halts
pub mod Outcome
pub mod Lost
pub mod Reports
pub mod Passed
pub mod Ready
pub mod Bindable
pub mod Startup
