-- ===== src/Lib.antt =====
-- Verification of rds-dbaas-operator, an operator that offers Amazon RDS databases as database
-- services of a Kubernetes cluster.
--
-- The program. An RDSInventory lists the databases of an AWS account, an RDSInstance asks for a
-- new database, and an RDSConnection binds an application to a database that an inventory lists.
-- One controller per resource reconciles it: it reads and writes objects on the API server, among
-- them the DBInstance and DBCluster resources of the AWS controllers for Kubernetes (ACK), and
-- sets a condition in a deferred call. The controllers share tables on engines and a few helpers.
--
-- The files, and the code that they model:
--   Prelude              what the modules share: tests, texts, Go's switch, dictionaries, lists
--   Go                   strconv.ParseInt, FormatInt and ParseBool, strings.Split and SplitN
--   K8s                  errors, object metadata, conditions, secrets, configmaps; K8s.Meta is the
--                        part of apimachinery and controller-runtime that the code calls; K8s.Steps
--                        has the lemmas on chains of handlers
--   Ack                  the fields of DBInstance and DBCluster that are read or written
--   Crd                  api/v1alpha1/rds*_types.go
--   DbUtils              controllers/db_utils.go: tables on engines, default zones, passwords
--   RdsUtils             controllers/rds_utils.go: parseNamespacedName, setCredentials, and the
--                        printers parseDBInstanceStatus and parseDBClusterStatus
--   Connection           controllers/rdsconnection_controller.go
--   Instance             controllers/rdsinstance_controller.go
--   Inventory            controllers/rdsinventory_controller.go: Validate, Install, Finalizer, Adopt,
--                        Reset and Services have the closures of Reconcile, Controller the start
--                        and the stop of the RDS controller, Startup the calls of
--                        SetupWithManager; api/v1alpha1/rdsinventory_webhook.go
--   Provider             controllers/dbaasprovider_controller.go
--   Main                 main.go, on top of the set-ups of Inventory.Startup and Provider
--   Tests                concrete servers and objects, and the theorems at them
--
-- How code and model correspond. The state of the API server is a type S, and each call of the
-- client is a function from a state to an answer and a state, in a record that is a parameter
-- (Connection.Run.Client, Instance.Run.Client, Inventory.Server.Server, Provider.Client). The
-- variables that the closures of a Reconcile share are the record Run. Each closure
-- (checkFinalizer, createOrUpdateDBInstance, syncDBInstanceStatus, checkDBServiceStatus,
-- checkDBConnectionStatus, syncConnectionStatus, installRDSController) is a handler with the same
-- name in snake case, which stops with the variables that it leaves, panics, or goes on; `handlers`
-- is their chain and `reconcile` the whole of Reconcile, with the read in front and the deferred
-- write of the condition behind. A nil pointer is `none`, and a panic at one is a value of the
-- model. CreateOrUpdate is a call of the client that takes the callback. adoptDBInstances and
-- adoptDBClusters are copies of each other, as are syncDBInstancesStatus and syncDBClustersStatus:
-- each pair is one definition over the record Inventory.Database.Database of what tells the copies
-- apart, and Inventory.Reconcile has both.
--
-- Bounds. ParseInt keeps the bounds of 64 bits. The loop of stopRDSController recurses on the
-- retries that are left. A paginator is a finite tree of pages, which may depend on the answers of
-- the server, and the loop over its pages recurses on it. A password's loop runs nine rounds, and
-- Shuffle one round per index: both are structural, so nothing runs on fuel. Times are the texts
-- that they print as. A secret's bytes are a text.
--
-- Not modelled: logging; the wrappers of the AWS SDK (controllers/rds); the scheme, the flags'
-- parsing and the logger in main.go; the parts of SetupWithManager that register the controllers
-- and their watches; generated deep copies. Files are read and decoded by parameters.
-- strings.ToLower is modelled on ASCII, in which RDS writes its identifiers. The API server,
-- controller-runtime, the operator-lib and the UUIDs are parameters, and what is relied on of them
-- is in K8s.Meta, Connection.Written, Instance.Laws, Provider.Registered, RdsUtils.Passwords and
-- DbUtils.Password.
pub mod Prelude
pub mod DbUtils
pub mod Go
pub mod K8s
pub mod Ack
pub mod RdsUtils
pub mod Crd
pub mod Connection
pub mod Instance
pub mod Inventory
pub mod Provider
pub mod Main
mod Tests
