-- ===== src/Inventory/Attempts.antt =====
-- How the calls end whose error stops a reconciliation of an inventory.
use rds_dbaas_operator.Prelude.{String, ◌≡◌, Option, none, some, arith}
use rds_dbaas_operator.K8s.{Error, Result, ok, err, stop, go}
use rds_dbaas_operator.Inventory.Run.{Run, return_error}
use rds_dbaas_operator.Inventory.Server.{Server}
use rds_dbaas_operator.Inventory.Install.{attempt}
use rds_dbaas_operator.Inventory.Database.{Database}
use rds_dbaas_operator.Inventory.Adopt.{or_get_error}

module _ {S : Type 0} (server : Server S) (run : Run) where
  -- The variables that an error leaves as they were.
  pub record Keeps (run' : Run) : Type 0 where
    pub inventory : run'.inventory ≡ run.inventory
    pub sync_reset : run'.sync_reset ≡ run.sync_reset

  pub attempt-go :
      (message : String) (x : Option Error × S) {u : Unit {0}} {t : S}
      → attempt server message run x ≡ (go u, t)
      → x ≡ (none, t)
  unfolding attempt
  attempt-go message (some e, s) h = ground arith
  attempt-go message (none, s) h = ground arith

  pub attempt-stop :
      (message : String) (x : Option Error × S) {run' : Run} {t : S}
      → attempt server message run x ≡ (stop run', t)
      → Keeps run'
  unfolding attempt return_error
  attempt-stop message (some e, s) h = record {
    inventory = ground arith;
    sync_reset = ground arith;
  }
  attempt-stop message (none, s) h = record { inventory = ground arith; sync_reset = ground arith }

  module _ {D A : Type 0} (database : Database D) where
    pub or_get_error-go :
        (x : Result A × S) {a : A} {t : S}
        → or_get_error server database run x ≡ (go a, t)
        → x ≡ (ok a, t)
    unfolding or_get_error
    or_get_error-go (err e, s) h = ground arith
    or_get_error-go (ok a, s) h = ground arith

    pub or_get_error-stop :
        (x : Result A × S) {run' : Run} {t : S}
        → or_get_error server database run x ≡ (stop run', t)
        → Keeps run'
    unfolding or_get_error return_error
    or_get_error-stop (err e, s) h = record { inventory = ground arith; sync_reset = ground arith }
    or_get_error-stop (ok a, s) h = record { inventory = ground arith; sync_reset = ground arith }
