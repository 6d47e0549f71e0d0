-- ===== src/Inventory/Reset/Rounds.antt =====
-- What the second half of adoptDBInstances and adoptDBClusters has done when no database is left to
-- wait for.
use rds_dbaas_operator.Prelude.{◌≡◌, ◌⊎◌, none, some, List, [], ◌∷◌, Dict}
use rds_dbaas_operator.Inventory.Run.{Credentials, Run}
use rds_dbaas_operator.Inventory.Server.{Server, DatabaseClient, AwsDatabase}
use rds_dbaas_operator.Inventory.Database.{Database}
use rds_dbaas_operator.Inventory.Reset.{candidate}
use rds_dbaas_operator.Inventory.Reset.Secured.{Secured}

module _ {S D : Type 0} (server : Server S) (database : Database D) (client : DatabaseClient S D)
    (c : Credentials) (run : Run) where
  -- One round of the loop: the database is left out, or it is secured.
  abbrev pub Passed : Dict AwsDatabase → D → S → S → Type 0
  Passed known d s t =
      ((candidate server database known d ≡ none) × (s ≡ t))
      ⊎ ((a : AwsDatabase) × (candidate server database known d ≡ some a)
          × Secured server database client c run a d s t)

  -- The rounds, one behind the other.
  pub data Rounds (known : Dict AwsDatabase) : List D → S → S → Type 0 where
    idle : {s t : S} → s ≡ t → Rounds known [] s t
    round :
        {d : D} {ds : List D} {s u t : S}
        → Passed known d s u
        → Rounds known ds u t
        → Rounds known (d ∷ ds) s t
