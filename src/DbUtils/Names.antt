-- ===== src/DbUtils/Names.antt =====
-- controllers/db_utils.go: the engines' names, the default engine versions and the table of the
-- regions' availability zones.
use rds_dbaas_operator.Prelude.{String, List, [], ◌∷◌, Dict}

abbrev pub postgres : String
postgres = "postgres"

abbrev pub aurora_postgresql : String
aurora_postgresql = "aurora-postgresql"

abbrev pub mysql : String
mysql = "mysql"

abbrev pub mariadb : String
mariadb = "mariadb"

abbrev pub aurora : String
aurora = "aurora"

abbrev pub aurora_mysql : String
aurora_mysql = "aurora-mysql"

abbrev pub oracle_se2 : String
oracle_se2 = "oracle-se2"

abbrev pub oracle_se2_cdb : String
oracle_se2_cdb = "oracle-se2-cdb"

abbrev pub oracle_ee : String
oracle_ee = "oracle-ee"

abbrev pub oracle_ee_cdb : String
oracle_ee_cdb = "oracle-ee-cdb"

abbrev pub custom_oracle_ee : String
custom_oracle_ee = "custom-oracle-ee"

abbrev pub sqlserver_ee : String
sqlserver_ee = "sqlserver-ee"

abbrev pub sqlserver_se : String
sqlserver_se = "sqlserver-se"

abbrev pub sqlserver_ex : String
sqlserver_ex = "sqlserver-ex"

abbrev pub sqlserver_web : String
sqlserver_web = "sqlserver-web"

abbrev pub custom_sqlserver_ee : String
custom_sqlserver_ee = "custom-sqlserver-ee"

abbrev pub custom_sqlserver_se : String
custom_sqlserver_se = "custom-sqlserver-se"

abbrev pub custom_sqlserver_web : String
custom_sqlserver_web = "custom-sqlserver-web"

abbrev pub postgres_engine_version : String
postgres_engine_version = "13.7"

abbrev pub sqlserver_engine_version : String
sqlserver_engine_version = "15.00.4236.7.v1"

abbrev pub oracle_engine_version : String
oracle_engine_version = "19.0.0.0.ru-2022-10.rur-2022-10.r1"

abbrev pub mysql_engine_version : String
mysql_engine_version = "8.0.28"

abbrev pub mariadb_engine_version : String
mariadb_engine_version = "10.6.10"

-- Every engine that the operator knows.
abbrev pub engines : List String
engines =
    postgres ∷ aurora_postgresql ∷ mysql ∷ mariadb ∷ aurora ∷ aurora_mysql ∷ oracle_se2
    ∷ oracle_se2_cdb ∷ oracle_ee ∷ oracle_ee_cdb ∷ custom_oracle_ee ∷ sqlserver_ee ∷ sqlserver_se
    ∷ sqlserver_ex ∷ sqlserver_web ∷ custom_sqlserver_ee ∷ custom_sqlserver_se
    ∷ custom_sqlserver_web ∷ []

abbrev pub availability_zones : Dict (List String)
availability_zones =
    ("us-east-2", ("us-east-2a" ∷ "us-east-2b" ∷ "us-east-2c" ∷ []))
    ∷ (
      "us-east-1",
      ("us-east-1a" ∷ "us-east-1b" ∷ "us-east-1c" ∷ "us-east-1d" ∷ "us-east-1e" ∷ "us-east-1f"
          ∷ []),
    )
    ∷ ("us-west-1", ("us-west-1a" ∷ "us-west-1b" ∷ "us-west-1c" ∷ []))
    ∷ ("us-west-2", ("us-west-2a" ∷ "us-west-2b" ∷ "us-west-2c" ∷ "us-west-2d" ∷ []))
    ∷ ("af-south-1", ("af-south-1a" ∷ "af-south-1b" ∷ "af-south-1c" ∷ []))
    ∷ ("ap-east-1", ("ap-east-1a" ∷ "ap-east-1b" ∷ "ap-east-1c" ∷ []))
    ∷ ("ap-south-2", ("ap-south-2a" ∷ "ap-south-2b" ∷ "ap-south-2c" ∷ []))
    ∷ ("ap-southeast-3", ("ap-southeast-3a" ∷ "ap-southeast-3b" ∷ "ap-southeast-3c" ∷ []))
    ∷ ("ap-south-1", ("ap-south-1a" ∷ "ap-south-1b" ∷ "ap-south-1c" ∷ []))
    ∷ ("ap-northeast-3", ("ap-northeast-3a" ∷ "ap-northeast-3b" ∷ "ap-northeast-3c" ∷ []))
    ∷ (
      "ap-northeast-2",
      ("ap-northeast-2a" ∷ "ap-northeast-2b" ∷ "ap-northeast-2c" ∷ "ap-northeast-2d" ∷ []),
    )
    ∷ ("ap-southeast-1", ("ap-southeast-1a" ∷ "ap-southeast-1b" ∷ "ap-southeast-1c" ∷ []))
    ∷ ("ap-southeast-2", ("ap-southeast-2a" ∷ "ap-southeast-2b" ∷ "ap-southeast-2c" ∷ []))
    ∷ (
      "ap-northeast-1",
      ("ap-northeast-1a" ∷ "ap-northeast-1b" ∷ "ap-northeast-1c" ∷ "ap-northeast-1d" ∷ []),
    )
    ∷ ("ca-central-1", ("ca-central-1a" ∷ "ca-central-1b" ∷ "ca-central-1c" ∷ "ca-central-1d" ∷ []))
    ∷ ("eu-central-1", ("eu-central-1a" ∷ "eu-central-1b" ∷ "eu-central-1c" ∷ []))
    ∷ ("eu-west-1", ("eu-west-1a" ∷ "eu-west-1b" ∷ "eu-west-1c" ∷ []))
    ∷ ("eu-west-2", ("eu-west-2a" ∷ "eu-west-2b" ∷ "eu-west-2c" ∷ []))
    ∷ ("eu-south-1", ("eu-south-1a" ∷ "eu-south-1b" ∷ "eu-south-1c" ∷ []))
    ∷ ("eu-west-3", ("eu-west-3a" ∷ "eu-west-3b" ∷ "eu-west-3c" ∷ []))
    ∷ ("eu-south-2", ("eu-south-2a" ∷ "eu-south-2b" ∷ "eu-south-2c" ∷ []))
    ∷ ("eu-north-1", ("eu-north-1a" ∷ "eu-north-1b" ∷ "eu-north-1c" ∷ []))
    ∷ ("eu-central-2", ("eu-central-2a" ∷ "eu-central-2b" ∷ "eu-central-2c" ∷ []))
    ∷ ("me-south-1", ("me-south-1a" ∷ "me-south-1b" ∷ "me-south-1c" ∷ []))
    ∷ ("me-central-1", ("me-central-1a" ∷ "me-central-1b" ∷ "me-central-1c" ∷ []))
    ∷ ("sa-east-1", ("sa-east-1a" ∷ "sa-east-1b" ∷ "sa-east-1c" ∷ []))
    ∷ ("us-gov-east-1", ("us-gov-east-1a" ∷ "us-gov-east-1b" ∷ "us-gov-east-1c" ∷ []))
    ∷ ("us-gov-west-1", ("us-gov-west-1a" ∷ "us-gov-west-1b" ∷ "us-gov-west-1c" ∷ []))
    ∷ []
