-- ===== src/DbUtils/Engine.antt =====
-- controllers/db_utils.go: what the operator derives from an engine's name.
pub mod Cases
pub mod Families
pub mod Abbreviation
pub mod Zones
use rds_dbaas_operator.Prelude.{
  ℕ, String, Bool, ◌||◌, ◌==◌, Option, none, some, List, [], ◌∷◌, Dict, switch, one_of, lookup,
  ◌<>◌, if◌then◌else◌,
}
use rds_dbaas_operator.DbUtils.Names.{
  postgres, aurora_postgresql, mysql, mariadb, aurora, aurora_mysql, oracle_se2, oracle_se2_cdb,
  oracle_ee, oracle_ee_cdb, custom_oracle_ee, sqlserver_ee, sqlserver_se, sqlserver_ex,
  sqlserver_web, custom_sqlserver_ee, custom_sqlserver_se, custom_sqlserver_web,
  postgres_engine_version, sqlserver_engine_version, oracle_engine_version, mysql_engine_version,
  mariadb_engine_version, availability_zones,
}

-- The case labels that the switches below share.
abbrev postgres_labels : List String
postgres_labels = postgres ∷ aurora_postgresql ∷ []

abbrev mysql_labels : List String
mysql_labels = mysql ∷ mariadb ∷ aurora ∷ aurora_mysql ∷ []

abbrev oracle_labels : List String
oracle_labels = oracle_se2 ∷ oracle_se2_cdb ∷ oracle_ee ∷ oracle_ee_cdb ∷ custom_oracle_ee ∷ []

abbrev sqlserver_labels : List String
sqlserver_labels =
    sqlserver_ee ∷ sqlserver_se ∷ sqlserver_ex ∷ sqlserver_web ∷ custom_sqlserver_ee
    ∷ custom_sqlserver_se ∷ custom_sqlserver_web ∷ []

unfoldable pub generate_username : String → String
generate_username engine =
    if engine == "postgres" || engine == "aurora-postgresql" then "postgres" else "admin"

unfoldable pub generate_db_name : String → Option String
generate_db_name engine =
    switch engine
      ((postgres_labels, some "postgres")
        ∷ (mysql_labels, some "mydb")
        ∷ (oracle_labels, some "ORCL")
        ∷ [])
      none

unfoldable pub generate_binding_type : String → String
generate_binding_type engine =
    switch engine
      ((postgres_labels, "postgresql")
        ∷ (mysql_labels, "mysql")
        ∷ (oracle_labels, "oracle")
        ∷ (sqlserver_labels, "sqlserver")
        ∷ [])
      ""

unfoldable pub get_default_db_name : String → Option String
get_default_db_name engine =
    switch engine
      ((postgres_labels, some "postgres")
        ∷ (sqlserver_labels, some "master")
        ∷ (oracle_labels, some "ORCL")
        ∷ (mysql_labels, some "mysql")
        ∷ [])
      none

-- `switch *engine` of getDefaultEngineVersion
pub default_version_of : String → Option String
default_version_of engine =
    switch engine
      ((postgres ∷ [], some postgres_engine_version)
        ∷ (
          sqlserver_ee ∷ sqlserver_se ∷ sqlserver_ex ∷ sqlserver_web ∷ [],
          some sqlserver_engine_version,
        )
        ∷ (oracle_se2 ∷ oracle_se2_cdb ∷ [], some oracle_engine_version)
        ∷ (mysql ∷ [], some mysql_engine_version)
        ∷ (mariadb ∷ [], some mariadb_engine_version)
        ∷ [])
      none

unfoldable pub get_default_engine_version : Option String → Option String
unfolding default_version_of
get_default_engine_version none = none
get_default_engine_version (some engine) = default_version_of engine

-- The loop over a region's zones, `for _, az := range azs`.
pub find_zone : String → List String → Option String
find_zone zone [] = none
find_zone zone (az ∷ azs) = if az == zone then some az else find_zone zone azs

pub zone_of : String → Option (List String) → Option String
zone_of zone none = none
zone_of zone (some azs) = find_zone zone azs

unfoldable pub get_default_availability_zone : String → Option String
get_default_availability_zone region = zone_of (region <> "a") (lookup region availability_zones)

unfoldable pub get_default_db_port : String → Option ℕ
get_default_db_port engine =
    switch engine
      ((postgres_labels, some 5432)
        ∷ (sqlserver_labels, some 1433)
        ∷ (oracle_labels, some 1521)
        ∷ (mysql_labels, some 3306)
        ∷ [])
      none

-- `switch *engine` of getDBEngineAbbreviation
abbrev pub abbreviation_of : String → String
abbreviation_of engine =
    switch engine
      ((mysql ∷ [], "mysql-")
        ∷ (mariadb ∷ [], "mariadb-")
        ∷ (aurora ∷ [], "aurora-")
        ∷ (aurora_mysql ∷ [], "aurora-mysql-")
        ∷ (postgres ∷ [], "postgres-")
        ∷ (aurora_postgresql ∷ [], "aurora-postgres-")
        ∷ (sqlserver_ee ∷ [], "mssql-ee-")
        ∷ (sqlserver_se ∷ [], "mssql-se-")
        ∷ (sqlserver_ex ∷ [], "mssql-ex-")
        ∷ (sqlserver_web ∷ [], "mssql-web-")
        ∷ (custom_sqlserver_ee ∷ [], "cust-mssql-ee-")
        ∷ (custom_sqlserver_se ∷ [], "cust-mssql-se-")
        ∷ (custom_sqlserver_web ∷ [], "cust-mssql-web-")
        ∷ (oracle_se2 ∷ [], "oracle-se2-")
        ∷ (oracle_se2_cdb ∷ [], "oracle-se2-cdb-")
        ∷ (oracle_ee ∷ [], "oracle-ee-")
        ∷ (oracle_ee_cdb ∷ [], "oracle-ee-cdb-")
        ∷ (custom_oracle_ee ∷ [], "cust-oracle-ee-")
        ∷ [])
      ""

unfoldable pub get_db_engine_abbreviation : Option String → String
get_db_engine_abbreviation none = ""
get_db_engine_abbreviation (some engine) = abbreviation_of engine
