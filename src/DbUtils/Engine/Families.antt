-- ===== src/DbUtils/Engine/Families.antt =====
-- The four engine tables agree: each is a function of the binding type.
use rds_dbaas_operator.Prelude.{
  ℕ, String, ◌≡◌, refl, false, ◌==◌, Option, none, some, All, one_of, switch, if◌then◌else◌,
  Bool-cases, arith, inl, inr, ◌⊎◌, true, [], ◌∷◌,
}
use rds_dbaas_operator.DbUtils.Names.{engines}
use rds_dbaas_operator.DbUtils.Engine.{
  generate_username, generate_db_name, generate_binding_type, get_default_db_name,
  get_default_db_port,
}
use rds_dbaas_operator.DbUtils.Engine.Cases.{All-one_of, switch-default}

-- The port at which the servers of a binding type listen.
abbrev pub port_of : String → Option ℕ
port_of binding =
    if binding == "postgresql"
    then some 5432
    else if binding == "mysql"
    then some 3306
    else if binding == "oracle"
    then some 1521
    else if binding == "sqlserver"
    then some 1433
    else none

-- The database to which a client of a binding type connects by default.
abbrev pub database_of : String → Option String
database_of binding =
    if binding == "postgresql"
    then some "postgres"
    else if binding == "mysql"
    then some "mysql"
    else if binding == "oracle"
    then some "ORCL"
    else if binding == "sqlserver"
    then some "master"
    else none

-- The database that is created with an instance of a binding type.
abbrev pub created_of : String → Option String
created_of binding =
    if binding == "postgresql"
    then some "postgres"
    else if binding == "mysql"
    then some "mydb"
    else if binding == "oracle"
    then some "ORCL"
    else none

abbrev pub user_of : String → String
user_of binding = if binding == "postgresql" then "postgres" else "admin"

-- What the four tables say of an engine follows from its binding type.
abbrev pub IsFamily : String → Type 0
IsFamily engine =
    (get_default_db_port engine ≡ port_of (generate_binding_type engine))
    × (get_default_db_name engine ≡ database_of (generate_binding_type engine))
    × (generate_db_name engine ≡ created_of (generate_binding_type engine))
    × (generate_username engine ≡ user_of (generate_binding_type engine))

-- Opens the four tables and the switch.
engine_tables : Unit {0}
unfolding generate_binding_type get_default_db_port get_default_db_name generate_db_name
    generate_username switch one_of
engine_tables = tt

known-IsFamily : All IsFamily engines
unfolding engine_tables
known-IsFamily = ground arith

module _ (engine : String) (h : one_of engine engines ≡ false) where
  pub binding-other : generate_binding_type engine ≡ ""
  unfolding generate_binding_type one_of
  binding-other = switch-default engine engines _ _ refl h

  port-other : get_default_db_port engine ≡ none
  unfolding get_default_db_port one_of
  port-other = switch-default engine engines _ _ refl h

  database-other : get_default_db_name engine ≡ none
  unfolding get_default_db_name one_of
  database-other = switch-default engine engines _ _ refl h

  created-other : generate_db_name engine ≡ none
  unfolding generate_db_name one_of
  created-other = switch-default engine engines _ _ refl h

  username-other : generate_username engine ≡ "admin"
  unfolding generate_username one_of
  username-other = ground arith

  other-IsFamily : IsFamily engine
  other-IsFamily = rw (binding-other) (port-other, database-other, created-other, username-other)

-- The binding type is one of the four.
abbrev pub HasBinding : String → Type 0
HasBinding engine =
    one_of (generate_binding_type engine) ("postgresql" ∷ "mysql" ∷ "oracle" ∷ "sqlserver" ∷ [])
    ≡ true

-- The binding type of an engine of the list is one of the four; an engine that is not in the list
-- has none, and no port and no database.
abbrev pub IsBound : String → Type 0
IsBound engine =
    ((one_of engine engines ≡ true) × HasBinding engine)
    ⊎ ((one_of engine engines ≡ false)
        × (generate_binding_type engine ≡ "")
        × (get_default_db_port engine ≡ none)
        × (get_default_db_name engine ≡ none)
        × (generate_db_name engine ≡ none))

known-HasBinding : All HasBinding engines
unfolding engine_tables
known-HasBinding = ground arith

-- For every engine, known or not, the default port, the default database, the created database
-- and the master user's name are those of the engine's binding type. The binding type of an engine
-- of the list is one of the four; an engine that is not in the list has the empty binding type, no
-- port, and no default or created database.
pub engine-IsFamily : (engine : String) → IsFamily engine × IsBound engine
engine-IsFamily engine = elim (Bool-cases (one_of engine engines)) [
  | inl known ↦ (
    All-one_of IsFamily engine engines known-IsFamily known,
    inl (known, All-one_of HasBinding engine engines known-HasBinding known),
  )
  | inr other ↦ (
    other-IsFamily engine other,
    inr (
      other,
      binding-other engine other,
      port-other engine other,
      database-other engine other,
      created-other engine other,
    ),
  )
]
