-- ===== src/Connection/Objects/Entries.antt =====
-- What a connection's configmap and secret hold, and what a service without an engine leads to.
use rds_dbaas_operator.Prelude.{
  ℕ, String, ◌≡◌, refl, ◌==◌, Option, none, some, [], ◌∷◌, Dict, lookup, lookup-insert, arith,
  if◌then◌else◌,
}
use rds_dbaas_operator.Go.Strconv.{ℤ, pos, format_int}
use rds_dbaas_operator.K8s.{ConfigMap}
use rds_dbaas_operator.DbUtils.Engine.{generate_binding_type}
use rds_dbaas_operator.DbUtils.Engine.Families.{port_of, database_of, engine-IsFamily}
use rds_dbaas_operator.Connection.Objects.{
  set_config_map, insert_some, database_entry, port_entry, database_provider,
}

abbrev pub or_else : Option String → Option String → Option String
or_else none o = o
or_else (some v) o = some v

or_else-none : (o : Option String) → or_else o none ≡ o
or_else-none none = refl
or_else-none (some v) = refl

-- The text of a port.
abbrev port_text : Option ℤ → Option String
port_text none = none
port_text (some p) = some (format_int p)

lookup-insert_some :
    (key k : String) (o : Option String) (m : Dict String)
    → lookup k (insert_some key o m) ≡ (if key == k then or_else o (lookup k m) else lookup k m)
unfolding insert_some
lookup-insert_some key k none m = ground arith
lookup-insert_some key k (some v) m = rw lookup-insert refl

-- The text of a default port.
abbrev pub default_port_text : Option ℕ → Option String
default_port_text none = none
default_port_text (some p) = some (format_int (pos p))

port_entry_lem :
    (engine : String) (port : Option ℤ)
    → port_entry (some engine) port
      ≡ or_else (port_text port) (default_port_text (port_of (generate_binding_type engine)))
unfolding port_entry
port_entry_lem engine (some p) = refl
port_entry_lem engine none = rw (← (engine-IsFamily engine).0.0) (ground arith)

database_entry_lem :
    (engine : String) (db_name : Option String)
    → database_entry (some engine) db_name
      ≡ or_else db_name (database_of (generate_binding_type engine))
unfolding database_entry
database_entry_lem engine (some d) = refl
database_entry_lem engine none = (engine-IsFamily engine).0.1

-- The configmap of a connection to a service with an engine and a host has the engine's binding
-- type, the host and the provider's name; its port and its database are the service's or, where
-- the service has none, those that clients of the binding type use by default.
pub set_config_map-entries :
    (engine host : String) (db_name : Option String) (port : Option ℤ) (cm : ConfigMap)
    → (m : Dict String) × (set_config_map (some engine) db_name (some host) port cm
        ≡ some (record cm { entries = some m }))
      × (lookup "type" m ≡ some (generate_binding_type engine))
      × (lookup "provider" m ≡ some database_provider)
      × (lookup "host" m ≡ some host)
      × (lookup "port" m
          ≡ or_else (port_text port) (default_port_text (port_of (generate_binding_type engine))))
      × (lookup "database" m ≡ or_else db_name (database_of (generate_binding_type engine)))
unfolding set_config_map lookup
set_config_map-entries engine host db_name port cm = (
  insert_some "port" (port_entry (some engine) port) (
      insert_some "database" (database_entry (some engine) db_name) (
        ("type", generate_binding_type engine)
        ∷ ("provider", database_provider)
        ∷ ("host", host)
        ∷ [])),
  refl,
  simp lookup-insert_some,
  simp lookup-insert_some,
  simp lookup-insert_some,
  simp (lookup-insert_some, or_else-none, port_entry_lem),
  simp (lookup-insert_some, or_else-none, database_entry_lem),
)
