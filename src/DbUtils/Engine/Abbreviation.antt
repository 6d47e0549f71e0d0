-- ===== src/DbUtils/Engine/Abbreviation.antt =====
-- The engines' abbreviations, which begin the generated names of instances and adopted resources.
use rds_dbaas_operator.Prelude.{
  String, ◌≡◌, ◌≢◌, refl, ◌∙◌, sym, ap, some, [], ◌∷◌, All, one_of, switch, false, arith,
  Bool-cases, inl, inr,
}
use rds_dbaas_operator.DbUtils.Names.{
  engines, postgres, aurora_postgresql, mysql, mariadb, aurora, aurora_mysql, oracle_se2,
  oracle_se2_cdb, oracle_ee, oracle_ee_cdb, custom_oracle_ee, sqlserver_ee, sqlserver_se,
  sqlserver_ex, sqlserver_web, custom_sqlserver_ee, custom_sqlserver_se, custom_sqlserver_web,
}
use rds_dbaas_operator.DbUtils.Engine.{get_db_engine_abbreviation}
use rds_dbaas_operator.DbUtils.Engine.Cases.{All-one_of, switch-default}

-- The engine that an abbreviation stands for.
engine_of : String → String
unfolding switch one_of
engine_of text =
    switch text
      (("mysql-" ∷ [], mysql)
        ∷ ("mariadb-" ∷ [], mariadb)
        ∷ ("aurora-" ∷ [], aurora)
        ∷ ("aurora-mysql-" ∷ [], aurora_mysql)
        ∷ ("postgres-" ∷ [], postgres)
        ∷ ("aurora-postgres-" ∷ [], aurora_postgresql)
        ∷ ("mssql-ee-" ∷ [], sqlserver_ee)
        ∷ ("mssql-se-" ∷ [], sqlserver_se)
        ∷ ("mssql-ex-" ∷ [], sqlserver_ex)
        ∷ ("mssql-web-" ∷ [], sqlserver_web)
        ∷ ("cust-mssql-ee-" ∷ [], custom_sqlserver_ee)
        ∷ ("cust-mssql-se-" ∷ [], custom_sqlserver_se)
        ∷ ("cust-mssql-web-" ∷ [], custom_sqlserver_web)
        ∷ ("oracle-se2-" ∷ [], oracle_se2)
        ∷ ("oracle-se2-cdb-" ∷ [], oracle_se2_cdb)
        ∷ ("oracle-ee-" ∷ [], oracle_ee)
        ∷ ("oracle-ee-cdb-" ∷ [], oracle_ee_cdb)
        ∷ ("cust-oracle-ee-" ∷ [], custom_oracle_ee)
        ∷ [])
      ""

abbrev Decodes : String → Type 0
Decodes engine = engine_of (get_db_engine_abbreviation (some engine)) ≡ engine

known-Decodes : All Decodes engines
unfolding engine_of get_db_engine_abbreviation switch one_of
known-Decodes = ground arith

abbreviation-other :
    (engine : String)
    → one_of engine engines ≡ false
    → get_db_engine_abbreviation (some engine) ≡ ""
unfolding get_db_engine_abbreviation one_of
abbreviation-other engine h = switch-default engine engines _ _ refl h

decode : (engine : String) → get_db_engine_abbreviation (some engine) ≢ "" → Decodes engine
decode engine h = elim (Bool-cases (one_of engine engines)) [
  | inl known ↦ All-one_of Decodes engine engines known-Decodes known
  | inr other ↦ absurd (h (abbreviation-other engine other))
]

-- Two engines with the same abbreviation, other than the empty one, are the same engine.
pub abbreviation-injective :
    (e f : String)
    → get_db_engine_abbreviation (some e) ≢ ""
    → get_db_engine_abbreviation (some e) ≡ get_db_engine_abbreviation (some f)
    → e ≡ f
abbreviation-injective e f h same =
    sym (decode e h) ∙ ap engine_of same ∙ decode f (λ none_f. h (same ∙ none_f))
