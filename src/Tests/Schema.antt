-- ===== src/Tests/Schema.antt =====
-- A start that meets an error and then a database that conforms, and the bootstrap of an empty one.
use k8s_stack_keycloak_api_k.Base.{
  ℕ, zero, suc, ◌≤◌, ◌≡◌, ◌↔◌, refl, Str, codes, true, false, some, [], ◌∷◌, list_beq, Result, ok,
  err,
}
use k8s_stack_keycloak_api_k.Database.Session.{Dialect, postgresql}
use k8s_stack_keycloak_api_k.Database.Schema.{
  ColumnType, string, datetime_with_timezone, json, boolean, integer, Sqlalchemy, verify_schema,
}
use k8s_stack_keycloak_api_k.Database.Schema.Conforms.{Conforms, verify_schema_iff}
use k8s_stack_keycloak_api_k.Database.Schema.Startup.{
  url, psycopg, Seen, catalog, operational_error, StartError, operational, Engine, empty_catalog,
  create_engine_and_session_factory,
}
use k8s_stack_keycloak_api_k.Database.Schema.Startup.Bounds.{create_engine_bounds}
use k8s_stack_keycloak_api_k.Database.Schema.Bootstrap.{
  api_keys_table, schema_version_table, Creates, bootstrap_schema,
}
use k8s_stack_keycloak_api_k.Database.Schema.Bootstrap.Outcomes.{bootstrap_schema_lem, declared}

abbrev type_text : Dialect → ColumnType → Str
type_text dialect (string n) = codes "VARCHAR"
type_text dialect datetime_with_timezone = codes "TIMESTAMP WITH TIME ZONE"
type_text dialect json = codes "JSON"
type_text dialect boolean = codes "BOOLEAN"
type_text dialect integer = codes "INTEGER"

-- a library that creates no tables, whose texts of types serve the other
abbrev texts_only : Sqlalchemy
texts_only = record { compile = type_text; create_all = λ dialect c. some c }

abbrev pub sql : Sqlalchemy
sql = record {
  compile = type_text;
  create_all = λ dialect c. some (record {
    tables = api_keys_table texts_only ∷ schema_version_table texts_only ∷ [];
    versions = [];
  });
}

pub documented : Creates sql
unfolding api_keys_table schema_version_table
documented = record { integer_text = refl; creates = refl }

verify_schema_iff_example :
    (verify_schema sql postgresql (declared sql) ≡ ok tt) ↔ Conforms sql postgresql (declared sql)
verify_schema_iff_example = verify_schema_iff sql postgresql (declared sql)

abbrev errors : ℕ → Seen
errors n = operational_error

abbrev later : ℕ → Seen
later zero = operational_error
later (suc n) = catalog (declared sql)

abbrev given_up : Engine
given_up = record { attempts = 3; seconds_slept = 2; disposed = true }

gives_up :
    create_engine_and_session_factory sql errors (url psycopg) false
    ≡ (err operational, some given_up)
unfolding create_engine_and_session_factory list_beq codes
gives_up = refl

create_engine_bounds_example :
    (given_up.attempts ≤ 3)
    × (given_up.seconds_slept ≤ 2)
    × ((given_up.disposed ≡ false)
        ↔ (◌≡◌ {A = Result StartError (Unit {0})} (err operational) (ok tt)))
create_engine_bounds_example =
    create_engine_bounds sql errors (url psycopg) false (err operational) given_up gives_up

bootstrap_schema_lem_example :
    ((bootstrap_schema sql true psycopg (empty_catalog sql)).0.0 ≡ ok tt
      → Conforms sql postgresql (bootstrap_schema sql true psycopg (empty_catalog sql)).0.1)
    × ((e : StartError)
        → (bootstrap_schema sql true psycopg (empty_catalog sql)).0.0 ≡ err e
        → (bootstrap_schema sql true psycopg (empty_catalog sql)).0.1 ≡ empty_catalog sql)
    × ((engine : Engine)
        → (bootstrap_schema sql true psycopg (empty_catalog sql)).1 ≡ some engine
        → engine.disposed ≡ true)
bootstrap_schema_lem_example = bootstrap_schema_lem sql true psycopg (empty_catalog sql)
