-- ===== src/Database/Schema/Bootstrap.antt =====
-- `bootstrap_schema`: an empty database is initialized, another one is only verified.
pub mod Outcomes
use k8s_stack_keycloak_api_k.Base.{
  ℕ, suc, ◌≡◌, Str, codes, Bool, true, false, Option, none, some, List, [], ◌∷◌, map, ◌==◌, str_eq,
  is_empty, if◌then◌else◌, Result, ok, err,
}
use k8s_stack_keycloak_api_k.Database.Session.{Dialect, postgresql}
use k8s_stack_keycloak_api_k.Database.Schema.{
  ModelColumn, Column, Table, Catalog, Sqlalchemy, SchemaFault, integer, api_keys, version_table,
  schema_version, api_key_columns, verify_schema,
}
use k8s_stack_keycloak_api_k.Database.Schema.Startup.{
  psycopg, StartError, unsupported, schema, operational, failed, Engine, new_engine, dispose,
  empty_catalog,
}

-- the body of `with engine.begin()`: what it raised, and the catalog that it wrote
abbrev pub Written : Type 0
Written = Result StartError (Unit {0}) × Catalog

module _ (sql : Sqlalchemy) where
  verified : Result SchemaFault (Unit {0}) → Catalog → Written
  verified (ok _) c = (ok tt, c)
  verified (err fault) c = (err (schema fault), c)

  -- the catalog with the row that `insert(SchemaVersion)` adds
  abbrev pub with_version : Catalog → Catalog
  with_version c = record c { versions = schema_version ∷ c.versions }

  unfoldable pub initialize : Option Catalog → Catalog → Written
  unfolding verified
  initialize none before = (err failed, before)
  initialize (some made) before =
      verified (verify_schema sql postgresql (with_version made)) (with_version made)

  unfoldable pub bootstrap_body : Catalog → Written
  unfolding initialize verified
  bootstrap_body c =
      if is_empty c.tables
      then initialize (sql.create_all postgresql c) c
      else verified (verify_schema sql postgresql c) c

  -- The transaction is committed, or rolled back if an exception leaves it.
  in_transaction : Catalog → Written → Written
  in_transaction before (ok _, after) = (ok tt, after)
  in_transaction before (err e, after) = (err e, before)

  -- `begun` says whether the connection, the transaction and its lock were had. The engine is
  -- disposed of in any case.
  unfoldable pub bootstrap_schema : Bool → Str → Catalog → Written × Option Engine
  unfolding in_transaction bootstrap_body
  bootstrap_schema begun drivername c =
      if drivername == psycopg
      then (
        if begun then in_transaction c (bootstrap_body c) else (err operational, c),
        some (dispose new_engine),
      )
      else ((err unsupported, c), none)

-- The tables that the models declare, as PostgreSQL reports them; a unique constraint has an index.
module _ (sql : Sqlalchemy) where
  declared_column : ModelColumn → Column
  declared_column m = record {
    name = m.name;
    compiled = sql.compile postgresql m.type_of;
    nullable = m.nullable;
  }

  unfoldable pub api_keys_table : Table
  unfolding declared_column api_key_columns
  api_keys_table = record {
    name = api_keys;
    columns = map declared_column api_key_columns;
    pk = codes "id" ∷ [];
    unique = (codes "key_hash" ∷ []) ∷ [];
    indexes = (codes "key_hash" ∷ []) ∷ (codes "user_id" ∷ []) ∷ [];
  }

  -- `SchemaVersion`
  unfoldable pub schema_version_table : Table
  schema_version_table = record {
    name = version_table;
    columns =
        record {
          name = codes "version";
          compiled = sql.compile postgresql integer;
          nullable = false;
        }
        ∷ [];
    pk = codes "version" ∷ [];
    unique = [];
    indexes = [];
  }

  -- What `create_all` is documented to do on a database without tables, and the text that
  -- PostgreSQL has for an integer.
  pub record Creates : Type 0 where
    pub integer_text : sql.compile postgresql integer ≡ codes "INTEGER"
    pub creates :
        sql.create_all postgresql (empty_catalog sql)
        ≡ some (record { tables = api_keys_table ∷ schema_version_table ∷ []; versions = [] })
