-- ===== src/Database/Schema.antt =====
-- The schema part of config/database.py: what a database must look like, starting the service on it,
-- and the bootstrap of an empty one.
pub mod Conforms
pub mod Startup
pub mod Bootstrap
use k8s_stack_keycloak_api_k.Base.{
  ℕ, zero, suc, ◌+◌, Str, codes, Bool, true, false, not, ◌&&◌, ◌||◌, Option, none, some, List, [],
  ◌∷◌, map, ◌==◌, nat_eq, str_eq, texts_eq, bool_eq, same_set, any, all, filter, find, head?,
  is_empty, if◌then◌else◌, Result, ok, err, ◌>>=◌, ◌>>◌, require,
}
use k8s_stack_keycloak_api_k.Database.Session.{Dialect, postgresql, sqlite}

-- the types of mapped columns
pub data ColumnType : Type 0 where
  string : ℕ → ColumnType
  datetime_with_timezone json boolean integer : ColumnType

-- a mapped column of `ApiKey` or `SchemaVersion`
pub record ModelColumn : Type 0 where
  pub name : Str
  pub type_of : ColumnType
  pub nullable : Bool

-- a column as the inspector reports it, its type compiled for the dialect
pub record Column : Type 0 where
  pub name : Str
  pub compiled : Str
  pub nullable : Bool

-- What the inspector reports of a table; a constraint is the names of its columns.
pub record Table : Type 0 where
  pub name : Str
  pub columns : List Column
  pub pk : List Str
  pub unique : List (List Str)
  pub indexes : List (List Str)

-- what a connection sees: the tables, and the rows of `bridge_schema_version`
pub record Catalog : Type 0 where
  pub tables : List Table
  pub versions : List ℕ

-- What SQLAlchemy does: the text of a type, and `Base.metadata.create_all`, which may raise.
pub record Sqlalchemy : Type 0 where
  pub compile : Dialect → ColumnType → Str
  pub create_all : Dialect → Catalog → Option Catalog

abbrev pub api_keys : Str
api_keys = codes "api_keys"

-- `_SCHEMA_VERSION_TABLE`
abbrev pub version_table : Str
version_table = codes "bridge_schema_version"

abbrev pub schema_version : ℕ
schema_version = 3

-- `_EXPECTED_TABLES`
unfoldable pub expected_tables : List Str
expected_tables = api_keys ∷ version_table ∷ []

-- `_EXPECTED_API_KEY_COLUMNS`
unfoldable pub expected_columns : List Str
expected_columns =
    codes "id"
    ∷ codes "key_hash"
    ∷ codes "key_prefix"
    ∷ codes "name"
    ∷ codes "user_id"
    ∷ codes "created_by_user_id"
    ∷ codes "created_at"
    ∷ codes "permissions"
    ∷ codes "expires_at"
    ∷ codes "revoked"
    ∷ []

column : Str → ColumnType → Bool → ModelColumn
column name type_of nullable = record { name = name; type_of = type_of; nullable = nullable }

-- `ApiKey.__table__.columns`
unfoldable pub api_key_columns : List ModelColumn
unfolding column
api_key_columns =
    column (codes "id") (string 36) false
    ∷ column (codes "key_hash") (string 64) false
    ∷ column (codes "key_prefix") (string 12) false
    ∷ column (codes "name") (string 255) false
    ∷ column (codes "user_id") (string 36) false
    ∷ column (codes "created_by_user_id") (string 36) true
    ∷ column (codes "created_at") datetime_with_timezone false
    ∷ column (codes "permissions") json false
    ∷ column (codes "expires_at") datetime_with_timezone false
    ∷ column (codes "revoked") boolean false
    ∷ []

-- the messages of `DatabaseSchemaError`
pub data SchemaFault : Type 0 where
  other_tables other_columns other_version_table other_types other_constraints : SchemaFault
  other_version : SchemaFault

-- the columns of a table that the inspector finds
unfoldable pub get_table : Str → Catalog → Option Table
get_table name c = find (λ (t : Table). t.name == name) c.tables

unfoldable pub get_columns : Str → Catalog → List Column
unfolding get_table
get_columns name c = elim (get_table name c) [ none ↦ [] | some t ↦ t.columns ]

unfoldable pub get_pk : Str → Catalog → List Str
unfolding get_table
get_pk name c = elim (get_table name c) [ none ↦ [] | some t ↦ t.pk ]

unfoldable pub get_unique : Str → Catalog → List (List Str)
unfolding get_table
get_unique name c = elim (get_table name c) [ none ↦ [] | some t ↦ t.unique ]

unfoldable pub get_indexes : Str → Catalog → List (List Str)
unfolding get_table
get_indexes name c = elim (get_table name c) [ none ↦ [] | some t ↦ t.indexes ]

abbrev pub column_names : List Column → List Str
column_names columns = map (λ (c : Column). c.name) columns

module _ (sql : Sqlalchemy) where
  unfoldable pub same_column : ModelColumn → Option Column → Bool
  same_column m none = false
  same_column m (some actual) =
      actual.compiled == sql.compile postgresql m.type_of && (actual.nullable == m.nullable)

  -- The names of a table's columns differ, so that `columns[name]` is the first with the name.
  unfoldable pub column_matches : List Column → ModelColumn → Bool
  unfolding same_column
  column_matches columns m = same_column m (find (λ (c : Column). c.name == m.name) columns)

  unfoldable pub version_column_ok : Option Column → Bool
  version_column_ok none = false
  version_column_ok (some c) = c.compiled == codes "INTEGER" && not c.nullable

  unfoldable pub version_table_ok : Catalog → Bool
  unfolding version_column_ok get_columns get_pk
  version_table_ok c =
      version_column_ok (head? (get_columns version_table c))
      && (get_pk version_table c == (codes "version" ∷ []))

  unfoldable pub types_ok : Catalog → Bool
  unfolding column_matches get_columns api_key_columns
  types_ok c = all (column_matches (get_columns api_keys c)) api_key_columns

  unfoldable pub constraints_ok : Catalog → Bool
  unfolding get_pk get_unique get_indexes
  constraints_ok c =
      get_pk api_keys c == (codes "id" ∷ [])
      && (any (λ u. u == (codes "key_hash" ∷ [])) (get_unique api_keys c)
          && any (λ i. i == (codes "user_id" ∷ [])) (get_indexes api_keys c))

  -- the checks on PostgreSQL only
  unfoldable pub verify_dialect : Dialect → Catalog → Result SchemaFault (Unit {0})
  unfolding version_table_ok types_ok constraints_ok
  verify_dialect postgresql c = do
    require (version_table_ok c) other_version_table
    require (types_ok c) other_types
    require (constraints_ok c) other_constraints
  verify_dialect sqlite c = ok tt

  unfoldable pub tables_ok : Catalog → Bool
  unfolding same_set expected_tables
  tables_ok c =
      same_set
        (filter (λ name. not (name == codes "sqlite_sequence"))
          (map (λ (t : Table). t.name) c.tables))
        expected_tables

  unfoldable pub columns_ok : Catalog → Bool
  unfolding same_set get_columns expected_columns
  columns_ok c =
      same_set (column_names (get_columns api_keys c)) expected_columns
      && same_set (column_names (get_columns version_table c)) (codes "version" ∷ [])

  -- `_verify_schema`
  unfoldable pub verify_schema : Dialect → Catalog → Result SchemaFault (Unit {0})
  unfolding tables_ok columns_ok verify_dialect
  verify_schema dialect c = do
    require (tables_ok c) other_tables
    require (columns_ok c) other_columns
    verify_dialect dialect c
    require (c.versions == (schema_version ∷ [])) other_version
