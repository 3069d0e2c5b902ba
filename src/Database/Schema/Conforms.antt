-- ===== src/Database/Schema/Conforms.antt =====
-- Which databases `_verify_schema` accepts.
use k8s_stack_keycloak_api_k.Base.{
  and-true, ◌≡◌, ◌↔◌, refl, ap, ◌∙◌, Str, codes, true, false, not, Option, none, some, List, [],
  ◌∷◌, map, ◌==◌, ==_iff, nat_eq, str_eq, texts_eq, bool_eq, SameMembers, same_set, same_set_iff,
  any_equal_iff, all→All, All→all, All, All-mono, filter, find, head?, ok, require-ok_iff,
  then-ok_iff, require_tt_iff, arith,
}
use mathlib.Core.List.{Memᴰ}
use k8s_stack_keycloak_api_k.Database.Session.{Dialect, postgresql, sqlite}
use k8s_stack_keycloak_api_k.Database.Schema.{
  ModelColumn, Column, Table, Catalog, Sqlalchemy, api_keys, version_table, schema_version,
  expected_tables, expected_columns, api_key_columns, get_columns, get_pk, get_unique, get_indexes,
  column_names, same_column, column_matches, version_column_ok, version_table_ok, types_ok,
  constraints_ok, verify_dialect, tables_ok, columns_ok, verify_schema,
}

-- a column that is as the model declares it
abbrev pub IsColumn : Sqlalchemy → List Column → ModelColumn → Type 0
IsColumn sql columns m =
    (actual : Column) × (find (λ (c : Column). c.name == m.name) columns ≡ some actual)
    × (actual.compiled ≡ sql.compile postgresql m.type_of)
    × (actual.nullable ≡ m.nullable)

-- the columns, keys and indexes that PostgreSQL must have
pub record IsConstrained (sql : Sqlalchemy) (c : Catalog) : Type 0 where
  pub version_column : Column
  pub first : head? (get_columns version_table c) ≡ some version_column
  pub numbered : version_column.compiled ≡ codes "INTEGER"
  pub present : version_column.nullable ≡ false
  pub version_pk : get_pk version_table c ≡ codes "version" ∷ []
  pub columns : All (IsColumn sql (get_columns api_keys c)) api_key_columns
  pub pk : get_pk api_keys c ≡ codes "id" ∷ []
  pub unique : Memᴰ (codes "key_hash" ∷ []) (get_unique api_keys c)
  pub indexed : Memᴰ (codes "user_id" ∷ []) (get_indexes api_keys c)

-- A database with exactly the bridge's tables and columns and its one version, and on PostgreSQL
-- with the types and constraints that the program relies on.
pub record Conforms (sql : Sqlalchemy) (dialect : Dialect) (c : Catalog) : Type 0 where
  pub tables :
      SameMembers
        (filter
          (λ name. not (name == codes "sqlite_sequence"))
          (map (λ (t : Table). t.name) c.tables))
        expected_tables
  pub columns : SameMembers (column_names (get_columns api_keys c)) expected_columns
  pub version_columns :
      SameMembers (column_names (get_columns version_table c)) (codes "version" ∷ [])
  pub constrained : dialect ≡ postgresql → IsConstrained sql c
  pub versions : c.versions ≡ schema_version ∷ []

module _ (sql : Sqlalchemy) where
  same_column_iff :
      (m : ModelColumn) (o : Option Column)
      → (same_column sql m o ≡ true) ↔ (
          (a : Column) × (o ≡ some a)
          × (a.compiled ≡ sql.compile postgresql m.type_of)
          × (a.nullable ≡ m.nullable))
  unfolding same_column
  same_column_iff m none = (λ h. absurd (cc h), λ (a, found, i, n). absurd (cc found))
  same_column_iff m (some a) = (
    λ h. (
      a,
      refl,
      ground (arith, ==_iff a.compiled (sql.compile postgresql m.type_of)),
      ground (arith, ==_iff a.nullable m.nullable),
    ),
    λ (b, same, i, n).
        let e : a ≡ b = cc same in
        rw
          (
            (==_iff a.compiled (sql.compile postgresql m.type_of)).1
                (ap (λ (c : Column). c.compiled) e ∙ i),
            (==_iff a.nullable m.nullable).1 (ap (λ (c : Column). c.nullable) e ∙ n),
          )
          refl,
  )

  version_column_iff :
      (o : Option Column)
      → (version_column_ok sql o ≡ true)
        ↔ ((v : Column) × (o ≡ some v) × (v.compiled ≡ codes "INTEGER") × (v.nullable ≡ false))
  unfolding version_column_ok
  version_column_iff none = (λ h. absurd (cc h), λ (v, e, i, n). absurd (cc e))
  version_column_iff (some a) = (
    λ h. (a, refl, ground (arith, ==_iff a.compiled (codes "INTEGER")), ground arith),
    λ (v, same, i, n).
        let e : a ≡ v = cc same in
        rw
          (
            (==_iff a.compiled (codes "INTEGER")).1 (ap (λ (c : Column). c.compiled) e ∙ i),
            ap (λ (c : Column). c.nullable) e ∙ n,
          )
          refl,
  )

  version_table_iff :
      (c : Catalog)
      → (version_table_ok sql c ≡ true) ↔ (
          ((v : Column) × (head? (get_columns version_table c) ≡ some v)
            × (v.compiled ≡ codes "INTEGER")
            × (v.nullable ≡ false))
          × (get_pk version_table c ≡ codes "version" ∷ []))
  unfolding version_table_ok
  version_table_iff c = (
    λ h. (
      (version_column_iff (head? (get_columns version_table c))).0 (ground arith),
      (==_iff (get_pk version_table c) (codes "version" ∷ [])).0 (ground arith),
    ),
    λ (v, p).
        rw
          (
            (version_column_iff (head? (get_columns version_table c))).1 v,
            (==_iff (get_pk version_table c) (codes "version" ∷ [])).1 p,
          )
          refl,
  )

  types_iff :
      (c : Catalog)
      → (types_ok sql c ≡ true) ↔ All (IsColumn sql (get_columns api_keys c)) api_key_columns
  unfolding types_ok column_matches
  types_iff c = (
    λ h.
        All-mono (λ m e. (same_column_iff m (find (λ (x : Column). x.name == m.name) columns)).0 e)
          api_key_columns (all→All (column_matches sql columns) api_key_columns h),
    λ h. All→all (column_matches sql columns) api_key_columns (
        All-mono (λ m e. (same_column_iff m (find (λ (x : Column). x.name == m.name) columns)).1 e)
          api_key_columns h),
  )
    where
      columns : List Column
      columns = get_columns api_keys c

  constraints_iff :
      (c : Catalog)
      → (constraints_ok sql c ≡ true) ↔ (
          (get_pk api_keys c ≡ codes "id" ∷ [])
          × Memᴰ (codes "key_hash" ∷ []) (get_unique api_keys c)
          × Memᴰ (codes "user_id" ∷ []) (get_indexes api_keys c))
  unfolding constraints_ok
  constraints_iff c = (
    λ h. (
      (==_iff (get_pk api_keys c) (codes "id" ∷ [])).0 (ground arith),
      (any_equal_iff (codes "key_hash" ∷ []) (get_unique api_keys c)).0 (ground arith),
      (any_equal_iff (codes "user_id" ∷ []) (get_indexes api_keys c)).0 (ground arith),
    ),
    λ (p, u, i).
        rw
          (
            (==_iff (get_pk api_keys c) (codes "id" ∷ [])).1 p,
            (any_equal_iff (codes "key_hash" ∷ []) (get_unique api_keys c)).1 u,
            (any_equal_iff (codes "user_id" ∷ []) (get_indexes api_keys c)).1 i,
          )
          refl,
  )

  verify_dialect_iff :
      (dialect : Dialect) (c : Catalog)
      → (verify_dialect sql dialect c ≡ ok tt) ↔ (dialect ≡ postgresql → IsConstrained sql c)
  unfolding verify_dialect
  verify_dialect_iff sqlite c = (λ h e. absurd (cc e), λ h. refl)
  verify_dialect_iff postgresql c = (
    λ h e.
        let (version, h1) = (require-ok_iff (version_table_ok sql c) _ _).0 h in
        let (types, h2) = (require-ok_iff (types_ok sql c) _ _).0 h1 in
        let ((v, f, n, p), vpk) = (version_table_iff c).0 version in
        let (pk, unique, index) =
          (constraints_iff c).0 ((require_tt_iff (constraints_ok sql c) _).0 h2) in
        record {
          version_column = v;
          first = f;
          numbered = n;
          present = p;
          version_pk = vpk;
          columns = (types_iff c).0 types;
          pk = pk;
          unique = unique;
          indexed = index;
        },
    λ h.
        let is = h refl in
        rw
          (
            (version_table_iff c).1
                ((is.version_column, is.first, is.numbered, is.present), is.version_pk),
            (types_iff c).1 is.columns,
            (constraints_iff c).1 (is.pk, is.unique, is.indexed),
          )
          refl,
  )

  -- `_verify_schema` passes exactly on the databases that conform.
  pub verify_schema_iff :
      (dialect : Dialect) (c : Catalog)
      → (verify_schema sql dialect c ≡ ok tt) ↔ Conforms sql dialect c
  unfolding verify_schema tables_ok columns_ok
  verify_schema_iff dialect c = (
    λ h.
        let (tables, h1) = (require-ok_iff (tables_ok sql c) _ _).0 h in
        let (columns, h2) = (require-ok_iff (columns_ok sql c) _ _).0 h1 in
        let (own, other) =
          and-true (same_set (column_names (get_columns api_keys c)) expected_columns)
            (same_set (column_names (get_columns version_table c)) (codes "version" ∷ []))
            columns in
        let (typed, h3) = (then-ok_iff (verify_dialect sql dialect c) _).0 h2 in
        record {
          tables = (same_set_iff table_names expected_tables).0 tables;
          columns = (same_set_iff (column_names (get_columns api_keys c)) expected_columns).0 own;
          version_columns =
              (same_set_iff (column_names (get_columns version_table c)) (codes "version" ∷ [])).0
                other;
          constrained = (verify_dialect_iff dialect c).0 typed;
          versions =
              (==_iff c.versions (schema_version ∷ [])).0
                ((require_tt_iff (c.versions == (schema_version ∷ [])) _).0 h3);
        },
    λ is.
        rw
          (
            (same_set_iff table_names expected_tables).1 is.tables,
            (same_set_iff (column_names (get_columns api_keys c)) expected_columns).1 is.columns,
            (same_set_iff (column_names (get_columns version_table c)) (codes "version" ∷ [])).1
                is.version_columns,
            (verify_dialect_iff dialect c).1 is.constrained,
            (==_iff c.versions (schema_version ∷ [])).1 is.versions,
          )
          refl,
  )
    where
      table_names : List Str
      table_names =
          filter (λ name. not (name == codes "sqlite_sequence"))
            (map (λ (t : Table). t.name) c.tables)
