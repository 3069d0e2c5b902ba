-- ===== src/Database/Schema/Bootstrap/Outcomes.antt =====
-- What `bootstrap_schema` leaves behind, and that the service starts on it.
use k8s_stack_keycloak_api_k.Base.{
  ℕ, ◌≡◌, refl, ap, ◌∙◌, Str, codes, Bool, true, false, not, Option, none, some, List, [], ◌∷◌, map,
  ◌==◌, ==_refl, str_eq, list_beq, SameMembers, contains, filter, is_empty, Bool-cases, inl, inr,
  if◌then◌else◌, Result, ok, err,
}
use mathlib.Core.List.{Memᴰ}
use k8s_stack_keycloak_api_k.Database.Session.{postgresql}
use k8s_stack_keycloak_api_k.Database.Schema.{
  Table, Catalog, Sqlalchemy, SchemaFault, api_keys, version_table, expected_tables,
  expected_columns, api_key_columns, get_columns, get_pk, get_unique, get_indexes, schema_version,
  column, verify_schema,
}
use k8s_stack_keycloak_api_k.Database.Schema.Conforms.{Conforms, verify_schema_iff}
use k8s_stack_keycloak_api_k.Database.Schema.Startup.{
  url, psycopg, Seen, catalog, StartError, Engine, new_engine, dispose, driver_of, or_dispose,
  empty_catalog, create_engine_and_session_factory,
}
use k8s_stack_keycloak_api_k.Database.Schema.Startup.Retries.{create_psycopg, verify_loop-at_once}
use k8s_stack_keycloak_api_k.Database.Schema.Bootstrap.{
  Written, verified, with_version, initialize, bootstrap_body, in_transaction, bootstrap_schema,
  declared_column, api_keys_table, schema_version_table, Creates,
}

module _ (sql : Sqlalchemy) where
  -- a success conforms, a failure changes nothing
  abbrev IsSafe : Catalog → Written → Type 0
  IsSafe before (ok _, after) = Conforms sql postgresql after
  IsSafe before (err e, after) = after ≡ before

  verified-IsSafe :
      (before c : Catalog)
      → IsSafe before (in_transaction sql before (verified sql (verify_schema sql postgresql c) c))
  unfolding in_transaction verified
  verified-IsSafe before c = go (verify_schema sql postgresql c) refl
    where
      go :
          (r : Result SchemaFault (Unit {0}))
          → verify_schema sql postgresql c ≡ r
          → IsSafe before (in_transaction sql before (verified sql r c))
      go (ok _) e = (verify_schema_iff sql postgresql c).0 e
      go (err fault) e = refl

  initialize-IsSafe :
      (o : Option Catalog) (before : Catalog)
      → IsSafe before (in_transaction sql before (initialize sql o before))
  unfolding in_transaction initialize
  initialize-IsSafe none before = refl
  initialize-IsSafe (some made) before = verified-IsSafe before (with_version sql made)

  body-IsSafe : (c : Catalog) → IsSafe c (in_transaction sql c (bootstrap_body sql c))
  unfolding bootstrap_body
  body-IsSafe c = elim (Bool-cases (is_empty c.tables)) [
    | inl empty ↦ rw empty (initialize-IsSafe (sql.create_all postgresql c) c)
    | inr full ↦ rw full (verified-IsSafe c c)
  ]

  bootstrap-IsSafe :
      (begun : Bool) (drivername : Str) (c : Catalog)
      → IsSafe c (bootstrap_schema sql begun drivername c).0
  unfolding bootstrap_schema
  bootstrap-IsSafe begun drivername c = elim (Bool-cases (drivername == psycopg)) [
    | inr other ↦ rw other refl
    | inl supported ↦
        rw supported
          (elim (Bool-cases begun) [ inr lost ↦ rw lost refl | inl had ↦ rw had (body-IsSafe c) ])
  ]

  IsSafe-ok : (c : Catalog) (w : Written) → IsSafe c w → w.0 ≡ ok tt → Conforms sql postgresql w.1
  IsSafe-ok c (ok _, after) safe h = safe
  IsSafe-ok c (err x, after) safe h = absurd (cc h)

  IsSafe-err : (c : Catalog) (w : Written) (e : StartError) → IsSafe c w → w.0 ≡ err e → w.1 ≡ c
  IsSafe-err c (ok _, after) e safe h = absurd (cc h)
  IsSafe-err c (err x, after) e safe h = safe

  bootstrap_disposes :
      (begun : Bool) (drivername : Str) (c : Catalog) (engine : Engine)
      → (bootstrap_schema sql begun drivername c).1 ≡ some engine
      → engine.disposed ≡ true
  unfolding bootstrap_schema
  bootstrap_disposes begun drivername c engine h = elim (Bool-cases (drivername == psycopg)) [
    | inr other ↦ absurd (cc (rw other at h))
    | inl supported ↦
        let e : some (dispose new_engine) ≡ some engine = rw supported at h in
        let same : dispose new_engine ≡ engine = cc e in rw (← same) refl
  ]

  -- A bootstrap that succeeds leaves a database that conforms, and one that raises leaves the
  -- database as it was; the engine, if one was made, is disposed of in any case.
  pub bootstrap_schema_lem :
      (begun : Bool) (drivername : Str) (c : Catalog)
      → ((bootstrap_schema sql begun drivername c).0.0 ≡ ok tt
          → Conforms sql postgresql (bootstrap_schema sql begun drivername c).0.1)
        × ((e : StartError)
            → (bootstrap_schema sql begun drivername c).0.0 ≡ err e
            → (bootstrap_schema sql begun drivername c).0.1 ≡ c)
        × ((engine : Engine)
            → (bootstrap_schema sql begun drivername c).1 ≡ some engine
            → engine.disposed ≡ true)
  bootstrap_schema_lem begun drivername c = (
    IsSafe-ok c (bootstrap_schema sql begun drivername c).0 (bootstrap-IsSafe begun drivername c),
    λ e.
        IsSafe-err c (bootstrap_schema sql begun drivername c).0 e
          (bootstrap-IsSafe begun drivername c),
    bootstrap_disposes begun drivername c,
  )

  -- a database that conforms has tables
  Conforms-nonempty : (c : Catalog) → Conforms sql postgresql c → is_empty c.tables ≡ false
  unfolding expected_tables
  Conforms-nonempty c is = go c.tables is.tables
    where
      go :
          (ts : List Table)
          → SameMembers
              (filter
                (λ name. not (name == codes "sqlite_sequence"))
                (map (λ (t : Table). t.name) ts))
              expected_tables
          → is_empty ts ≡ false
      go [] h =
          let e : false
              ≡ (if api_keys == api_keys then true else contains api_keys (version_table ∷ [])) =
            h api_keys in
          absurd (cc (rw (==_refl api_keys) at e))
      go (t ∷ ts) h = refl

  -- On a database that conforms, and so after a bootstrap that succeeded, another bootstrap succeeds
  -- and changes nothing, if it gets its connection and its lock.
  pub bootstrap_schema_again :
      (c : Catalog)
      → Conforms sql postgresql c
      → bootstrap_schema sql true psycopg c ≡ ((ok tt, c), some (dispose new_engine))
  unfolding bootstrap_schema bootstrap_body in_transaction verified
  bootstrap_schema_again c is =
      rw (==_refl psycopg, Conforms-nonempty c is, (verify_schema_iff sql postgresql c).1 is) refl

  pub declared : Catalog
  declared = record {
    tables = api_keys_table sql ∷ schema_version_table sql ∷ [];
    versions = schema_version ∷ [];
  }

  pub declared-Conforms : Creates sql → Conforms sql postgresql declared
  unfolding declared api_keys_table schema_version_table declared_column column expected_tables
      expected_columns api_key_columns get_columns get_pk get_unique get_indexes codes list_beq
  declared-Conforms doc = record {
    tables = λ a. refl;
    columns = λ a. refl;
    version_columns = λ a. refl;
    constrained = λ e. record {
      version_column = _;
      first = refl;
      numbered = doc.integer_text;
      present = refl;
      version_pk = refl;
      columns = (
        (_, refl, refl, refl),
        (
          (_, refl, refl, refl),
          (
            (_, refl, refl, refl),
            (
              (_, refl, refl, refl),
              (
                (_, refl, refl, refl),
                (
                  (_, refl, refl, refl),
                  (
                    (_, refl, refl, refl),
                    ((_, refl, refl, refl), ((_, refl, refl, refl), ((_, refl, refl, refl), tt))),
                  ),
                ),
              ),
            ),
          ),
        ),
      );
      pk = refl;
      unique = Memᴰ.head refl;
      indexed = Memᴰ.tail (Memᴰ.head refl);
    };
    versions = refl;
  }

  pub bootstrap_declared :
      Creates sql
      → bootstrap_schema sql true psycopg (empty_catalog sql)
        ≡ ((ok tt, declared), some (dispose new_engine))
  unfolding bootstrap_schema bootstrap_body in_transaction initialize verified declared
  bootstrap_declared doc =
      rw
        (
          ==_refl psycopg,
          doc.creates,
          (verify_schema_iff sql postgresql declared).1 (declared-Conforms doc),
        )
        refl

  -- If `create_all` does what it is documented to do, the bootstrap of an empty database succeeds, and
  -- the service starts on the result at its first attempt.
  pub bootstrap-create_engine :
      (seen : ℕ → Seen) (allow : Bool)
      → Creates sql
      → seen 0 ≡ catalog (bootstrap_schema sql true psycopg (empty_catalog sql)).0.1
      → ((bootstrap_schema sql true psycopg (empty_catalog sql)).0.0 ≡ ok tt)
        × (create_engine_and_session_factory sql seen (url psycopg) allow
            ≡ (ok tt, some (record new_engine { attempts = 1 })))
  unfolding codes driver_of or_dispose
  bootstrap-create_engine seen allow doc there = rw (bootstrap_declared doc) (
    refl,
    start (there ∙ ap (λ (b : Written × Option Engine). catalog b.0.1) (bootstrap_declared doc)),
  )
    where
      start :
          seen 0 ≡ catalog declared
          → create_engine_and_session_factory sql seen (url psycopg) allow
            ≡ (ok tt, some (record new_engine { attempts = 1 }))
      start e =
          create_psycopg sql seen (url psycopg) refl allow
          ∙ rw
              (verify_loop-at_once sql postgresql seen 2 new_engine declared e
                (declared-Conforms doc))
              refl
