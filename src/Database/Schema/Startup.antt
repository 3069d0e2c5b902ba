-- ===== src/Database/Schema/Startup.antt =====
-- `create_engine_and_session_factory`: the service connects to a database that must be initialized.
pub mod Bounds
pub mod Retries
use k8s_stack_keycloak_api_k.Base.{
  ℕ, zero, suc, Str, codes, Bool, true, false, ◌&&◌, ◌||◌, Option, none, some, List, [], ◌∷◌, ◌==◌,
  nat_eq, str_eq, if◌then◌else◌, Result, ok, err, ◌>>=◌, ◌>>◌,
}
use k8s_stack_keycloak_api_k.Database.Session.{Dialect, postgresql, sqlite}
use k8s_stack_keycloak_api_k.Database.Schema.{
  Catalog, Sqlalchemy, SchemaFault, schema_version, verify_schema,
}

-- `URL | str`: a URL by its driver's name
pub data DatabaseUrl : Type 0 where
  url text : Str → DatabaseUrl

-- `database_url.split(":", 1)[0]`
unfoldable pub before_colon : Str → Str
before_colon [] = []
before_colon (c ∷ s) = let rest = before_colon s in if c == b':' then [] else c ∷ rest

unfoldable pub driver_of : DatabaseUrl → Str
unfolding before_colon
driver_of (url drivername) = drivername
driver_of (text s) = before_colon s

abbrev pub psycopg : Str
psycopg = codes "postgresql+psycopg"

-- `database_url == "sqlite://"`, which a `URL` never is
unfoldable pub is_memory : DatabaseUrl → Bool
is_memory (url drivername) = false
is_memory (text s) = s == codes "sqlite://"

unfoldable pub is_supported : DatabaseUrl → Bool → Bool
unfolding driver_of is_memory
is_supported database_url allow_sqlite_for_tests =
    driver_of database_url == psycopg || (allow_sqlite_for_tests && is_memory database_url)

-- What an attempt to inspect the database meets: a catalog, an `OperationalError`, or another
-- exception of the library.
pub data Seen : Type 0 where
  catalog : Catalog → Seen
  operational_error other_error : Seen

pub data StartError : Type 0 where
  -- `ValueError`
  unsupported : StartError
  -- `DatabaseSchemaError`
  schema : SchemaFault → StartError
  operational failed : StartError

-- the engine, and what was done with it
pub record Engine : Type 0 where
  pub attempts : ℕ
  pub seconds_slept : ℕ
  pub disposed : Bool

abbrev pub new_engine : Engine
new_engine = record { attempts = 0; seconds_slept = 0; disposed = false }

abbrev pub dispose : Engine → Engine
dispose e = record e { disposed = true }

checked : Result SchemaFault (Unit {0}) → Result StartError (Unit {0})
checked (ok _) = ok tt
checked (err fault) = err (schema fault)

module _ (sql : Sqlalchemy) where
  unfoldable pub verify_seen : Dialect → Seen → Result StartError (Unit {0})
  unfolding checked
  verify_seen dialect (catalog c) = checked (verify_schema sql dialect c)
  verify_seen dialect operational_error = err operational
  verify_seen dialect other_error = err failed

  -- after an attempt: `break`, retry after a second, or raise; `left` attempts remain
  next_attempt :
      ℕ
      → Result StartError (Unit {0}) × Engine
      → Result StartError (Unit {0})
      → Engine
      → Result StartError (Unit {0}) × Engine
  next_attempt left rest (ok _) e = (ok tt, e)
  next_attempt zero rest (err operational) e = (err operational, e)
  next_attempt (suc left) rest (err operational) e = rest
  next_attempt left rest (err unsupported) e = (err unsupported, e)
  next_attempt left rest (err (schema fault)) e = (err (schema fault), e)
  next_attempt left rest (err failed) e = (err failed, e)

  abbrev pub tried : Engine → Engine
  tried e = record e { attempts = suc e.attempts }

  abbrev slept : Engine → Engine
  slept e = record e { seconds_slept = suc e.seconds_slept }

  -- the loop over the attempts that remain
  unfoldable pub verify_loop :
      Dialect → (ℕ → Seen) → ℕ → Engine → Result StartError (Unit {0}) × Engine
  unfolding verify_seen next_attempt
  verify_loop dialect seen zero e = (ok tt, e)
  verify_loop dialect seen (suc left) e =
      let rest = verify_loop dialect seen left (slept (tried e)) in
      next_attempt left rest (verify_seen dialect (seen e.attempts)) (tried e)

  -- `except Exception: engine.dispose(); raise`
  unfoldable pub or_dispose :
      Result StartError (Unit {0}) × Engine → Result StartError (Unit {0}) × Option Engine
  or_dispose (ok _, e) = (ok tt, some e)
  or_dispose (err x, e) = (err x, some (dispose e))

  abbrev pub empty_catalog : Catalog
  empty_catalog = record { tables = []; versions = [] }

  -- the in-memory database of the fixtures, with its tables and its version
  unfoldable pub start_memory : Engine → Result StartError (Unit {0}) × Engine
  unfolding verify_loop
  start_memory e = elim (sql.create_all sqlite empty_catalog) [
    | none ↦ (err failed, e)
    | some c ↦
        verify_loop sqlite (λ n. catalog (record c { versions = schema_version ∷ c.versions })) 3 e
  ]

  unfoldable pub create_engine_and_session_factory :
      (ℕ → Seen) → DatabaseUrl → Bool → Result StartError (Unit {0}) × Option Engine
  unfolding is_supported driver_of or_dispose start_memory verify_loop
  create_engine_and_session_factory seen database_url allow_sqlite_for_tests =
      if is_supported database_url allow_sqlite_for_tests
      then or_dispose (
          if driver_of database_url == codes "sqlite"
          then start_memory new_engine
          else verify_loop postgresql seen 3 new_engine)
      else (err unsupported, none)
