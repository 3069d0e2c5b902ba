-- ===== src/Lib.antt =====
-- The Keycloak API key bridge issues API keys to users, and tells a gateway who presents a
-- credential and what that principal may do. A key carries a grant; a decision gives the intersection of
-- the grant with what Keycloak says now. This development models the parts that decide.
--
-- Parts and files (program paths are below src/keycloak_api_key_bridge):
--   Base: shared names: Boolean tests on numbers, lists, sets as lists (dedup, contains), dicts as
--     association lists, text as a list of code points, and results of code that may raise.
--   Sorting: sorted() as insertion sort, and the order of texts. Regex: the patterns and fullmatch.
--   Json: decoded JSON values and the isinstance tests on them.
--   Permissions: lib/permissions.py. Permissions/Grammar states the grammar without the pattern.
--   Database: the class methods of ApiKey in config/database.py. Database/Session has the columns, the
--     pending work of a session, commit with the constraints, rollback and the advisory lock;
--     Database/Keys has create_key, revoke_key, revoke_key_as_admin, list_keys and get_key;
--     Database/Quota has several requests that create keys at once, as a step relation, and
--     Database/Quota/Refinement relates create_key to it. Database/Schema has _verify_schema,
--     Database/Schema/Startup create_engine_and_session_factory, Database/Schema/Bootstrap
--     bootstrap_schema.
--   Managed: lib/managed_api_keys.py: Managed/Grant has the two parsers, Managed/Slots the validator.
--   Keycloak: lib/keycloak.py: Keycloak/Exec has the client's state and its actions,
--     Keycloak/Requests the tokens and requests, Keycloak/Entitlements the entitlements, their paging
--     and their cache.
--   Jwks: lib/jwks.py: the signing keys, their document and their refresh; Jwks/Thread has the thread
--     that refreshes them.
--   Api: controllers/api_keys.py: Api/Http has the shared state and handlers, Api/Credentials
--     _dedicated_api_key, Api/Tokens _verified_token and get_current_user, Api/Validation _validate_key
--     and its responses, Api/Routes _validation_response, Api/Management the endpoints for keys,
--     Api/Discovery gateway_caller_permissions, Api/Usage usage_key_metadata and me.
--   Health: controllers/health.py: the readiness probe.
--   Settings: config/settings.py. Service: main.py: create_app and bootstrap_main; Service/Lifespan has
--     the lifespan with the thread and the requests as steps.
--   System: the routes, each behind what it depends on, and the steps of the refresh thread, as one list
--     of events; System/Kept says what they keep. Each of the parts has the lemmas for its own handlers
--     in a file Keeping or Reading (Api/Sound has the predicate).
--   Release: scripts/verify_release_tag.py of the repository's root.
--   Tests and Permissions/Tests: the listed theorems at concrete inputs.
--
-- How they interact: a handler runs on the state App, which holds the database session and, if Keycloak
-- is configured, the cache of signing keys with the client inside. A handler that calls the client puts
-- its new state back; KeycloakUnavailableError clears the client and the signing keys, so that later
-- requests get 503 until a refresh succeeds. In usage_key_metadata the error leaves the signing keys.
--
-- Parameters, for code that is not the program's: SHA-256, isoformat and the database's collation
-- (Database.Keys.Platform); file contents, json.loads and uuid5 (Managed.Slots.Host); Keycloak's
-- replies, the clocks and the decoding of a token's payload (Keycloak.Exec.World); jose, base64, UTF-8
-- and json.dumps (Api.Http.Codec); create_all and the texts of types
-- (Database.Schema.Sqlalchemy), what each attempt to inspect the database meets (Service.Surroundings), and
-- the parsed files of the release (Release.Sources). No hypothesis on them is made but what a theorem names.
--
-- Choices: text is a list of code points; numbers are naturals, times are microseconds in the database
-- and seconds in the client, and a JSON number that is no natural is other_num. A set is a list without
-- repetitions. The paging loop runs on fuel, one page for each unit, and ends with out_of_fuel, which
-- the program does not have; more fuel than a hundredth of the memberships is enough. Every other loop is
-- structural. Replies are read in the order of the client's ticks, so that each call may get another.
-- Requests run one at a time, but for Database/Quota. In System every request has its own Setup, so that
-- the clock and the replies may change from one to the next; a body that the framework refuses is
-- refused after the caller has been looked up. Logging is left out.
--
-- A start of the service reads one state of the catalog, or meets one error, at each attempt. The steps
-- of Service/Lifespan interleave in any order: the thread's fetch and what it makes of the answer are two
-- steps, and a request between them may call the client, discard the signing keys, or refresh them.
--
-- Limits: numbers have no bound, so the OverflowError of a date too far ahead (a validity that the API's
-- 365 days exclude) and of float() on a huge expiry do not occur; json.loads, the reading of a file and
-- jose fail only as their parameters say (JSONDecodeError, OSError and UnicodeDecodeError, JWTError). The
-- settings host, port and log_level are fields that nothing reads: uvicorn and logging get them, and the
-- ValueError of logging for an unknown level is left out with it.
--
-- Not modelled: the options of the connection pool and of the HTTP client, the FastAPI routers and
-- middleware with what they do of their own, uvicorn, metrics and logging, the reading of the environment
-- by pydantic, and live_check, which returns a constant. The threads that serve requests share one client
-- in the program; here requests are interleaved only in Database/Quota and Service/Lifespan, and in System they run
-- one after another between the steps of the refresh thread.
pub mod Base
pub mod Sorting
pub mod Regex
pub mod Permissions
pub mod Database
pub mod Json
pub mod Managed
pub mod Keycloak
pub mod Jwks
pub mod Api
pub mod Health
pub mod Settings
pub mod Service
pub mod System
pub mod Release
pub mod Tests
