-- ===== src/Tests/Service.antt =====
-- Settings that name everything, an application made from them, and a shutdown.
use k8s_stack_keycloak_api_k.Base.{
  ◌≤◌, ◌≡◌, ◌↔◌, ◌⊎◌, refl, Str, codes, list_beq, true, false, none, some, [], ◌∷◌, ok, arith,
}
use k8s_stack_keycloak_api_k.Database.Session.{postgresql}
use k8s_stack_keycloak_api_k.Database.Schema.Startup.{catalog, empty_catalog}
use k8s_stack_keycloak_api_k.Database.Schema.Startup.Retries.{Succeeds}
use k8s_stack_keycloak_api_k.Database.Schema.Bootstrap.Outcomes.{declared, declared-Conforms}
use k8s_stack_keycloak_api_k.Json.{obj, get_or}
use k8s_stack_keycloak_api_k.Keycloak.Exec.{World, response}
use k8s_stack_keycloak_api_k.Keycloak.Requests.{fetch_jwks}
use k8s_stack_keycloak_api_k.Jwks.{parse_jwks}
use k8s_stack_keycloak_api_k.Jwks.Document.{Usable}
use k8s_stack_keycloak_api_k.Jwks.Thread.{Activity, start, run_step, finish}
use k8s_stack_keycloak_api_k.Settings.{Settings}
use k8s_stack_keycloak_api_k.Service.{Surroundings, State, new_cache, create_app, bootstrap_main}
use k8s_stack_keycloak_api_k.Service.Fresh.{
  HasDatabase, IsClosed, create_app-ok_iff, create_app-IsClosed, bootstrap_main-create_app,
}
use k8s_stack_keycloak_api_k.Service.Lifespan.{
  serving, joining, finished, Touches, Process, initial, is_running, advance, Step, Steps,
}
use k8s_stack_keycloak_api_k.Service.Lifespan.Shutdown.{client_closed_last}
use k8s_stack_keycloak_api_k.Service.Lifespan.Ending.{number_of, shutdown_ends}
use k8s_stack_keycloak_api_k.Tests.Data.{deaf, session, setup, platform, codec}
use k8s_stack_keycloak_api_k.Tests.Jwks.{raw_key, document}
use k8s_stack_keycloak_api_k.Tests.Schema.{sql, documented}

abbrev word : Str
word = 120 ∷ []

abbrev settings : Settings
settings = record {
  keycloak_url = word;
  keycloak_realm = word;
  keycloak_issuer = word;
  keycloak_client_id = word;
  keycloak_client_secret = word;
  agentgateway_client_id = word;
  jwks_refresh_interval_seconds = 10;
  jwks_retry_interval_seconds = 5;
  entitlement_cache_ttl_seconds = 30;
  negative_entitlement_cache_ttl_seconds = 5;
  postgres_host = word;
  postgres_port = 5432;
  postgres_database = word;
  postgres_user = word;
  postgres_password = word;
  max_keys_per_user = 20;
  managed_registrations = [];
  gateway_caller_oidc_clients_by_binding = [];
  host = word;
  port = 8000;
  log_level = word;
}

abbrev around : Surroundings
around = record {
  sql = sql;
  seen = λ n. catalog (declared sql);
  world = deaf;
  fuel = 1;
  host = setup.host;
  platform = platform;
  codec = codec;
  now = 3;
}

create_app-ok_iff_example :
    ((state : State) × (create_app around none settings ≡ ok state))
    ↔ (HasDatabase settings × Succeeds sql postgresql around.seen 0 3)
create_app-ok_iff_example = create_app-ok_iff around settings

starts : Succeeds sql postgresql around.seen 0 3
starts = record {
  at = 0;
  in_time = omega arith;
  errors_before = λ i early. absurd (omega arith);
  found = declared sql;
  there = refl;
  fine = declared-Conforms sql documented;
}

given : HasDatabase settings
given = (λ e. cc e, (λ e. cc e, (λ e. cc e, (λ e. cc e, tt))))

made : (state : State) × (create_app around none settings ≡ ok state)
made = (create_app-ok_iff around settings).1 (given, starts)

create_app-IsClosed_example : IsClosed made.0 settings session
create_app-IsClosed_example = create_app-IsClosed around none settings made.0 session made.1

abbrev booted : Surroundings
booted = record around {
  seen = λ n. catalog (bootstrap_main sql true settings (empty_catalog sql)).0.1;
}

bootstrap_main-create_app_example :
    ((bootstrap_main sql true settings (empty_catalog sql)).0.0 ≡ ok tt)
    × ((state : State) × (create_app booted none settings ≡ ok state))
bootstrap_main-create_app_example = bootstrap_main-create_app booted settings documented given refl

-- the shutdown of a process whose thread has not begun a fetch
abbrev at_join : Process
at_join = record (initial new_cache) { phase = joining; thread = Activity.looping; stop = true }

abbrev to_join : Steps deaf (initial new_cache) at_join
unfolding start
to_join =
    Steps.next (Steps.next (Steps.next Steps.done (Step.starts refl)) (Step.leaves refl))
      (Step.stops refl)

abbrev at_end : Process
at_end = record at_join {
  phase = finished;
  thread = Activity.ended;
  engine_disposed = true;
  client_closed = true;
}

abbrev to_end : Steps deaf at_join at_end
unfolding advance run_step
to_end =
    Steps.next
      (Steps.next (Steps.next (Steps.next Steps.done (Step.advances refl)) (Step.joins refl refl))
        (Step.disposes refl))
      (Step.closes refl)

-- a Keycloak that gives its document of keys
abbrev lively : World
lively = record deaf { reply = λ n r. response 200 (some (obj document)) }

-- the thread has refreshed once, and then a request does
abbrev refreshed : Process
refreshed = advance lively (
    advance lively
      (advance lively (record (initial new_cache) { phase = serving; thread = Activity.looping })))

abbrev used : Process
used = record refreshed {
  cache = finish (fetch_jwks lively refreshed.cache.client).0 refreshed.cache;
}

abbrev stopped : Process
stopped = advance lively (advance lively (record used { phase = joining; stop = true }))

abbrev closed : Process
closed = record stopped { phase = finished; engine_disposed = true; client_closed = true }

to_used : Steps lively (initial new_cache) used
unfolding start advance run_step
to_used =
    Steps.next
      (Steps.next
        (Steps.next (Steps.next (Steps.next Steps.done (Step.starts refl)) (Step.advances refl))
          (Step.advances refl))
        (Step.advances refl))
      (Step.requests _ refl (Touches.refreshes refreshed.cache.client refreshed.cache.client))

to_closed : Steps lively (initial new_cache) closed
unfolding advance run_step
to_closed =
    Steps.next
      (Steps.next
        (Steps.next
          (Steps.next
            (Steps.next (Steps.next (Steps.next to_used (Step.leaves refl)) (Step.stops refl))
              (Step.advances refl))
            (Step.advances refl))
          (Step.joins refl refl))
        (Step.disposes refl))
      (Step.closes refl)

served : closed.cache.keys ≡ some ((codes "a", raw_key) ∷ [])
unfolding advance run_step finish fetch_jwks parse_jwks codes get_or list_beq
served = refl

client_closed_last_example :
    ((is_running closed.thread ≡ false) × (closed.engine_disposed ≡ true))
    × Usable ((codes "a", raw_key) ∷ [])
client_closed_last_example = (
  (client_closed_last lively new_cache refl closed to_closed).0 refl,
  (client_closed_last lively new_cache refl closed to_closed).1 ((codes "a", raw_key) ∷ []) served,
)

shutdown_ends_example :
    (number_of deaf to_end ≤ 7) × ((finished ≡ finished) ⊎ ((r : Process) × Step deaf at_end r))
shutdown_ends_example = shutdown_ends deaf new_cache refl at_join at_end to_join refl to_end
