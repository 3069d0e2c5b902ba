-- ===== src/Service/Lifespan.antt =====
-- `_lifespan` of main.py, with the refreshing thread and the requests, as steps in any order that the
-- program allows.
pub mod Shutdown
pub mod Ending
use k8s_stack_keycloak_api_k.Base.{◌≡◌, ◌≢◌, ◌⊎◌, Bool, true, false, Option, none, some}
use k8s_stack_keycloak_api_k.Keycloak.Exec.{Client, World}
use k8s_stack_keycloak_api_k.Keycloak.Requests.{fetch_jwks}
use k8s_stack_keycloak_api_k.Jwks.{Cache}
use k8s_stack_keycloak_api_k.Jwks.Thread.{
  Activity, unstarted, looping, fetching, fetched, waiting, ended, start, is_joined, run_step,
  finish,
}

-- Where `_lifespan` is: before `start`, at the `yield`, before `stop`, in the `join`, before
-- `dispose`, before `close`, and at its end.
pub data Phase : Type 0 where
  starting serving stopping joining disposing closing finished : Phase

-- The process of an application with a cache; without one there is no thread and no client.
pub record Process : Type 0 where
  pub phase : Phase
  pub thread : Activity
  pub stop : Bool
  pub cache : Cache
  pub engine_disposed : Bool
  pub client_closed : Bool

abbrev pub initial : Cache → Process
initial c = record {
  phase = starting;
  thread = unstarted;
  stop = false;
  cache = c;
  engine_disposed = false;
  client_closed = false;
}

-- What a request does to the cache at a time; a request may do several of these, one after another.
-- It calls the client, `client` is what is left of it, and Keycloak's failure may discard the signing
-- keys; and for an unknown key it refreshes: it stores what an earlier fetch, in the state `asked` of
-- the client, gives.
pub data Touches (w : World) (c : Cache) : Cache → Type 0 where
  calls : (client : Client) → Touches w c (record c { client = client })
  discards : (client : Client) → Touches w c (record c { client = client; keys = none })
  refreshes :
      (asked client : Client)
      → Touches w c (finish (fetch_jwks w asked).0 (record c { client = client }))

-- the thread can go on
abbrev pub is_running : Activity → Bool
is_running unstarted = false
is_running looping = true
is_running fetching = true
is_running (fetched r) = true
is_running waiting = true
is_running ended = false

-- a step of the thread
unfoldable pub advance : World → Process → Process
unfolding run_step
advance w p =
    let (thread, cache) = run_step w p.stop p.thread p.cache in
    record p { thread = thread; cache = cache }

-- One step: of `_lifespan`, of a request, or of the thread.
pub data Step (w : World) (p : Process) : Process → Type 0 where
  -- `jwks_cache.start()`
  starts : p.phase ≡ starting → Step w p (record p { phase = serving; thread = start p.thread })
  requests :
      (after : Cache)
      → p.phase ≡ serving
      → Touches w p.cache after
      → Step w p (record p { cache = after })
  -- the server shuts down: the `yield` returns
  leaves : p.phase ≡ serving → Step w p (record p { phase = stopping })
  -- `jwks_cache.stop()` sets the event, and then waits for the thread
  stops : p.phase ≡ stopping → Step w p (record p { phase = joining; stop = true })
  joins : p.phase ≡ joining → is_joined p.thread ≡ true → Step w p (record p { phase = disposing })
  -- `engine.dispose()` and `kc_client.close()`
  disposes : p.phase ≡ disposing → Step w p (record p { phase = closing; engine_disposed = true })
  closes : p.phase ≡ closing → Step w p (record p { phase = finished; client_closed = true })
  advances : is_running p.thread ≡ true → Step w p (advance w p)

-- Any number of steps.
pub data Steps (w : World) (p : Process) : Process → Type 0 where
  done : Steps w p p
  next : {q r : Process} → Steps w p q → Step w q r → Steps w p r
