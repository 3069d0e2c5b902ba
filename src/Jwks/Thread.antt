-- ===== src/Jwks/Thread.antt =====
-- The thread of `JWKSCache`: `start`, `stop` and the loop of `_run`, with a refresh as two steps,
-- between which requests may change the cache.
use k8s_stack_keycloak_api_k.Base.{
  ◌≡◌, refl, Bool, true, false, some, if◌then◌else◌, Result, ok, err,
}
use k8s_stack_keycloak_api_k.Json.{Fields}
use k8s_stack_keycloak_api_k.Keycloak.Exec.{Client, World, KcError}
use k8s_stack_keycloak_api_k.Keycloak.Requests.{fetch_jwks}
use k8s_stack_keycloak_api_k.Jwks.{
  SigningKeys, BadJwks, Cache, parse_jwks, clear, install, after_fetch, invalidate, refresh,
}
use k8s_stack_keycloak_api_k.Jwks.Document.{Usable, parse_jwks-Usable}

-- Where the thread is in `_run`: before `start`, at the test of the event, in the fetch, after the
-- fetch, waiting for the delay, or at the end.
pub data Activity : Type 0 where
  unstarted looping fetching : Activity
  fetched : Result KcError Fields → Activity
  waiting ended : Activity

-- `start`: there is one thread, however often it is called
unfoldable pub start : Activity → Activity
start unstarted = looping
start looping = looping
start fetching = fetching
start (fetched r) = fetched r
start waiting = waiting
start ended = ended

-- `thread is None` or it has ended, so that `join` returns
abbrev pub is_joined : Activity → Bool
is_joined unstarted = true
is_joined looping = false
is_joined fetching = false
is_joined (fetched r) = false
is_joined waiting = false
is_joined ended = true

-- what one step of the thread makes of it and of the cache, where `stop` is the event
unfoldable pub finish : Result KcError Fields → Cache → Cache
unfolding install clear parse_jwks
finish (ok document) c = (install (parse_jwks document) c).1
finish (err e) c = (clear c).1

unfoldable pub run_step : World → Bool → Activity → Cache → Activity × Cache
unfolding fetch_jwks finish
run_step w stop unstarted c = (unstarted, c)
run_step w stop looping c = (if stop then ended else fetching, c)
run_step w stop fetching c =
    let (r, client) = fetch_jwks w c.client in (fetched r, record c { client = client })
run_step w stop (fetched r) c = (waiting, finish r c)
run_step w stop waiting c = (looping, c)
run_step w stop ended c = (ended, c)

-- Where no request comes between, the two steps are a refresh.
pub run_step-refresh :
    (w : World) (c : Cache)
    → finish (fetch_jwks w c.client).0 (record c { client = (fetch_jwks w c.client).1 })
      ≡ (refresh w c).1
unfolding refresh finish after_fetch
run_step-refresh w c = go (fetch_jwks w c.client)
  where
    go :
        (m : Result KcError Fields × Client)
        → finish m.0 (record c { client = m.1 }) ≡ (after_fetch c.keys m).1
    go (ok document, client) = refl
    go (err e, client) = refl

-- Only usable keys are served.
abbrev pub ServesUsable : Cache → Type 0
ServesUsable c = (keys : SigningKeys) → c.keys ≡ some keys → Usable keys

install-ServesUsable :
    (r : Result BadJwks SigningKeys) (c : Cache)
    → ((keys : SigningKeys) → r ≡ ok keys → Usable keys)
    → ServesUsable (install r c).1
unfolding install clear invalidate
install-ServesUsable (ok keys) c h other e = h other (cc e)
install-ServesUsable (err x) c h other e = absurd (cc e)

pub finish-ServesUsable : (r : Result KcError Fields) (c : Cache) → ServesUsable (finish r c)
unfolding finish clear invalidate
finish-ServesUsable (ok document) c =
    install-ServesUsable (parse_jwks document) c (parse_jwks-Usable document)
finish-ServesUsable (err x) c = λ keys e. absurd (cc e)

pub run_step-ServesUsable :
    (w : World) (stop : Bool) (a : Activity) (c : Cache)
    → ServesUsable c
    → ServesUsable (run_step w stop a c).1
unfolding run_step
run_step-ServesUsable w stop unstarted c h = h
run_step-ServesUsable w stop looping c h = h
run_step-ServesUsable w stop fetching c h = h
run_step-ServesUsable w stop (fetched r) c h = finish-ServesUsable r c
run_step-ServesUsable w stop waiting c h = h
run_step-ServesUsable w stop ended c h = h
