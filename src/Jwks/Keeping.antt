-- ===== src/Jwks/Keeping.antt =====
-- A refresh leaves only answers in the client and only usable keys in the cache.
use k8s_stack_keycloak_api_k.Base.{
  ◌≡◌, refl, subst, Bool, true, false, Option, none, Result, ok, err,
}
use k8s_stack_keycloak_api_k.Json.{Fields, as_dict}
use k8s_stack_keycloak_api_k.Keycloak.Exec.{Client, World, KcError, certs, send, tick}
use k8s_stack_keycloak_api_k.Keycloak.Requests.{body_of, fetch_jwks, mark_unavailable}
use k8s_stack_keycloak_api_k.Keycloak.Requests.Keeping.{
  Stored, Keeps, Any, Keeps-or_unavailable, last_or_unavailable,
}
use k8s_stack_keycloak_api_k.Keycloak.Entitlements.Cache.{HoldsAnswers}
use k8s_stack_keycloak_api_k.Jwks.{
  SigningKeys, BadJwks, Cache, parse_jwks, clear, install, after_fetch, invalidate, is_available,
  refresh,
}
use k8s_stack_keycloak_api_k.Jwks.Document.{Usable}
use k8s_stack_keycloak_api_k.Jwks.Refresh.{Refreshed, refresh_fails_closed}
use k8s_stack_keycloak_api_k.Jwks.Thread.{ServesUsable, finish}

module _ (w : World) where
  pub fetch_jwks-Keeps : (c : Client) → Keeps c.entitlement_cache Any (fetch_jwks w c)
  unfolding fetch_jwks send
  fetch_jwks-Keeps c =
      Keeps-or_unavailable c.entitlement_cache Any _
        (body_of (w.reply c.ticks (record { endpoint = certs; bearer = none }))) (tick c) refl
        (λ body _. last_or_unavailable c.entitlement_cache (as_dict body) (tick c) refl)

  install-HoldsAnswers :
      (r : Result BadJwks SigningKeys) (c : Cache)
      → HoldsAnswers c.client.entitlement_cache
      → HoldsAnswers (install r c).1.client.entitlement_cache
  unfolding install clear invalidate mark_unavailable
  install-HoldsAnswers (ok keys) c h = h
  install-HoldsAnswers (err e) c h = tt

  -- So does the end of a refresh by the thread.
  pub finish-HoldsAnswers :
      (r : Result KcError Fields) (c : Cache)
      → HoldsAnswers c.client.entitlement_cache
      → HoldsAnswers (finish r c).client.entitlement_cache
  unfolding finish clear invalidate mark_unavailable
  finish-HoldsAnswers (ok document) c h = install-HoldsAnswers (parse_jwks document) c h
  finish-HoldsAnswers (err e) c h = tt

  after_fetch-HoldsAnswers :
      (old : Option SigningKeys) (kept : Stored) (r : Result KcError Fields × Client)
      → Keeps kept Any r
      → HoldsAnswers kept
      → HoldsAnswers (after_fetch old r).1.client.entitlement_cache
  unfolding after_fetch clear invalidate mark_unavailable
  after_fetch-HoldsAnswers old kept (ok document, client) same h =
      install-HoldsAnswers (parse_jwks document) (record { client = client; keys = old })
        (rw (same.0) h)
  after_fetch-HoldsAnswers old kept (err e, client) same h = tt

  pub refresh-HoldsAnswers :
      (c : Cache)
      → HoldsAnswers c.client.entitlement_cache
      → HoldsAnswers (refresh w c).1.client.entitlement_cache
  unfolding refresh
  refresh-HoldsAnswers c h =
      after_fetch-HoldsAnswers c.keys c.client.entitlement_cache (fetch_jwks w c.client)
        (fetch_jwks-Keeps c.client) h

  Refreshed-ServesUsable : (r : Bool × Cache) → Refreshed r → ServesUsable r.1
  unfolding is_available
  Refreshed-ServesUsable (true, c) (here, (keys, e, usable)) other q =
      let same : keys ≡ other = cc (e, q) in subst Usable same usable
  Refreshed-ServesUsable (false, c) (gone, h, e, t) other q = absurd (cc (rw q at gone))

  pub refresh-ServesUsable : (c : Cache) → ServesUsable (refresh w c).1
  refresh-ServesUsable c = Refreshed-ServesUsable (refresh w c) (refresh_fails_closed w c)
