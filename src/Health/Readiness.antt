-- ===== src/Health/Readiness.antt =====
-- When the probe reports health, and what a failed probe does to later requests.
use k8s_stack_keycloak_api_k.Base.{
  Str, ◌≡◌, ◌↔◌, refl, Bool, true, false, ◌&&◌, Option, none, some, Bool-cases, inl, inr, arith,
  if◌then◌else◌, Result, ok, err,
}
use k8s_stack_keycloak_api_k.Keycloak.Exec.{Client, KcError, unavailable, out_of_fuel}
use k8s_stack_keycloak_api_k.Keycloak.Requests.{health_check}
use k8s_stack_keycloak_api_k.Jwks.{Cache, invalidate, is_available}
use k8s_stack_keycloak_api_k.Api.Http.{Setup, App}
use k8s_stack_keycloak_api_k.Api.Tokens.{available_cache}
use k8s_stack_keycloak_api_k.Api.Validation.{no_authorization, validate_key}
use k8s_stack_keycloak_api_k.Health.{
  healthy, keycloak_unavailable, probed, check_keycloak, readiness,
}

module _ (setup : Setup) where
  abbrev probe : Cache → Result KcError (Unit {0}) × Client
  probe c = health_check setup.world setup.config.agentgateway_client_id c.client

  probed_iff :
      (c : Cache) (r : Result KcError (Unit {0}) × Client) (s : App)
      → ((probed c r s).0 ≡ ok healthy) ↔ (r.0 ≡ ok tt)
  unfolding probed
  probed_iff c (ok _, client) s = (λ h. refl, λ h. refl)
  probed_iff c (err unavailable, client) s = (λ h. cc, λ h. cc)
  probed_iff c (err out_of_fuel, client) s = (λ h. cc, λ h. cc)

  -- The probe reports health exactly if the database answers, requests would find signing keys in a
  -- configured cache, and the client's own check of Keycloak succeeds.
  pub readiness_iff :
      (answers : Bool) (s : App)
      → ((readiness setup answers s).0 ≡ ok healthy) ↔ (
          (answers ≡ true)
          × ((c : Cache) × (available_cache setup s ≡ some c)
              × ((health_check setup.world setup.config.agentgateway_client_id c.client).0
                  ≡ ok tt)))
  unfolding readiness available_cache
  readiness_iff false s = (λ h. cc, λ h. cc h.0)
  readiness_iff true s = go s.cache
    where
      go :
          (o : Option Cache)
          → ((check_keycloak setup o s).0 ≡ ok healthy) ↔ (
              (true ≡ true)
              × ((c : Cache) × (◌≡◌ {A = Option Cache}
                    (elim o [
                      | none ↦ none
                      | some c ↦
                          if setup.keycloak_configured && is_available c then some c else none
                    ])
                    (some c))
                  × ((probe c).0 ≡ ok tt)))
      go none = (λ h. cc, λ (t, (c, e, h)). cc)
      go (some x) = elim (Bool-cases setup.keycloak_configured) [
        | inl configured ↦ elim (Bool-cases (is_available x)) [
          | inl here ↦
              rw (configured, here)
                (
                  λ h. (refl, (x, refl, (probed_iff x (probe x) s).0 h)),
                  λ (t, (c, e, h)).
                      (probed_iff x (probe x) s).1 (let same : x ≡ c = cc e in rw same h),
                )
          | inr gone ↦ rw (configured, gone) (λ h. cc, λ (t, (c, e, h)). cc)
        ]
        | inr plain ↦ rw plain (λ h. cc, λ (t, (c, e, h)). cc)
      ]

  -- A probe that finds Keycloak unavailable behind signing keys leaves a state in which every key is
  -- refused with 503, under any configuration.
  pub readiness_unavailable :
      (s : App) (c : Cache) (c' : Client)
      → available_cache setup s ≡ some c
      → health_check setup.world setup.config.agentgateway_client_id c.client
        ≡ (err unavailable, c')
      → (t : App) × (readiness setup true s ≡ (ok keycloak_unavailable, t))
        × ((later : Setup) (secret : Str) → validate_key later secret t ≡ (err no_authorization, t))
  unfolding readiness check_keycloak probed validate_key available_cache is_available
  readiness_unavailable s c c' here out = go s.cache here
    where
      left : App
      left = record s { cache = some (invalidate (record c { client = c' })) }

      refused :
          (later : Setup) (secret : Str)
          → validate_key later secret left ≡ (err no_authorization, left)
      refused later secret = unfold invalidate in ground arith

      go :
          (o : Option Cache)
          → ◌≡◌ {A = Option Cache}
              (elim o [
                | none ↦ none
                | some c ↦ if setup.keycloak_configured && is_available c then some c else none
              ])
              (some c)
          → (t : App) × (check_keycloak setup o s ≡ (ok keycloak_unavailable, t))
            × ((later : Setup) (secret : Str)
                → validate_key later secret t ≡ (err no_authorization, t))
      go none h = cc
      go (some x) h = elim (Bool-cases (setup.keycloak_configured && is_available x)) [
        | inl both ↦
            let same : x ≡ c = cc (rw both at h) in
            let configured : setup.keycloak_configured ≡ true = ground (arith, both) in
            let present : is_available x ≡ true = ground (arith, both) in
            (left, simp (configured, present) (rw (same, out) refl), refused)
        | inr neither ↦ absurd (cc (rw neither at h))
      ]
