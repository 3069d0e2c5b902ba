-- ===== src/Api/Tokens/Reading.antt =====
-- Reading a token passes on a sound state, also where an unknown key makes the cache refresh.
use k8s_stack_keycloak_api_k.Base.{
  ◌≡◌, Str, codes, Bool, true, false, ◌&&◌, Option, none, some, Bool-cases, Option-cases, inl, inr,
  if◌then◌else◌,
}
use k8s_stack_keycloak_api_k.Json.{get, as_nonempty_str}
use k8s_stack_keycloak_api_k.Jwks.{Cache, is_available, get_key, refresh}
use k8s_stack_keycloak_api_k.Jwks.Keeping.{refresh-HoldsAnswers, refresh-ServesUsable}
use k8s_stack_keycloak_api_k.Api.Http.{Setup, App}
use k8s_stack_keycloak_api_k.Api.Sound.{
  GoodCache, Sound, Sound-continue, or_raise-Sound, or_raise_then,
}
use k8s_stack_keycloak_api_k.Api.Tokens.{
  available_cache, bearer_token, after_refresh, signing_key, verified_token, realm_roles,
  get_current_user,
}

module _ (setup : Setup) where
  after_refresh-Sound :
      (kid : Str) (r : Bool × Cache) (s : App)
      → Sound s
      → GoodCache (some r.1)
      → Sound (after_refresh kid r s).1
  unfolding after_refresh
  after_refresh-Sound kid (true, c) s (clean, rows, old) good =
      or_raise-Sound (get_key kid c) _ (record s { cache = some c }) (clean, rows, good)
  after_refresh-Sound kid (false, c) s (clean, rows, old) good = (clean, rows, good)

  signing_key-Sound :
      (kid : Str) (c : Cache) (s : App)
      → Sound s
      → GoodCache (some c)
      → Sound (signing_key setup kid c s).1
  unfolding signing_key
  signing_key-Sound kid c s h good = elim (Option-cases (get_key kid c)) [
    | inr (key, found) ↦ rw (found, signing_key) h
    | inl unknown ↦
        rw (unknown, signing_key)
          (after_refresh-Sound kid (refresh setup.world c) s h
            (refresh-HoldsAnswers setup.world c good.0, refresh-ServesUsable setup.world c))
  ]

  available-GoodCache :
      (s : App) (c : Cache) → Sound s → available_cache setup s ≡ some c → GoodCache (some c)
  unfolding available_cache
  available-GoodCache s c (clean, rows, good) h = go s.cache good h
    where
      go :
          (o : Option Cache)
          → GoodCache o
          → ◌≡◌ {A = Option Cache}
              (elim o [
                | none ↦ none
                | some c ↦ if setup.keycloak_configured && is_available c then some c else none
              ])
              (some c)
          → GoodCache (some c)
      go none good e = absurd (cc e)
      go (some x) good e = elim (Bool-cases (setup.keycloak_configured && is_available x)) [
        | inl here ↦ let same : x ≡ c = cc (rw here at e) in rw (← same) good
        | inr gone ↦ absurd (cc (rw gone at e))
      ]

  pub verified_token-Sound :
      (authorization : Option Str) (audience : Str) (s : App)
      → Sound s
      → Sound (verified_token setup authorization audience s).1
  unfolding verified_token
  verified_token-Sound authorization audience s h =
      or_raise_then (bearer_token authorization) _ s _ h (λ token _.
        or_raise_then (available_cache setup s) _ s _ h (λ cache here.
          or_raise_then (setup.codec.unverified_header token) _ s _ h (λ header _.
            or_raise_then (as_nonempty_str (get (codes "kid") header)) _ s _ h (λ kid _.
              Sound-continue _ (signing_key setup kid cache s)
                (signing_key-Sound kid cache s h (available-GoodCache s cache h here))
                (λ key t k. or_raise-Sound _ _ t k)))))

  -- Looking up who calls passes on a sound state.
  pub get_current_user-Sound :
      (authorization : Option Str) (s : App)
      → Sound s
      → Sound (get_current_user setup authorization s).1
  unfolding get_current_user
  get_current_user-Sound authorization s h =
      Sound-continue _ (verified_token setup authorization setup.auth_info.client_id s)
        (verified_token-Sound authorization setup.auth_info.client_id s h)
        (λ payload t k.
          or_raise_then (as_nonempty_str (get (codes "sub") payload)) _ t _ k
            (λ user_id _. or_raise_then (realm_roles payload) _ t _ k (λ roles _. k)))
