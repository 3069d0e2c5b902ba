-- ===== src/Jwks/Refresh.antt =====
-- Refreshing the signing keys fails closed.
use k8s_stack_keycloak_api_k.Base.{
  Str, ◌≡◌, refl, Bool, true, false, Option, none, some, [], Result, ok, err,
}
use k8s_stack_keycloak_api_k.Json.{Fields}
use k8s_stack_keycloak_api_k.Keycloak.Exec.{Client, World, KcError}
use k8s_stack_keycloak_api_k.Keycloak.Requests.{fetch_jwks, mark_unavailable}
use k8s_stack_keycloak_api_k.Jwks.{
  SigningKeys, BadJwks, Cache, parse_jwks, clear, install, after_fetch, invalidate, is_available,
  get_key, refresh,
}
use k8s_stack_keycloak_api_k.Jwks.Document.{Usable, parse_jwks-Usable}

-- What a refresh leaves: usable keys if it succeeded; else no key is served and the client holds no
-- entitlement and no token.
abbrev pub Refreshed : Bool × Cache → Type 0
Refreshed (true, c) =
    (is_available c ≡ true) × ((keys : SigningKeys) × (c.keys ≡ some keys) × Usable keys)
Refreshed (false, c) =
    (is_available c ≡ false)
    × ((kid : Str) → get_key kid c ≡ none)
    × (c.client.entitlement_cache ≡ [])
    × (c.client.token ≡ none)

clear-Refreshed : (c : Cache) → Refreshed (clear c)
unfolding clear invalidate mark_unavailable is_available get_key
clear-Refreshed c = (refl, λ kid. refl, refl, refl)

install-Refreshed :
    (r : Result BadJwks SigningKeys) (c : Cache)
    → ((keys : SigningKeys) → r ≡ ok keys → Usable keys)
    → Refreshed (install r c)
unfolding install
install-Refreshed (ok keys) c h = unfold is_available in (refl, (keys, refl, h keys refl))
install-Refreshed (err e) c h = clear-Refreshed c

after_fetch-Refreshed :
    (old : Option SigningKeys) (r : Result KcError Fields × Client) → Refreshed (after_fetch old r)
unfolding after_fetch
after_fetch-Refreshed old (ok document, client) =
    install-Refreshed (parse_jwks document) (record { client = client; keys = old })
      (parse_jwks-Usable document)
after_fetch-Refreshed old (err e, client) = clear-Refreshed (record { client = client; keys = old })

-- Whatever Keycloak replies: a refresh that returns true leaves usable keys, and one that returns
-- false leaves no signing key, no cached entitlement and no token.
pub refresh_fails_closed : (w : World) (c : Cache) → Refreshed (refresh w c)
unfolding refresh
refresh_fails_closed w c = after_fetch-Refreshed c.keys (fetch_jwks w c.client)
