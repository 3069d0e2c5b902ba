-- ===== src/Tests/Jwks.antt =====
-- A document with one signing key, and a Keycloak that does not answer.
use k8s_stack_keycloak_api_k.Base.{◌≡◌, refl, codes, [], ◌∷◌, list_beq, ok}
use k8s_stack_keycloak_api_k.Json.{Fields, str, arr, obj, cons, nil, field, end, get_or}
use k8s_stack_keycloak_api_k.Jwks.{parse_jwks, refresh}
use k8s_stack_keycloak_api_k.Jwks.Document.{Usable, parse_jwks-Usable}
use k8s_stack_keycloak_api_k.Jwks.Refresh.{Refreshed, refresh_fails_closed}
use k8s_stack_keycloak_api_k.Tests.Data.{deaf, cache}

abbrev pub raw_key : Fields
raw_key = field (codes "kid") (str (codes "a")) (
    field (codes "kty") (str (codes "RSA")) (
      field (codes "alg") (str (codes "RS256"))
        (field (codes "n") (str (codes "AQAB")) (field (codes "e") (str (codes "AQAB")) end))))

abbrev pub document : Fields
document = field (codes "keys") (arr (cons (obj raw_key) nil)) end

pub parsed : parse_jwks document ≡ ok ((codes "a", raw_key) ∷ [])
unfolding parse_jwks codes get_or list_beq
parsed = refl

parse_jwks-Usable_example : Usable ((codes "a", raw_key) ∷ [])
parse_jwks-Usable_example = parse_jwks-Usable document ((codes "a", raw_key) ∷ []) parsed

refresh_fails_closed_example : Refreshed (refresh deaf cache)
refresh_fails_closed_example = refresh_fails_closed deaf cache
