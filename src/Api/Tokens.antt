-- ===== src/Api/Tokens.antt =====
-- `_verified_token` and `get_current_user` of controllers/api_keys.py.
pub mod Reading
use k8s_stack_keycloak_api_k.Base.{
  Str, codes, Bool, ◌&&◌, Option, none, some, List, [], ◌∷◌, ◌==◌, nat_eq, str_eq, dedup,
  if◌then◌else◌, ok, err,
}
use k8s_stack_keycloak_api_k.Json.{
  Json, Fields, get, get_or, as_str, as_dict, as_nonempty_str, arr, str, obj, nil, items, keys,
}
use mathlib.Core.Option
use k8s_stack_keycloak_api_k.Jwks.{Cache, is_available, get_key, refresh}
use k8s_stack_keycloak_api_k.Api.Http.{
  Setup, App, Failure, crash, http_error, Handler, pure, or_raise, ◌>>=◌,
}

abbrev pub no_authentication : Failure
no_authentication = http_error 503 "Keycloak authentication is unavailable"

abbrev pub invalid_token : Failure
invalid_token = http_error 401 "Invalid token"

-- `keycloak_configured`, a cache, and signing keys in it
unfoldable pub available_cache : Setup → App → Option Cache
available_cache setup s = elim s.cache [
  | none ↦ none
  | some c ↦ if setup.keycloak_configured && is_available c then some c else none
]

-- the text behind "Bearer "
strip_prefix : Str → Str → Option Str
strip_prefix [] s = some s
strip_prefix (p ∷ ps) [] = none
strip_prefix (p ∷ ps) (c ∷ s) = let rest = strip_prefix ps s in if p == c then rest else none

unfoldable pub bearer_token : Option Str → Option Str
unfolding strip_prefix
bearer_token none = none
bearer_token (some authorization) = strip_prefix (codes "Bearer ") authorization

after_refresh : Str → Bool × Cache → Handler Fields
after_refresh kid (succeeded, c) s =
    if succeeded
    then or_raise (get_key kid c) invalid_token (record s { cache = some c })
    else (err no_authentication, record s { cache = some c })

module _ (setup : Setup) where
  -- the signing key for `kid`; an unknown one makes the cache refresh
  unfoldable pub signing_key : Str → Cache → Handler Fields
  unfolding after_refresh
  signing_key kid c s = elim (get_key kid c) [
    | some key ↦ (ok key, s)
    | none ↦ after_refresh kid (refresh setup.world c) s
  ]

  unfoldable pub verified_token : Option Str → Str → Handler Fields
  unfolding bearer_token available_cache signing_key
  verified_token authorization audience s =
      (do
        token ←
            or_raise (bearer_token authorization)
              (http_error 401 "Missing or invalid Authorization header")
        cache ← or_raise (available_cache setup s) no_authentication
        header ← or_raise (setup.codec.unverified_header token) invalid_token
        kid ←
            or_raise (as_nonempty_str (get (codes "kid") header))
              (http_error 401 "Token missing signing key identifier")
        key ← signing_key kid cache
        or_raise (setup.codec.decode token key audience setup.auth_info.issuer) invalid_token)
        s

-- `CurrentUser`
pub record CurrentUser : Type 0 where
  pub user_id : Str
  pub realm_roles : List Str

texts_of : List Json → List Str
texts_of [] = []
texts_of (j ∷ js) = let rest = texts_of js in elim (as_str j) [ none ↦ rest | some s ↦ s ∷ rest ]

characters : Str → List Str
characters [] = []
characters (c ∷ s) = (c ∷ []) ∷ characters s

-- The texts that Python's iteration gives: a text gives its characters and a dict its keys; `none` is
-- the `TypeError` of a value that cannot be iterated.
texts_in : Json → Option (List Str)
unfolding texts_of characters keys
texts_in (arr js) = some (texts_of (items js))
texts_in (str s) = some (characters s)
texts_in (obj fs) = some (keys fs)
texts_in _ = none

-- the frozenset of realm roles in a verified payload
unfoldable pub realm_roles : Fields → Option (List Str)
unfolding texts_in
realm_roles payload = elim (as_dict (get (codes "realm_access") payload)) [
  | none ↦ some []
  | some access ↦ Option.map dedup (texts_in (get_or (codes "roles") (arr nil) access))
]

unfoldable pub get_current_user : Setup → Option Str → Handler CurrentUser
unfolding verified_token realm_roles
get_current_user setup authorization = do
  payload ← verified_token setup authorization setup.auth_info.client_id
  user_id ←
      or_raise (as_nonempty_str (get (codes "sub") payload))
        (http_error 401 "Token missing 'sub' claim")
  roles ← or_raise (realm_roles payload) crash
  pure (record { user_id = user_id; realm_roles = roles })
