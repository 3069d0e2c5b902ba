-- ===== src/Api/Management.antt =====
-- The management endpoints of controllers/api_keys.py: permissions, creation, revocation, listing.
pub mod Authority
pub mod Keeping
pub mod Requests
use k8s_stack_keycloak_api_k.Base.{
  ℕ, ◌≤◌, Str, String, codes, Bool, true, false, not, ◌&&◌, ◌||◌, Option, none, some, List, [], ◌∷◌,
  ◌++◌, ◌==◌, nat_eq, str_eq, dedup, contains, subset, filter, all, length, take, is_empty, leb,
  if◌then◌else◌, Result, ok, err, ◌≡◌,
}
use k8s_stack_keycloak_api_k.Sorting.{sort, str_ord}
use k8s_stack_keycloak_api_k.Regex.{Regex, cls, seq, upto, fullmatch, is_alnum}
use k8s_stack_keycloak_api_k.Permissions.{is_valid_permission}
use k8s_stack_keycloak_api_k.Managed.Grant.{is_id_char}
use k8s_stack_keycloak_api_k.Database.Session.{Session, DbError, limit_reached, write_failed}
use k8s_stack_keycloak_api_k.Database.Keys.{
  ApiKeyMetadata, Draw, NewKey, create_key, list_keys, revoke_key, revoke_key_as_admin,
}
use k8s_stack_keycloak_api_k.Keycloak.Exec.{PrincipalEntitlements}
use k8s_stack_keycloak_api_k.Api.Http.{
  Setup, App, Failure, crash, http_error, Handler, pure, raise, continue, or_raise, ◌>>=◌, ◌>>◌,
  require,
}
use k8s_stack_keycloak_api_k.Api.Tokens.{CurrentUser}
use k8s_stack_keycloak_api_k.Api.Validation.{entitlements_or_error}

abbrev pub admin_role_name : Str
admin_role_name = codes "api-key-admin"

-- `CreateApiKeyRequest`
pub record CreateApiKeyRequest : Type 0 where
  pub name : Str
  pub permissions : List Str
  pub expires_in_days : ℕ
  pub target_user_id : Option Str

-- `_KEY_NAME_PATTERN`
pub key_name_pattern : Regex
key_name_pattern = seq (cls is_alnum) (upto 63 is_id_char)

-- `validate_permissions`, with `none` for a `ValueError`
unfoldable pub validate_permissions : List Str → Option (List Str)
validate_permissions permissions =
    if length (dedup permissions) == length permissions && all is_valid_permission permissions
    then some (sort permissions)
    else none

-- The body as the handler gets it, if the declared bounds hold; else the framework answers 422.
unfoldable pub validated_request : CreateApiKeyRequest → Option CreateApiKeyRequest
unfolding key_name_pattern validate_permissions
validated_request r =
    if fullmatch key_name_pattern r.name
      && ((leb 1 (length r.permissions) && leb (length r.permissions) 128)
          && (leb 1 r.expires_in_days && leb r.expires_in_days 365))
    then (elim (validate_permissions r.permissions) [
      | none ↦ none
      | some permissions ↦ some (record r { permissions = permissions })
    ])
    else none

-- `_resolve_target_user_id`: the target, and the administrator who acts for it
unfoldable pub resolve_target_user_id : Option Str → CurrentUser → Result Failure (Str × Option Str)
resolve_target_user_id none user = ok (user.user_id, none)
resolve_target_user_id (some target) user =
    if target == user.user_id
    then ok (user.user_id, none)
    else if contains admin_role_name user.realm_roles
    then ok (target, some user.user_id)
    else err (http_error 403 "Admin role required")

-- the response of `create_api_key`
pub record Created : Type 0 where
  pub id : Str
  pub api_key : Str
  pub key_prefix : Str
  pub permissions : List Str

pub lift {ℓ} : {A : Type ℓ} → Result Failure A → Handler A
lift r s = (r, s)

pub stored : List Str → Result DbError (Str × Str) × Session → App → Result Failure Created × App
stored permissions (ok (key_id, key_value), session) s = (
  ok (record {
    id = key_id;
    api_key = key_value;
    key_prefix = take 8 key_value;
    permissions = permissions;
  }),
  record s { session = session },
)
stored permissions (err limit_reached, session) s = (
  err (http_error 409 "API key limit reached; revoke an existing key before creating another"),
  record s { session = session },
)
stored permissions (err write_failed, session) s = (err crash, record s { session = session })

pub revoked : Result DbError Bool × Session → App → Result Failure (Unit {0}) × App
revoked (ok true, session) s = (ok tt, record s { session = session })
revoked (ok false, session) s =
    (err (http_error 404 "Key not found"), record s { session = session })
revoked (err e, session) s = (err crash, record s { session = session })

module _ (setup : Setup) where
  -- `get_permissions`
  unfoldable pub get_permissions : CurrentUser → Option Str → Handler (List Str)
  unfolding lift resolve_target_user_id entitlements_or_error
  get_permissions user query_user_id = do
    target ← lift (resolve_target_user_id query_user_id user)
    entitled ← entitlements_or_error setup target.0 404
    pure (sort (filter is_valid_permission entitled.permissions))

  -- the arguments that `create_api_key` passes to `ApiKey.create_key`
  unfoldable pub new_key : CreateApiKeyRequest → Str × Option Str → NewKey
  new_key body target = record {
    name = body.name;
    user_id = target.0;
    permissions = body.permissions;
    validity_days = body.expires_in_days;
    created_by_user_id = target.1;
    max_keys_per_user = setup.max_keys_per_user;
  }

  pub store_key : Draw → CreateApiKeyRequest → Str × Option Str → Handler Created
  unfolding stored new_key
  store_key draw body target s =
      stored body.permissions (create_key setup.platform draw (new_key body target) s.session) s

  -- `create_api_key`, of a body that the framework has validated
  unfoldable pub create_api_key : Draw → CreateApiKeyRequest → CurrentUser → Handler Created
  unfolding lift resolve_target_user_id entitlements_or_error store_key
  create_api_key draw body user = do
    target ← lift (resolve_target_user_id body.target_user_id user)
    entitled ← entitlements_or_error setup target.0 404
    require (subset (dedup body.permissions) entitled.permissions)
        (http_error 403 "Requested permissions are not currently granted")
    store_key draw body target

  -- `list_api_keys`
  unfoldable pub list_api_keys : CurrentUser → Option Str → Handler (List ApiKeyMetadata)
  unfolding lift resolve_target_user_id
  list_api_keys user query_user_id = do
    target ← lift (resolve_target_user_id query_user_id user)
    λ s. (ok (list_keys setup.platform target.0 setup.max_keys_per_user s.session), s)

-- `revoke_api_key`
unfoldable pub revoke_api_key : Str → CurrentUser → Handler (Unit {0})
unfolding revoked
revoke_api_key key_id user s =
    if contains admin_role_name user.realm_roles
    then revoked (revoke_key_as_admin key_id s.session) s
    else revoked (revoke_key key_id user.user_id s.session) s
