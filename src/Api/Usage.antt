-- ===== src/Api/Usage.antt =====
-- `me`, `usage_key_metadata` and `_managed_usage_names` of controllers/api_keys.py.
pub mod Asked
pub mod Own
pub mod Keeping
pub mod Rows
pub mod Managed
pub mod Gathered
pub mod Sources
use k8s_stack_keycloak_api_k.Base.{
  ℕ, ◌≡◌, ◌↔◌, refl, Str, codes, Bool, true, false, not, ◌&&◌, ◌||◌, Option, none, some, List, [],
  ◌∷◌, ◌++◌, map, ◌==◌, ==_iff, Comparable, nat_eq, str_eq, pair_eq, lookup, contains, dedup, any,
  all, filter, length, leb, if◌then◌else◌, Result, ok, err, arith,
}
use k8s_stack_keycloak_api_k.Managed.Grant.{
  ManagedApiKey, Raised, slot_fault, duplicate_verifiers, unicode_decode,
}
use k8s_stack_keycloak_api_k.Managed.Slots.{metadata, context_credential_id}
use k8s_stack_keycloak_api_k.Database.Session.{ApiKey, Session, visible}
use k8s_stack_keycloak_api_k.Keycloak.Exec.{Client, KcError, Kc}
use k8s_stack_keycloak_api_k.Keycloak.Exec as Exec
use k8s_stack_keycloak_api_k.Keycloak.Requests.{get_service_account_user_id}
use k8s_stack_keycloak_api_k.Jwks.{Cache}
use k8s_stack_keycloak_api_k.Api.Http.{
  AuthInfo, Setup, App, Failure, crash, out_of_fuel, http_error, Handler, pure, raise, continue,
  or_raise, ◌>>=◌, ◌>>◌, require,
}
use k8s_stack_keycloak_api_k.Api.Tokens.{CurrentUser}

-- the response of `me`
pub record Me : Type 0 where
  pub user_id : Str
  pub realm : Str

unfoldable pub me : CurrentUser → AuthInfo → Me
me user auth_info = record { user_id = user.user_id; realm = auth_info.realm }

-- the values of `kind`
pub data Kind : Type 0 where
  personal managed : Kind

abbrev pub kind_beq : Kind → Kind → Bool
kind_beq personal personal = true
kind_beq personal managed = false
kind_beq managed personal = false
kind_beq managed managed = true

pub kind_beq_iff : (x y : Kind) → (kind_beq x y ≡ true) ↔ (x ≡ y)
kind_beq_iff personal personal = (λ h. refl, λ h. refl)
kind_beq_iff personal managed = (λ h. cc, λ h. cc)
kind_beq_iff managed personal = (λ h. cc, λ h. cc)
kind_beq_iff managed managed = (λ h. refl, λ h. refl)

instance abbrev pub kind_eq : Comparable Kind
kind_eq = record { alike = kind_beq; alike_iff = kind_beq_iff }

pub record UsageKeyReference : Type 0 where
  pub id : Str
  pub user_id : Str
  pub kind : Kind

pub record UsageKeyMetadata : Type 0 where
  pub id : Str
  pub user_id : Str
  pub kind : Kind
  pub name : Str

-- `Field(min_length=1, max_length=255)`
bounded : Str → Bool
bounded s = leb 1 (length s) && leb (length s) 255

-- `UsageKeyMetadataRequest`: the body as the handler gets it; else the framework answers 422
unfoldable pub validated_keys : List UsageKeyReference → Option (List UsageKeyReference)
unfolding bounded
validated_keys keys =
    if leb (length keys) 500 && all (λ k. bounded k.id && bounded k.user_id) keys
    then some keys
    else none

-- A dict from (id, user_id, kind) to a name, the latest entry first.
abbrev pub Names : Type 0
Names = List ((Str × (Str × Kind)) × Str)

-- the key of `names` for a reference
abbrev pub name_key : UsageKeyReference → Str × (Str × Kind)
name_key k = (k.id, (k.user_id, k.kind))

-- `{(key.id, key.user_id) for key in keys if key.kind == kind}`
unfoldable pub ids_of : Kind → List UsageKeyReference → List (Str × Str)
ids_of kind keys =
    dedup (map (λ (k : UsageKeyReference). (k.id, k.user_id)) (filter (λ k. k.kind == kind) keys))

-- `{(row.id, row.user_id, "personal"): row.name for row in rows}`
unfoldable pub row_names : List ApiKey → Names → Names
row_names [] names = names
row_names (r ∷ rows) names = row_names rows (((r.id, (r.user_id, personal)), r.name) ∷ names)

unfoldable pub personal_names : List UsageKeyReference → Session → Names
unfolding ids_of row_names visible
personal_names keys s =
    row_names (filter (λ r. contains (r.id, r.user_id) (ids_of personal keys)) (visible s)) []

-- `owners`: what Keycloak answered for a client in this request
abbrev pub Owners : Type 0
Owners = List (Str × Option Str)

-- the two dicts of the loop
pub record Found : Type 0 where
  pub owners : Owners
  pub names : Names

named : List (Str × Str) → Str → Str → Option Str → Names → Names
named requested identity name none names = names
named requested identity name (some owner) names =
    if contains (identity, owner) requested
    then ((identity, (owner, managed)), name) ∷ names
    else names

unfoldable pub is_managed : UsageKeyReference → Bool
is_managed k = k.kind == managed

abbrev pub usage_admin : Str
usage_admin = codes "langfuse-admin"

-- `key.user_id != current_user.user_id or key.kind != "personal"`
unfoldable pub is_foreign : CurrentUser → UsageKeyReference → Bool
is_foreign user k = not (k.user_id == user.user_id) || not (k.kind == personal)

abbrev pub no_metadata : Failure
no_metadata = http_error 503 "Managed key metadata unavailable"

-- The client after the call. `KeycloakUnavailableError` answers 503; unlike the other handlers this
-- one discards neither the client's state nor the signing keys.
unfoldable pub answered : Cache → Result KcError Found × Client → Handler Names
answered c (ok found, client) s =
    (ok found.names, record s { cache = some (record c { client = client }) })
answered c (err Exec.unavailable, client) s =
    (err no_metadata, record s { cache = some (record c { client = client }) })
answered c (err Exec.out_of_fuel, client) s =
    (err out_of_fuel, record s { cache = some (record c { client = client }) })

-- `UsageKeyMetadata(**key.model_dump(), name=names[...])` for a key that is in `names`
described : UsageKeyReference → Option Str → List UsageKeyMetadata → List UsageKeyMetadata
described k none ms = ms
described k (some name) ms =
    record { id = k.id; user_id = k.user_id; kind = k.kind; name = name } ∷ ms

unfoldable pub describe_all : Names → List UsageKeyReference → List UsageKeyMetadata
unfolding described
describe_all names [] = []
describe_all names (k ∷ keys) = described k (lookup (name_key k) names) (describe_all names keys)

module _ (setup : Setup) where
  -- `owners[client_id]`, after asking Keycloak if it is missing
  unfoldable pub owner_of : Str → Owners → Kc (Option Str × Owners)
  owner_of client_id owners c = elim (lookup client_id owners) [
    | some owner ↦ (ok (owner, owners), c)
    | none ↦
        Exec.continue (λ owner d. (ok (owner, (client_id, owner) ∷ owners), d))
          (get_service_account_user_id setup.world client_id c)
  ]

  -- one round of the loop
  unfoldable pub name_managed : List (Str × Str) → ManagedApiKey → Found → Kc Found
  unfolding owner_of named
  name_managed requested key found c =
      let identity = context_credential_id setup.host key in
      if any (λ (r : Str × Str). r.0 == identity) requested
      then Exec.continue
          (λ (owner, owners) d. (
            ok (record {
              owners = owners;
              names = named requested identity key.name owner found.names;
            }),
            d,
          ))
          (owner_of key.principal_client_id found.owners c)
      else (ok found, c)

  unfoldable pub name_all : List (Str × Str) → List ManagedApiKey → Found → Kc Found
  unfolding name_managed
  name_all requested [] found c = (ok found, c)
  name_all requested (key ∷ keys) found c =
      Exec.continue (name_all requested keys) (name_managed requested key found c)

  -- the body of the `try`
  unfoldable pub lookup_managed :
      List UsageKeyReference → Cache → Result Raised (List ManagedApiKey) → Handler Names
  unfolding ids_of name_all answered
  lookup_managed keys c (ok registered) s =
      answered c
        (name_all (ids_of managed keys) registered (record { owners = []; names = [] }) c.client) s
  lookup_managed keys c (err (slot_fault slot reason)) s = (err no_metadata, s)
  lookup_managed keys c (err duplicate_verifiers) s = (err no_metadata, s)
  lookup_managed keys c (err unicode_decode) s = (err crash, s)

  -- `_managed_usage_names`
  unfoldable pub managed_usage_names : List UsageKeyReference → Handler Names
  unfolding lookup_managed
  managed_usage_names keys s = elim s.cache [
    | none ↦ (err no_metadata, s)
    | some c ↦ lookup_managed keys c (metadata setup.host setup.managed_slots) s
  ]

  -- `names` as the list of results reads it
  unfoldable pub usage_names : List UsageKeyReference → Bool → Handler Names
  unfolding personal_names managed_usage_names is_managed
  usage_names keys is_admin s =
      if is_admin && any is_managed keys
      then continue (λ found t. (ok (found ++ personal_names keys s.session), t))
          (managed_usage_names keys s)
      else (ok (personal_names keys s.session), s)

  unfoldable pub usage_key_metadata :
      List UsageKeyReference → CurrentUser → Handler (List UsageKeyMetadata)
  unfolding is_foreign usage_names describe_all
  usage_key_metadata keys user = do
    require (contains usage_admin user.realm_roles || not (any (is_foreign user) keys))
        (http_error 403 "Usage metadata is self-only")
    names ← usage_names keys (contains usage_admin user.realm_roles)
    pure (describe_all names keys)
