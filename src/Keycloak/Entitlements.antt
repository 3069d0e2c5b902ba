-- ===== src/Keycloak/Entitlements.antt =====
-- Entitlements of a principal: role mappings, group pages, and the cache in front of them.
pub mod Paging
pub mod Answers
pub mod Cache
use k8s_stack_keycloak_api_k.Base.{
  ℕ, zero, suc, ◌+◌, Str, codes, Bool, true, false, not, ◌&&◌, Option, none, some, List, [], ◌∷◌,
  ◌++◌, ◌==◌, nat_eq, str_eq, length, filter, dedup, lookup, is_empty, leb, ltb, if◌then◌else◌,
  Result, ok, err,
}
use k8s_stack_keycloak_api_k.Permissions.{is_valid_permission}
use k8s_stack_keycloak_api_k.Managed.Grant.{strip}
use k8s_stack_keycloak_api_k.Json.{Json, Fields, get, get_or, as_str, as_list, as_dict, truthy}
use k8s_stack_keycloak_api_k.Keycloak.Exec.{
  PrincipalEntitlements, Client, role_mappings, groups_from, World, Config, KcError, out_of_fuel,
  Kc, pure, raise, continue, or_unavailable, ◌>>=◌, ◌>>◌, modify, read_monotonic,
}
use k8s_stack_keycloak_api_k.Keycloak.Requests.{get_body, get_user, get_client_uuid}

-- the name of a role, if it has one that is a text
role_name : Json → Option Str
role_name j = elim (as_dict j) [ none ↦ none | some fs ↦ as_str (get (codes "name") fs) ]

role_names : List Json → List Str
unfolding role_name
role_names [] = []
role_names (j ∷ js) =
    let rest = role_names js in elim (role_name j) [ none ↦ rest | some s ↦ s ∷ rest ]

-- the frozenset of valid role names
unfoldable pub valid_permissions : List Json → List Str
unfolding role_names
valid_permissions roles = dedup (filter is_valid_permission (role_names roles))

is_full_path : Str → Bool
is_full_path [] = false
is_full_path (c ∷ path) = c == b'/' && not (is_empty path)

group_path : Json → Option Str
unfolding is_full_path
group_path j = elim (as_dict j) [
  | none ↦ none
  | some fs ↦ elim (as_str (get (codes "path") fs)) [
    | none ↦ none
    | some path ↦ if is_full_path path then some path else none
  ]
]

-- the paths of one page, `none` if a group has no full path
unfoldable pub page_paths : List Json → Option (List Str)
unfolding group_path
page_paths [] = some []
page_paths (j ∷ js) = elim (group_path j) [
  | none ↦ none
  | some path ↦ elim (page_paths js) [ none ↦ none | some paths ↦ some (path ∷ paths) ]
]

-- `email if isinstance(email, str) and email.strip() else None`
unfoldable pub account_email : Fields → Option Str
account_email user = elim (as_str (get (codes "email") user)) [
  | none ↦ none
  | some email ↦ if is_empty (strip email) then none else some email
]

module _ (w : World) where
  one_page : Str → ℕ → Kc (List Json × List Str)
  unfolding page_paths get_body
  one_page principal first = do
    body ← get_body w (groups_from principal first)
    memberships ← or_unavailable (as_list body)
    paths ← or_unavailable (page_paths memberships)
    pure (memberships, paths)

  -- The loop over the pages, one page for each unit of fuel.
  unfoldable pub collect_groups : ℕ → Str → ℕ → List Str → Kc (List Str)
  unfolding one_page
  collect_groups zero principal first found = raise out_of_fuel
  collect_groups (suc fuel) principal first found = one_page principal first >>= λ (page, paths).
      let more = collect_groups fuel principal (first + length page) (found ++ paths) in
      if ltb (length page) 100 then pure (found ++ paths) else more

  module _ (config : Config) (fuel : ℕ) where
    enabled_entitlements : Str → Fields → Kc (Option PrincipalEntitlements)
    unfolding get_client_uuid get_body valid_permissions collect_groups account_email
    enabled_entitlements principal user = do
      client_uuid ← get_client_uuid w config.agentgateway_client_id
      body ← get_body w (role_mappings principal client_uuid)
      roles ← or_unavailable (as_list body)
      groups ← collect_groups fuel principal 0 []
      pure (
          some (record {
            permissions = valid_permissions roles;
            groups = dedup groups;
            account_email = account_email user;
          }))

    for_user : Str → Option Fields → Kc (Option PrincipalEntitlements)
    unfolding enabled_entitlements
    for_user principal none = pure none
    for_user principal (some user) =
        if truthy (get_or (codes "enabled") (Json.bool false) user)
        then enabled_entitlements principal user
        else pure none

    -- `_fetch_principal_entitlements`
    unfoldable pub fetch_principal_entitlements : Str → Kc (Option PrincipalEntitlements)
    unfolding get_user for_user
    fetch_principal_entitlements principal = do user ← get_user w principal; for_user principal user

    pub ttl_of : Option PrincipalEntitlements → ℕ
    ttl_of none = config.negative_cache_ttl_seconds
    ttl_of (some e) = config.entitlement_cache_ttl_seconds

    fetch_and_store : Str → Kc (Option PrincipalEntitlements)
    unfolding fetch_principal_entitlements ttl_of read_monotonic
    fetch_and_store principal = do
      value ← fetch_principal_entitlements principal
      later ← read_monotonic w
      modify (λ c. record c {
        entitlement_cache = (principal, (later + ttl_of value, value)) ∷ c.entitlement_cache;
      })
      pure value

    cached_or_fetch :
        ℕ → Str → Option (ℕ × Option PrincipalEntitlements) → Kc (Option PrincipalEntitlements)
    unfolding fetch_and_store
    cached_or_fetch now principal none c = fetch_and_store principal c
    cached_or_fetch now principal (some (until, value)) c =
        if ltb now until then (ok value, c) else fetch_and_store principal c

    -- `get_principal_entitlements`
    unfoldable pub get_principal_entitlements : Str → Kc (Option PrincipalEntitlements)
    unfolding cached_or_fetch read_monotonic
    get_principal_entitlements principal = read_monotonic w >>= λ now c.
        cached_or_fetch now principal (lookup principal c.entitlement_cache) c
