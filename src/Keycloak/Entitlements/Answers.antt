-- ===== src/Keycloak/Entitlements/Answers.antt =====
-- What the entitlements of a principal look like, and that asking for them leaves the stored ones alone.
use k8s_stack_keycloak_api_k.Base.{
  ℕ, zero, suc, ◌+◌, Str, codes, ◌≡◌, inl, inr, true, false, Option, none, some, List, [], ◌++◌,
  str_eq, All, All-of_contains, filter, dedup, contains-dedup, contains-filter, Distinct,
  dedup-Distinct, length, ltb, Bool-cases, arith, ok,
}
use k8s_stack_keycloak_api_k.Permissions.{is_valid_permission}
use k8s_stack_keycloak_api_k.Json.{Json, Fields, as_list, truthy, get_or}
use k8s_stack_keycloak_api_k.Keycloak.Exec.{
  PrincipalEntitlements, Client, role_mappings, groups_from, World, Config,
}
use k8s_stack_keycloak_api_k.Keycloak.Requests.{get_body, get_client_uuid, get_user}
use k8s_stack_keycloak_api_k.Keycloak.Requests.Keeping.{
  Stored, Keeps, Any, Keeps-continue, Keeps-or_unavailable, get_body-Keeps, get_client_uuid-Keeps,
  get_user-Keeps,
}
use k8s_stack_keycloak_api_k.Keycloak.Entitlements.{
  valid_permissions, role_names, account_email, page_paths, one_page, collect_groups,
  enabled_entitlements, for_user, fetch_principal_entitlements,
}

-- An answer for a principal: none, or entitlements whose permissions are valid and distinct.
abbrev pub IsAnswer : Option PrincipalEntitlements → Type 0
IsAnswer none = Unit
IsAnswer (some e) = All (λ p. is_valid_permission p ≡ true) e.permissions × Distinct e.permissions

valid_permissions-valid :
    (roles : List Json)
    → All (λ p. is_valid_permission p ≡ true) (valid_permissions roles)
      × Distinct (valid_permissions roles)
unfolding valid_permissions
valid_permissions-valid roles = (
  All-of_contains (λ p. is_valid_permission p ≡ true)
      (dedup (filter is_valid_permission (role_names roles)))
      (λ p h. ground (
        arith,
        h,
        contains-dedup p (filter is_valid_permission (role_names roles)),
        contains-filter is_valid_permission p (role_names roles),
      )),
  dedup-Distinct (filter is_valid_permission (role_names roles)),
)

module _ (w : World) (kept : Stored) where
  one_page-Keeps :
      (principal : Str) (first : ℕ) (c : Client)
      → c.entitlement_cache ≡ kept
      → Keeps kept Any (one_page w principal first c)
  unfolding one_page
  one_page-Keeps principal first c h =
      Keeps-continue kept Any Any _ (get_body w (groups_from principal first) c)
        (get_body-Keeps w kept (groups_from principal first) c h)
        (λ body c' h' _. Keeps-or_unavailable kept Any _ (as_list body) c' h' (λ memberships _.
          Keeps-or_unavailable kept Any (λ paths c''. (ok (memberships, paths), c''))
            (page_paths memberships) c' h' (λ paths _. (h', tt))))

  collect_groups-Keeps :
      (fuel : ℕ) (principal : Str) (first : ℕ) (found : List Str) (c : Client)
      → c.entitlement_cache ≡ kept
      → Keeps kept Any (collect_groups w fuel principal first found c)
  unfolding collect_groups
  collect_groups-Keeps zero principal first found c h = h
  collect_groups-Keeps (suc fuel) principal first found c h =
      Keeps-continue kept Any Any _ (one_page w principal first c)
        (one_page-Keeps principal first c h)
        (λ (page, paths) c' h' _. elim (Bool-cases (ltb (length page) 100)) [
          | inl last ↦ rw last (h', tt)
          | inr more ↦
              rw more
                (collect_groups-Keeps fuel principal (first + length page) (found ++ paths) c' h')
        ])

  module _ (config : Config) (fuel : ℕ) where
    enabled-Keeps :
        (principal : Str) (user : Fields) (c : Client)
        → c.entitlement_cache ≡ kept
        → Keeps kept IsAnswer (enabled_entitlements w config fuel principal user c)
    unfolding enabled_entitlements
    enabled-Keeps principal user c h =
        Keeps-continue kept Any IsAnswer _ (get_client_uuid w config.agentgateway_client_id c)
          (get_client_uuid-Keeps w kept config.agentgateway_client_id c h)
          (λ client_uuid c1 h1 _.
            Keeps-continue kept Any IsAnswer _ (get_body w (role_mappings principal client_uuid) c1)
              (get_body-Keeps w kept (role_mappings principal client_uuid) c1 h1)
              (λ body c2 h2 _. Keeps-or_unavailable kept IsAnswer _ (as_list body) c2 h2 (λ roles _.
                Keeps-continue kept Any IsAnswer
                  (λ groups c'. (
                    ok (
                        some (record {
                          permissions = valid_permissions roles;
                          groups = dedup groups;
                          account_email = account_email user;
                        })),
                    c',
                  ))
                  (collect_groups w fuel principal 0 [] c2)
                  (collect_groups-Keeps fuel principal 0 [] c2 h2)
                  (λ groups c3 h3 _. (h3, valid_permissions-valid roles)))))

    for_user-Keeps :
        (principal : Str) (found : Option Fields) (c : Client)
        → c.entitlement_cache ≡ kept
        → Keeps kept IsAnswer (for_user w config fuel principal found c)
    unfolding for_user
    for_user-Keeps principal none c h = (h, tt)
    for_user-Keeps principal (some user) c h =
        elim (Bool-cases (truthy (get_or (codes "enabled") (Json.bool false) user))) [
          | inl enabled ↦ rw enabled (enabled-Keeps principal user c h)
          | inr disabled ↦ rw disabled (h, tt)
        ]

    pub fetch-Keeps :
        (principal : Str) (c : Client)
        → c.entitlement_cache ≡ kept
        → Keeps kept IsAnswer (fetch_principal_entitlements w config fuel principal c)
    unfolding fetch_principal_entitlements
    fetch-Keeps principal c h =
        Keeps-continue kept Any IsAnswer _ (get_user w principal c)
          (get_user-Keeps w kept principal c h)
          (λ found c' h' _. for_user-Keeps principal found c' h')
