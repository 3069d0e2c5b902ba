-- ===== src/Api/Management/Requests.antt =====
-- Which bodies of a creation request the framework lets through.
use k8s_stack_keycloak_api_k.Base.{
  ◌≤◌, Str, ◌≡◌, ◌↔◌, refl, sym, ap, Bool, true, ◌&&◌, some, List, ◌==◌, nat_eq, str_eq, All, all,
  all→All, All→all, Distinct, Distinct-of_length, dedup_of_Distinct, dedup, length, leb, Bool-cases,
  Option-cases, inl, inr, arith,
}
use k8s_stack_keycloak_api_k.Sorting.{sort, str_ord}
use k8s_stack_keycloak_api_k.Regex.{fullmatch}
use k8s_stack_keycloak_api_k.Permissions.{is_valid_permission}
use k8s_stack_keycloak_api_k.Api.Management.{
  CreateApiKeyRequest, key_name_pattern, validate_permissions, validated_request,
}

-- A body that is within the bounds of `CreateApiKeyRequest`.
pub record IsRequest (r : CreateApiKeyRequest) : Type 0 where
  pub named : fullmatch key_name_pattern r.name ≡ true
  pub some_permission : 1 ≤ length r.permissions
  pub few_permissions : length r.permissions ≤ 128
  pub apart : Distinct r.permissions
  pub valid : All (λ p. is_valid_permission p ≡ true) r.permissions
  pub one_day : 1 ≤ r.expires_in_days
  pub one_year : r.expires_in_days ≤ 365

permissions_pass :
    (ps : List Str)
    → ((length (dedup ps) == length ps && all is_valid_permission ps) ≡ true)
      ↔ (Distinct ps × All (λ p. is_valid_permission p ≡ true) ps)
permissions_pass ps = (
  λ h. (
    Distinct-of_length ps (ground (arith, h)),
    all→All is_valid_permission ps (ground (arith, h)),
  ),
  λ (d, v). ground (arith, ap length (dedup_of_Distinct ps d), All→all is_valid_permission ps v),
)

validate_permissions_iff :
    (ps qs : List Str)
    → (validate_permissions ps ≡ some qs)
      ↔ ((Distinct ps × All (λ p. is_valid_permission p ≡ true) ps) × (qs ≡ sort ps))
unfolding validate_permissions
validate_permissions_iff ps qs =
    elim (Bool-cases (length (dedup ps) == length ps && all is_valid_permission ps)) [
      | inl passed ↦ rw passed (λ h. ((permissions_pass ps).0 passed, cc), λ h. ap some (sym h.1))
      | inr failed ↦ rw failed (λ h. cc, λ h. absurd (cc (failed, (permissions_pass ps).1 h.0)))
    ]

-- the declared bounds, without what `validate_permissions` tests
abbrev in_bounds : CreateApiKeyRequest → Bool
in_bounds r =
    fullmatch key_name_pattern r.name
    && ((leb 1 (length r.permissions) && leb (length r.permissions) 128)
        && (leb 1 r.expires_in_days && leb r.expires_in_days 365))

bounds_pass : (r : CreateApiKeyRequest) → IsRequest r → in_bounds r ≡ true
bounds_pass r is =
    ground (arith, is.named, is.some_permission, is.few_permissions, is.one_day, is.one_year)

IsRequest-of :
    (r : CreateApiKeyRequest)
    → in_bounds r ≡ true
    → Distinct r.permissions × All (λ p. is_valid_permission p ≡ true) r.permissions
    → IsRequest r
IsRequest-of r h (apart, valid) = record {
  named = ground (arith, h);
  some_permission = ground (arith, h);
  few_permissions = ground (arith, h);
  apart = apart;
  valid = valid;
  one_day = ground (arith, h);
  one_year = ground (arith, h);
}

-- A body passes exactly if its name has the declared form, its permissions are between one and 128
-- distinct valid ones, and its days are between one and 365; the handler then gets it with the
-- permissions sorted.
pub validated_request_iff :
    (r r' : CreateApiKeyRequest)
    → (validated_request r ≡ some r')
      ↔ (IsRequest r × (r' ≡ record r { permissions = sort r.permissions }))
unfolding validated_request
validated_request_iff r r' = (
  λ h. elim (Bool-cases (in_bounds r)) [
    | inl passed ↦ elim (Option-cases (validate_permissions r.permissions)) [
      | inl refused ↦ absurd (cc (rw (passed, refused) at h))
      | inr (qs, accepted) ↦
          let (fine, sorted) = (validate_permissions_iff r.permissions qs).0 accepted in
          (IsRequest-of r passed fine, cc (rw (passed, accepted, sorted) at h))
    ]
    | inr failed ↦ absurd (cc (rw failed at h))
  ],
  λ (is, e).
      rw
        (
          bounds_pass r is,
          (validate_permissions_iff r.permissions (sort r.permissions)).1
              ((is.apart, is.valid), refl),
        )
        (ap some (sym e)),
)
