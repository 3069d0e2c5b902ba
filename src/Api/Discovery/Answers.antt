-- ===== src/Api/Discovery/Answers.antt =====
-- What a gateway caller learns, and when a credential is tried as a token.
use k8s_stack_keycloak_api_k.Base.{
  Str, codes, ◌≡◌, refl, ◌++◌, true, false, some, List, Distinct, dedup, dedup-Distinct, contains,
  contains-dedup, contains-filter, filter, lookup, str_eq, arith, Bool-cases, inl, inr, Result, ok,
  err,
}
use k8s_stack_keycloak_api_k.Sorting.{sort, str_ord}
use k8s_stack_keycloak_api_k.Sorting.Laws.{
  IsSortedBy, sort_by-IsSortedBy, sort_by-Distinct, contains-sort,
}
use k8s_stack_keycloak_api_k.Permissions.{is_valid_permission}
use k8s_stack_keycloak_api_k.Json.{get, as_nonempty_str, is_text}
use k8s_stack_keycloak_api_k.Api.Http.{Setup, App, Failure, HttpRequest}
use k8s_stack_keycloak_api_k.Api.Returns.{
  Returns, Returns-continue, Returns-or_raise, Returns-lift, Returns-require, Returns-ok,
}
use k8s_stack_keycloak_api_k.Api.Credentials.{neurwerk, dedicated_api_key}
use k8s_stack_keycloak_api_k.Api.Tokens.{verified_token}
use k8s_stack_keycloak_api_k.Api.Validation.{Response, validate_key, effective}
use k8s_stack_keycloak_api_k.Api.Validation.Effective.{effective_lem}
use k8s_stack_keycloak_api_k.Api.Validation.Decisions.{personal, managed, validate_key_sound}
use k8s_stack_keycloak_api_k.Api.Discovery.{
  is_json_content, is_invalid_key, is_approved, gateway_roles, token_permissions, key_or_token,
  gateway_caller_permissions, invalid_permissions, lift,
}

-- a list of permissions as a caller gets it: valid ones, once each, in the order of their code points
abbrev pub AreAnswered : List Str → Type 0
AreAnswered ps =
    ((p : Str) → contains p ps ≡ true → is_valid_permission p ≡ true)
    × Distinct ps
    × IsSortedBy str_ord.le? ps

effective-AreAnswered : (grant entitled : List Str) → AreAnswered (effective grant entitled)
effective-AreAnswered grant entitled = (
  λ p h. ground (arith, h, (effective_lem grant entitled).0 p),
  (effective_lem grant entitled).1,
  (effective_lem grant entitled).2,
)

roles-AreAnswered :
    (roles : List Str) → AreAnswered (sort (dedup (filter is_valid_permission roles)))
unfolding sort
roles-AreAnswered roles = (
  λ p h. ground (
    arith,
    h,
    contains-sort p (dedup (filter is_valid_permission roles)),
    contains-dedup p (filter is_valid_permission roles),
    contains-filter is_valid_permission p roles,
  ),
  sort_by-Distinct str_ord.le? (dedup (filter is_valid_permission roles))
      (dedup-Distinct (filter is_valid_permission roles)),
  sort_by-IsSortedBy str_ord.le? str_ord.total str_ord.trans
      (dedup (filter is_valid_permission roles)),
)

Answered : List Str → App → Type 0
Answered ps s = AreAnswered ps

module _ (setup : Setup) where
  token_permissions-Answered :
      (approved : List Str) (credential : Str) (s : App)
      → Returns Answered (token_permissions setup approved credential s)
  unfolding token_permissions Answered
  token_permissions-Answered approved credential s =
      Returns-continue Answered _
        (verified_token setup (some (codes "Bearer " ++ credential)) setup.agentgateway_client_id s)
        (λ payload s' _.
          Returns-require Answered (is_text (codes "Bearer") (get (codes "typ") payload)) _ s' _
            (λ _.
              Returns-or_raise Answered (as_nonempty_str (get (codes "sub") payload)) _ s' _
                (λ sub _.
                  Returns-require Answered (is_approved setup approved (get (codes "azp") payload))
                    _ s' _
                    (λ _.
                      Returns-or_raise Answered (gateway_roles setup payload) invalid_permissions s'
                        (λ roles s''. (ok (sort (dedup (filter is_valid_permission roles))), s''))
                        (λ roles _. roles-AreAnswered roles)))))

  grounds-AreAnswered :
      (credential : Str) (s s' : App) (r : Response)
      → validate_key setup credential s ≡ (ok r, s')
      → AreAnswered r.decision.permissions
  grounds-AreAnswered credential s s' r h = elim (validate_key_sound setup credential s s' r h).0 [
    | personal key e cache m g here en k i p same groups ↦
        rw same (effective-AreAnswered key.permissions e.permissions)
    | managed key e principal cache c' m here a en k i p same groups ↦
        rw same (effective-AreAnswered key.permissions e.permissions)
  ]

  key_or_token-Answered :
      (approved : List Str) (credential : Str) (s : App) (r : Result Failure Response × App)
      → validate_key setup credential s ≡ r
      → Returns Answered (key_or_token setup approved credential r)
  unfolding key_or_token Answered
  key_or_token-Answered approved credential s (ok r, s') h = grounds-AreAnswered credential s s' r h
  key_or_token-Answered approved credential s (err e, s') h = elim (Bool-cases (is_invalid_key e)) [
    | inl invalid ↦ rw invalid (token_permissions-Answered approved credential s')
    | inr other ↦ rw other tt
  ]

  answered :
      (request : HttpRequest) (binding_id : Str) (s : App)
      → Returns Answered (gateway_caller_permissions setup request binding_id s)
  unfolding gateway_caller_permissions lift
  answered request binding_id s = Returns-require Answered (is_json_content request) _ s _ (λ _.
      Returns-or_raise Answered (lookup binding_id setup.oidc_clients_by_binding) _ s _
        (λ approved _.
          Returns-lift Answered (dedicated_api_key setup.codec request neurwerk) s
            (λ credential s'.
              key_or_token setup approved credential (validate_key setup credential s'))
            (λ credential _.
              key_or_token-Answered approved credential s (validate_key setup credential s) refl)))

  -- Whatever a gateway caller is answered, for a key or for a token, is a list of valid permissions,
  -- each once, in the order of their code points.
  pub gateway_caller_permissions-AreAnswered :
      (request : HttpRequest) (binding_id : Str) (s s' : App) (ps : List Str)
      → gateway_caller_permissions setup request binding_id s ≡ (ok ps, s')
      → AreAnswered ps
  unfolding Answered
  gateway_caller_permissions-AreAnswered request binding_id s s' ps h =
      Returns-ok Answered (gateway_caller_permissions setup request binding_id s) {a = ps} {s = s'}
        (answered request binding_id s) h

  -- A credential is tried as a token only if no key was found for it: if validating it as a key fails
  -- otherwise, as in an outage or on broken configuration, that failure is the answer.
  pub gateway_caller_permissions_no_fallback :
      (request : HttpRequest) (binding_id credential : Str) (approved : List Str) (s t : App)
      (e : Failure)
      → is_json_content request ≡ true
      → lookup binding_id setup.oidc_clients_by_binding ≡ some approved
      → dedicated_api_key setup.codec request neurwerk ≡ ok credential
      → validate_key setup credential s ≡ (err e, t)
      → is_invalid_key e ≡ false
      → gateway_caller_permissions setup request binding_id s ≡ (err e, t)
  unfolding gateway_caller_permissions lift key_or_token
  gateway_caller_permissions_no_fallback request binding_id credential approved s t e json bound
        sent failed other =
      rw (json, bound, sent, failed, other) refl
