-- ===== src/Keycloak/Requests/Accounts.antt =====
-- Looking up a service account, and the health check, leave no cached answer that was not there.
use k8s_stack_keycloak_api_k.Base.{
  Str, ◌≡◌, refl, Option, none, some, List, [], ◌∷◌, Bool-cases, inl, inr, ◌⊎◌, Result, ok, err,
}
use k8s_stack_keycloak_api_k.Json.{Json, as_list}
use k8s_stack_keycloak_api_k.Keycloak.Exec.{
  Client, clients, service_account, Reply, World, KcError, continue,
}
use k8s_stack_keycloak_api_k.Keycloak.Requests.{
  body_of, get_client_uuid, get_with_token, is_missing, found_account, listed_client,
  mark_unavailable, get_service_account_user_id, health_check,
}
use k8s_stack_keycloak_api_k.Keycloak.Requests.Keeping.{
  Stored, Keeps, Any, Keeps-continue, Keeps-or_unavailable, get_client_uuid-Keeps,
  get_with_token-Keeps,
}

-- the cache is as it was, or empty
abbrev pub IsKept {ℓ} : {A : Type ℓ} → Stored → Result KcError A × Client → Type 0
IsKept kept (r, c) = (c.entitlement_cache ≡ kept) ⊎ (c.entitlement_cache ≡ [])

pub Keeps-IsKept {ℓ} :
    {A : Type ℓ} (kept : Stored) (r : Result KcError A × Client) → Keeps kept Any r → IsKept kept r
Keeps-IsKept kept (ok a, c) h = inl h.0
Keeps-IsKept kept (err e, c) h = inl h

module _ {ℓ κ} {A : Type ℓ} {B : Type κ} (kept : Stored) where
  IsKept-continue :
      (f : A → Client → Result KcError B × Client) (r : Result KcError A × Client)
      → Keeps kept Any r
      → ((a : A) (c : Client) → c.entitlement_cache ≡ kept → IsKept kept (f a c))
      → IsKept kept (continue f r)
  IsKept-continue f (ok a, c) h k = k a c h.0
  IsKept-continue f (err e, c) h k = inl h

module _ (w : World) where
  found_account-Keeps :
      (kept : Stored) (reply : Reply) (c : Client)
      → c.entitlement_cache ≡ kept
      → Keeps kept Any (found_account w reply c)
  unfolding found_account
  found_account-Keeps kept reply c h = elim (Bool-cases (is_missing reply)) [
    | inl missing ↦ rw missing (h, tt)
    | inr found ↦ rw found (Keeps-or_unavailable kept Any _ (body_of reply) c h (λ body _. (h, tt)))
  ]

  pub get_service_account_user_id-Keeps :
      (client_id : Str) (c : Client)
      → Keeps c.entitlement_cache Any (get_service_account_user_id w client_id c)
  unfolding get_service_account_user_id
  get_service_account_user_id-Keeps client_id c =
      Keeps-continue c.entitlement_cache Any Any _ (get_client_uuid w client_id c)
        (get_client_uuid-Keeps w c.entitlement_cache client_id c refl)
        (λ client_uuid c1 h1 _.
          Keeps-continue c.entitlement_cache Any Any _
            (get_with_token w (service_account client_uuid) c1)
            (get_with_token-Keeps w c.entitlement_cache (service_account client_uuid) c1 h1)
            (λ reply c2 h2 _. found_account-Keeps c.entitlement_cache reply c2 h2))

  listed_client-IsKept :
      (kept : Stored) (reply : Reply) (c : Client)
      → c.entitlement_cache ≡ kept
      → IsKept kept (listed_client w reply c)
  unfolding listed_client mark_unavailable
  listed_client-IsKept kept reply c h = go (body_of reply)
    where
      listed :
          (o : Option (List Json))
          → IsKept {A = Unit {0}} kept (elim o [
            | none ↦ (err KcError.unavailable, mark_unavailable c)
            | some [] ↦ (err KcError.unavailable, mark_unavailable c)
            | some (j ∷ js) ↦ (ok tt, c)
          ])
      listed none = inr refl
      listed (some []) = inr refl
      listed (some (j ∷ js)) = inl h

      go :
          (o : Option Json)
          → IsKept {A = Unit {0}} kept (elim o [
            | none ↦ (err KcError.unavailable, mark_unavailable c)
            | some body ↦ elim (as_list body) [
              | none ↦ (err KcError.unavailable, mark_unavailable c)
              | some [] ↦ (err KcError.unavailable, mark_unavailable c)
              | some (j ∷ js) ↦ (ok tt, c)
            ]
          ])
      go none = inr refl
      go (some body) = listed (as_list body)

  pub health_check-IsKept :
      (gateway : Str) (c : Client) → IsKept c.entitlement_cache (health_check w gateway c)
  unfolding health_check
  health_check-IsKept gateway c =
      IsKept-continue c.entitlement_cache _ (get_with_token w (clients gateway) c)
        (get_with_token-Keeps w c.entitlement_cache (clients gateway) c refl)
        (λ reply d h. listed_client-IsKept c.entitlement_cache reply d h)
