-- ===== src/Keycloak/Requests/Keeping.antt =====
-- Requests leave the entitlement cache alone.
use k8s_stack_keycloak_api_k.Base.{
  ℕ, suc, ◌+◌, Str, codes, ◌≡◌, refl, Bool, true, false, Option, none, some, List, ◌∷◌, lookup, ltb,
  str_eq, if◌then◌else◌, Bool-cases, inl, inr, Result, ok, err,
}
use k8s_stack_keycloak_api_k.Json.{get, as_list, as_dict, as_nonempty_str}
use k8s_stack_keycloak_api_k.Keycloak.Exec.{
  PrincipalEntitlements, Client, Endpoint, token_endpoint, clients, user, Reply, World, KcError,
  continue, or_unavailable, require, send, read_time, tick,
}
use k8s_stack_keycloak_api_k.Keycloak.Requests.{
  body_of, acquire_token, renew_token, stored_token, get_token, get_with_token, get_body,
  resolve_client, get_client_uuid, found_user, get_user, is_missing, decode_jwt_expiry, first_entry,
}

abbrev pub Stored : Type 0
Stored = List (Str × (ℕ × Option PrincipalEntitlements))

-- the entitlement cache is still `kept`, whether the call returned or raised, and `P` holds of what
-- it returned
abbrev pub Keeps {ℓ} : {A : Type ℓ} → Stored → (A → Type 0) → Result KcError A × Client → Type 0
Keeps kept P (ok a, c) = (c.entitlement_cache ≡ kept) × P a
Keeps kept P (err e, c) = c.entitlement_cache ≡ kept

abbrev pub Any {ℓ} : {A : Type ℓ} → A → Type 0
Any a = Unit

module _ {ℓ κ} {A : Type ℓ} {B : Type κ} (kept : Stored) (Q : A → Type 0) (P : B → Type 0) where
  pub Keeps-continue :
      (f : A → Client → Result KcError B × Client) (r : Result KcError A × Client)
      → Keeps kept Q r
      → ((a : A) (c : Client) → c.entitlement_cache ≡ kept → Q a → Keeps kept P (f a c))
      → Keeps kept P (continue f r)
  Keeps-continue f (ok a, c) h k = k a c h.0 h.1
  Keeps-continue f (err e, c) h k = h

module _ {ℓ κ} {A : Type ℓ} {B : Type κ} (kept : Stored) (P : B → Type 0) where
  pub Keeps-or_unavailable :
      (f : A → Client → Result KcError B × Client) (o : Option A) (c : Client)
      → c.entitlement_cache ≡ kept
      → ((a : A) → o ≡ some a → Keeps kept P (f a c))
      → Keeps kept P (continue f (or_unavailable o c))
  Keeps-or_unavailable f none c h k = h
  Keeps-or_unavailable f (some a) c h k = k a refl

pub last_or_unavailable {ℓ} :
    {A : Type ℓ} (kept : Stored) (o : Option A) (c : Client)
    → c.entitlement_cache ≡ kept
    → Keeps kept Any (or_unavailable o c)
last_or_unavailable kept none c h = h
last_or_unavailable kept (some a) c h = (h, tt)

-- the end of `_acquire_token`
store-Keeps :
    (kept : Stored) (t : Bool) (token : Str) (expiry : ℕ) (c : Client)
    → c.entitlement_cache ≡ kept
    → Keeps {0} kept Any (
        continue
          (λ (u : Unit {0}) c. (ok tt, record c { token = some token; token_expiry = expiry }))
          (require t c))
store-Keeps kept true token expiry c h = (h, tt)
store-Keeps kept false token expiry c h = h

module _ (w : World) (kept : Stored) where
  acquire_token-Keeps :
      (c : Client) → c.entitlement_cache ≡ kept → Keeps kept Any (acquire_token w c)
  unfolding acquire_token send read_time
  acquire_token-Keeps c h =
      Keeps-or_unavailable kept Any _
        (body_of (w.reply c.ticks (record { endpoint = token_endpoint; bearer = none }))) (tick c) h
        (λ body _. Keeps-or_unavailable kept Any _ (as_dict body) (tick c) h (λ fields _.
          Keeps-or_unavailable kept Any _ (as_nonempty_str (get (codes "access_token") fields))
            (tick c) h
            (λ token _.
              store-Keeps kept (ltb (w.time (suc c.ticks)) (decode_jwt_expiry w token)) token
                (decode_jwt_expiry w token) (tick (tick c)) h)))

  renew_token-Keeps : (c : Client) → c.entitlement_cache ≡ kept → Keeps kept Any (renew_token w c)
  unfolding renew_token stored_token
  renew_token-Keeps c h =
      Keeps-continue kept Any Any _ (acquire_token w c) (acquire_token-Keeps c h)
        (λ u c' h' _. last_or_unavailable kept c'.token c' h')

  get_token-Keeps : (c : Client) → c.entitlement_cache ≡ kept → Keeps kept Any (get_token w c)
  unfolding get_token read_time
  get_token-Keeps c h = go c.token
    where
      later :
          (token : Str)
          → Keeps {A = Str} kept Any (
              if ltb (w.time c.ticks + 60) c.token_expiry
              then (ok token, tick c)
              else renew_token w (tick c))
      later token = elim (Bool-cases (ltb (w.time c.ticks + 60) c.token_expiry)) [
        | inl fresh ↦ rw fresh (h, tt)
        | inr stale ↦ rw stale (renew_token-Keeps (tick c) h)
      ]

      go :
          (o : Option Str)
          → Keeps {A = Str} kept Any (elim o [
            | none ↦ renew_token w c
            | some token ↦
                continue
                  (λ now c'.
                    if ltb (now + 60) c'.token_expiry then (ok token, c') else renew_token w c')
                  (read_time w c)
          ])
      go none = renew_token-Keeps c h
      go (some token) = later token

  pub get_with_token-Keeps :
      (endpoint : Endpoint) (c : Client)
      → c.entitlement_cache ≡ kept
      → Keeps kept Any (get_with_token w endpoint c)
  unfolding get_with_token send
  get_with_token-Keeps endpoint c h =
      Keeps-continue kept Any Any _ (get_token w c) (get_token-Keeps c h)
        (λ token c' h' _. (h', tt))

  pub get_body-Keeps :
      (endpoint : Endpoint) (c : Client)
      → c.entitlement_cache ≡ kept
      → Keeps kept Any (get_body w endpoint c)
  unfolding get_body
  get_body-Keeps endpoint c h =
      Keeps-continue kept Any Any _ (get_with_token w endpoint c)
        (get_with_token-Keeps endpoint c h)
        (λ reply c' h' _. last_or_unavailable kept (body_of reply) c' h')

  resolve_client-Keeps :
      (client_id : Str) (c : Client)
      → c.entitlement_cache ≡ kept
      → Keeps kept Any (resolve_client w client_id c)
  unfolding resolve_client
  resolve_client-Keeps client_id c h =
      Keeps-continue kept Any Any _ (get_body w (clients client_id) c)
        (get_body-Keeps (clients client_id) c h)
        (λ body c' h' _. Keeps-or_unavailable kept Any _ (as_list body) c' h' (λ entries _.
          Keeps-or_unavailable kept Any _ (first_entry w entries) c' h' (λ entry _.
            Keeps-or_unavailable kept Any _ (as_dict entry) c' h' (λ fields _.
              Keeps-or_unavailable kept Any
                (λ client_uuid c''. (
                  ok client_uuid,
                  record c'' { client_ids = (client_id, client_uuid) ∷ c''.client_ids },
                ))
                (as_nonempty_str (get (codes "id") fields)) c' h' (λ client_uuid _. (h', tt))))))

  pub get_client_uuid-Keeps :
      (client_id : Str) (c : Client)
      → c.entitlement_cache ≡ kept
      → Keeps kept Any (get_client_uuid w client_id c)
  unfolding get_client_uuid
  get_client_uuid-Keeps client_id c h = go (lookup client_id c.client_ids)
    where
      go :
          (o : Option Str)
          → Keeps {A = Str} kept Any (elim o [
            | some client_uuid ↦ (ok client_uuid, c)
            | none ↦ resolve_client w client_id c
          ])
      go (some client_uuid) = (h, tt)
      go none = resolve_client-Keeps client_id c h

  found_user-Keeps :
      (reply : Reply) (c : Client)
      → c.entitlement_cache ≡ kept
      → Keeps kept Any (found_user w reply c)
  unfolding found_user
  found_user-Keeps reply c h = elim (Bool-cases (is_missing reply)) [
    | inl missing ↦ rw missing (h, tt)
    | inr found ↦ rw found (
        Keeps-or_unavailable kept Any _ (body_of reply) c h (λ body _.
          Keeps-or_unavailable kept Any (λ fields c'. (ok (some fields), c')) (as_dict body) c h
            (λ fields _. (h, tt))))
  ]

  pub get_user-Keeps :
      (user_id : Str) (c : Client)
      → c.entitlement_cache ≡ kept
      → Keeps kept Any (get_user w user_id c)
  unfolding get_user
  get_user-Keeps user_id c h =
      Keeps-continue kept Any Any _ (get_with_token w (user user_id) c)
        (get_with_token-Keeps (user user_id) c h) (λ reply c' h' _. found_user-Keeps reply c' h')
