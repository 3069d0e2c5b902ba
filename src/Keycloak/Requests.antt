-- ===== src/Keycloak/Requests.antt =====
-- Tokens, requests with a token, client ids and users.
pub mod Keeping
pub mod Accounts
use k8s_stack_keycloak_api_k.Base.{
  ℕ, ◌+◌, ◌-◌, Str, codes, Bool, true, false, not, ◌&&◌, Option, none, some, List, [], ◌∷◌, ◌++◌,
  ◌==◌, nat_eq, str_eq, length, lookup, ltb, leb, if◌then◌else◌, Result, ok, err,
}
use Prim.Native.Nat.{◌%◌}
use k8s_stack_keycloak_api_k.Json.{Json, Fields, get, as_str, as_list, as_dict, as_nonempty_str}
use k8s_stack_keycloak_api_k.Keycloak.Exec.{
  Client, Endpoint, certs, token_endpoint, clients, user, service_account, Request, Reply,
  transport_error, response, World, KcError, unavailable, Kc, pure, raise, continue, or_unavailable,
  ◌>>=◌, ◌>>◌, modify, require, tick, send, read_time,
}

-- `response.raise_for_status()`: a status that is no 2xx raises
abbrev pub is_success : ℕ → Bool
is_success status = leb 200 status && ltb status 300

-- `raise_for_status` and `json`, with `HTTPError` and `ValueError` as Keycloak being unavailable
unfoldable pub body_of : Reply → Option Json
body_of transport_error = none
body_of (response status body) = if is_success status then body else none

-- `404`, which two methods read as "there is none"
abbrev pub is_missing : Reply → Bool
is_missing transport_error = false
is_missing (response status body) = status == 404

replicate : ℕ → ℕ → Str
replicate ℕ.zero a = []
replicate (ℕ.suc n) a = a ∷ replicate n a

-- the text up to the first dot
before_dot : Str → Str
before_dot [] = []
before_dot (c ∷ s) = let rest = before_dot s in if c == b'.' then [] else c ∷ rest

-- `token.split(".")[1]`, `none` for an `IndexError`
second_part : Str → Option Str
unfolding before_dot
second_part [] = none
second_part (c ∷ s) = let rest = second_part s in if c == b'.' then some (before_dot s) else rest

-- `mark_unavailable`
unfoldable pub mark_unavailable : Client → Client
mark_unavailable c = record c { token = none; token_expiry = 0; entitlement_cache = [] }

module _ (w : World) where
  expiry_of : Str → Option ℕ
  unfolding replicate
  expiry_of encoded =
      elim (w.decode_payload (encoded ++ replicate ((4 - length encoded % 4) % 4) b'=')) [
        | none ↦ none
        | some j ↦ elim (as_dict j) [ none ↦ none | some fs ↦ w.to_float (get (codes "exp") fs) ]
      ]

  -- `_decode_jwt_expiry`
  unfoldable pub decode_jwt_expiry : Str → ℕ
  unfolding expiry_of second_part
  decode_jwt_expiry jwt = elim (second_part jwt) [
    | none ↦ 0
    | some encoded ↦ elim (expiry_of encoded) [ none ↦ 0 | some expiry ↦ expiry ]
  ]

  -- `_acquire_token`
  unfoldable pub acquire_token : Kc (Unit {0})
  unfolding send body_of decode_jwt_expiry read_time
  acquire_token = do
    reply ← send w (record { endpoint = token_endpoint; bearer = none })
    body ← or_unavailable (body_of reply)
    fields ← or_unavailable (as_dict body)
    token ← or_unavailable (as_nonempty_str (get (codes "access_token") fields))
    now ← read_time w
    require (ltb now (decode_jwt_expiry token))
    modify (λ c. record c { token = some token; token_expiry = decode_jwt_expiry token })

  stored_token : Kc Str
  stored_token c = or_unavailable c.token c

  renew_token : Kc Str
  unfolding acquire_token stored_token
  renew_token = do acquire_token; stored_token

  -- `_get_token`: a stored token serves while more than a minute of it is left
  unfoldable pub get_token : Kc Str
  unfolding renew_token read_time
  get_token c = elim c.token [
    | none ↦ renew_token c
    | some token ↦
        continue
          (λ now c'. if ltb (now + 60) c'.token_expiry then (ok token, c') else renew_token c')
          (read_time w c)
  ]

  -- `self._client.get(…, headers=self._headers())`
  unfoldable pub get_with_token : Endpoint → Kc Reply
  unfolding get_token send
  get_with_token endpoint = do
    token ← get_token
    send w (record { endpoint = endpoint; bearer = some token })

  unfoldable pub get_body : Endpoint → Kc Json
  unfolding get_with_token body_of
  get_body endpoint = do reply ← get_with_token endpoint; or_unavailable (body_of reply)

  -- `fetch_jwks`
  unfoldable pub fetch_jwks : Kc Fields
  unfolding send body_of
  fetch_jwks = do
    reply ← send w (record { endpoint = certs; bearer = none })
    body ← or_unavailable (body_of reply)
    or_unavailable (as_dict body)

  first_entry : List Json → Option Json
  first_entry [] = none
  first_entry (j ∷ js) = some j

  resolve_client : Str → Kc Str
  unfolding get_body first_entry
  resolve_client client_id = do
    body ← get_body (clients client_id)
    entries ← or_unavailable (as_list body)
    entry ← or_unavailable (first_entry entries)
    fields ← or_unavailable (as_dict entry)
    client_uuid ← or_unavailable (as_nonempty_str (get (codes "id") fields))
    modify (λ c. record c { client_ids = (client_id, client_uuid) ∷ c.client_ids })
    pure client_uuid

  -- `_get_client_uuid`
  unfoldable pub get_client_uuid : Str → Kc Str
  unfolding resolve_client
  get_client_uuid client_id c = elim (lookup client_id c.client_ids) [
    | some client_uuid ↦ (ok client_uuid, c)
    | none ↦ resolve_client client_id c
  ]

  found_user : Reply → Kc (Option Fields)
  unfolding body_of
  found_user reply = if is_missing reply then pure none else do
    body ← or_unavailable (body_of reply)
    fields ← or_unavailable (as_dict body)
    pure (some fields)

  -- `_get_user`
  unfoldable pub get_user : Str → Kc (Option Fields)
  unfolding get_with_token found_user
  get_user user_id = do reply ← get_with_token (user user_id); found_user reply

  id_in : Json → Option Str
  id_in body = elim (as_dict body) [
    | none ↦ none
    | some fields ↦ as_nonempty_str (get (codes "id") fields)
  ]

  found_account : Reply → Kc (Option Str)
  unfolding body_of id_in
  found_account reply =
      if is_missing reply
      then pure none
      else do body ← or_unavailable (body_of reply); pure (id_in body)

  -- `get_service_account_user_id`
  unfoldable pub get_service_account_user_id : Str → Kc (Option Str)
  unfolding get_client_uuid get_with_token found_account
  get_service_account_user_id client_id = do
    client_uuid ← get_client_uuid client_id
    reply ← get_with_token (service_account client_uuid)
    found_account reply

  listed_client : Reply → Kc (Unit {0})
  unfolding body_of mark_unavailable
  listed_client reply c = elim (body_of reply) [
    | none ↦ (err unavailable, mark_unavailable c)
    | some body ↦ elim (as_list body) [
      | none ↦ (err unavailable, mark_unavailable c)
      | some [] ↦ (err unavailable, mark_unavailable c)
      | some (j ∷ js) ↦ (ok tt, c)
    ]
  ]

  -- `health_check` of the client, for the gateway's client id
  unfoldable pub health_check : Str → Kc (Unit {0})
  unfolding get_with_token listed_client
  health_check gateway = do reply ← get_with_token (clients gateway); listed_client reply
