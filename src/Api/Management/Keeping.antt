-- ===== src/Api/Management/Keeping.antt =====
-- The management endpoints pass on a sound state.
use k8s_stack_keycloak_api_k.Base.{
  Str, Bool, true, false, Option, List, str_eq, contains, dedup, subset, Bool-cases, inl, inr,
  Result, ok, err,
}
use k8s_stack_keycloak_api_k.Database.Session.{
  IsClean, DbError, Session, limit_reached, write_failed,
}
use k8s_stack_keycloak_api_k.Database.Rows.{WellFormed}
use k8s_stack_keycloak_api_k.Database.Keys.{Draw, create_key, revoke_key, revoke_key_as_admin}
use k8s_stack_keycloak_api_k.Database.Keys.Create.{create_key-IsClean, create_key-WellFormed}
use k8s_stack_keycloak_api_k.Database.Keys.Revoke.Keeping.{
  revoke_key-Between, revoke_key_as_admin-Between,
}
use k8s_stack_keycloak_api_k.Api.Http.{Setup, App}
use k8s_stack_keycloak_api_k.Api.Tokens.{CurrentUser}
use k8s_stack_keycloak_api_k.Api.Validation.{entitlements_or_error}
use k8s_stack_keycloak_api_k.Api.Sound.{
  Sound, Sound-continue, require_then, entitlements_or_error-Sound,
}
use k8s_stack_keycloak_api_k.Api.Management.{
  CreateApiKeyRequest, admin_role_name, lift, resolve_target_user_id, stored, revoked, store_key,
  new_key, get_permissions, create_api_key, revoke_api_key, list_api_keys,
}

stored-Sound :
    (permissions : List Str) (r : Result DbError (Str × Str) × Session) (s : App)
    → Sound s
    → IsClean r.1
    → WellFormed r.1.rows
    → Sound (stored permissions r s).1
unfolding stored
stored-Sound permissions (ok made, session) s h clean rows = (clean, rows, h.2)
stored-Sound permissions (err limit_reached, session) s h clean rows = (clean, rows, h.2)
stored-Sound permissions (err write_failed, session) s h clean rows = (clean, rows, h.2)

revoked-Sound :
    (r : Result DbError Bool × Session) (s : App)
    → Sound s
    → IsClean r.1 × WellFormed r.1.rows
    → Sound (revoked r s).1
unfolding revoked
revoked-Sound (ok true, session) s h kept = (kept.0, kept.1, h.2)
revoked-Sound (ok false, session) s h kept = (kept.0, kept.1, h.2)
revoked-Sound (err e, session) s h kept = (kept.0, kept.1, h.2)

module _ (setup : Setup) where
  pub get_permissions-Sound :
      (user : CurrentUser) (query : Option Str) (s : App)
      → Sound s
      → Sound (get_permissions setup user query s).1
  unfolding get_permissions lift
  get_permissions-Sound user query s h =
      Sound-continue _ (lift (resolve_target_user_id query user) s) h (λ target t k.
        Sound-continue _ (entitlements_or_error setup target.0 404 t)
          (entitlements_or_error-Sound setup target.0 404 t k) (λ entitled u g. g))

  store_key-Sound :
      (draw : Draw) (body : CreateApiKeyRequest) (target : Str × Option Str) (s : App)
      → Sound s
      → Sound (store_key setup draw body target s).1
  unfolding store_key
  store_key-Sound draw body target s h =
      stored-Sound body.permissions
        (create_key setup.platform draw (new_key setup body target) s.session) s h
        (create_key-IsClean setup.platform draw (new_key setup body target) s.session h.0)
        (create_key-WellFormed setup.platform draw (new_key setup body target) s.session h.0 h.1)

  pub create_api_key-Sound :
      (draw : Draw) (body : CreateApiKeyRequest) (user : CurrentUser) (s : App)
      → Sound s
      → Sound (create_api_key setup draw body user s).1
  unfolding create_api_key lift
  create_api_key-Sound draw body user s h =
      Sound-continue _ (lift (resolve_target_user_id body.target_user_id user) s) h (λ target t k.
        Sound-continue _ (entitlements_or_error setup target.0 404 t)
          (entitlements_or_error-Sound setup target.0 404 t k)
          (λ entitled u g.
            require_then (subset (dedup body.permissions) entitled.permissions) _ u _ g
              (store_key-Sound draw body target u g)))

  pub list_api_keys-Sound :
      (user : CurrentUser) (query : Option Str) (s : App)
      → Sound s
      → Sound (list_api_keys setup user query s).1
  unfolding list_api_keys lift
  list_api_keys-Sound user query s h =
      Sound-continue _ (lift (resolve_target_user_id query user) s) h (λ target t k. k)

pub revoke_api_key-Sound :
    (key_id : Str) (user : CurrentUser) (s : App) → Sound s → Sound (revoke_api_key key_id user s).1
unfolding revoke_api_key
revoke_api_key-Sound key_id user s h =
    elim (Bool-cases (contains admin_role_name user.realm_roles)) [
      | inl admin ↦
          rw (admin, revoke_api_key)
            (revoked-Sound (revoke_key_as_admin key_id s.session) s h
              (revoke_key_as_admin-Between key_id s.session h.0 h.1))
      | inr other ↦
          rw (other, revoke_api_key)
            (revoked-Sound (revoke_key key_id user.user_id s.session) s h
              (revoke_key-Between key_id user.user_id s.session h.0 h.1))
    ]
