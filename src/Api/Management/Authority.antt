-- ===== src/Api/Management/Authority.antt =====
-- Who may create and revoke keys through the management endpoints.
use k8s_stack_keycloak_api_k.Base.{
  Str, ◌≡◌, ◌≢◌, ◌↔◌, ◌⊎◌, inl, inr, refl, sym, ap, ◌∙◌, Bool, true, false, Option, none, some,
  ◌==◌, ==_iff, str_eq, contains, dedup, subset, subset-contains, contains-dedup, Bool-cases,
  Option-cases, arith, Result, ok, err,
}
use k8s_stack_keycloak_api_k.Database.Session.{
  ApiKey, Session, DbError, limit_reached, write_failed, get_row, IsClean,
}
use k8s_stack_keycloak_api_k.Database.Keys.{Draw, create_key}
use k8s_stack_keycloak_api_k.Database.Keys.Revoke.{revoke_key_owner_only, revoke_key_as_admin_any}
use k8s_stack_keycloak_api_k.Keycloak.Exec.{PrincipalEntitlements}
use k8s_stack_keycloak_api_k.Jwks.{Cache}
use k8s_stack_keycloak_api_k.Api.Http.{Setup, App}
use k8s_stack_keycloak_api_k.Api.Returns.{
  Returns, Returns-continue, Returns-lift, Returns-require, Returns-ok,
}
use k8s_stack_keycloak_api_k.Api.Tokens.{CurrentUser}
use k8s_stack_keycloak_api_k.Api.Validation.{entitlements_or_error}
use k8s_stack_keycloak_api_k.Api.Validation.Decisions.{Entitled, Held, entitlements_or_error-Held}
use k8s_stack_keycloak_api_k.Api.Management.{
  admin_role_name, CreateApiKeyRequest, resolve_target_user_id, Created, lift, stored, revoked,
  new_key, store_key, create_api_key, revoke_api_key,
}

-- A request is let through exactly for the caller, who is named or not, with no administrator
-- recorded, or for another user if the caller has the administrator's role and is then recorded.
pub resolve_target_user_id_lem :
    (asked : Option Str) (user : CurrentUser) (target : Str) (by : Option Str)
    → (resolve_target_user_id asked user ≡ ok (target, by)) ↔ (
        ((target ≡ user.user_id) × (by ≡ none) × ((asked ≡ none) ⊎ (asked ≡ some user.user_id)))
        ⊎ ((asked ≡ some target)
            × (target ≢ user.user_id)
            × (by ≡ some user.user_id)
            × (contains admin_role_name user.realm_roles ≡ true)))
unfolding resolve_target_user_id
resolve_target_user_id_lem none user target by = (
  λ h. inl (cc, cc, inl refl),
  λ h. elim h [ inl (p, q, r) ↦ rw (p, q) refl | inr (p, q, r, t) ↦ cc ],
)
resolve_target_user_id_lem (some asked) user target by = elim (Bool-cases (asked == user.user_id)) [
  | inl self ↦
      let same : asked ≡ user.user_id = (==_iff asked user.user_id).0 self in
      rw self (
        λ h. inl (cc, cc, inr (ap some same)),
        λ h. elim h [ inl (p, q, r) ↦ rw (p, q) refl | inr (p, q, r, t) ↦ absurd (q (cc)) ],
      )
  | inr other ↦ rw other (elim (Bool-cases (contains admin_role_name user.realm_roles)) [
    | inl admin ↦ rw admin (
      λ h. inr (cc, λ e. ground (arith, ==_iff asked user.user_id, h, e), cc, refl),
      λ h. elim h [
        | inl (p, q, inl r) ↦ cc
        | inl (p, q, inr r) ↦ ground (arith, ==_iff asked user.user_id)
        | inr (p, q, r, t) ↦ cc
      ],
    )
    | inr plain ↦ rw plain (
      λ h. cc,
      λ h. elim h [
        | inl (p, q, inl r) ↦ cc
        | inl (p, q, inr r) ↦ ground (arith, ==_iff asked user.user_id)
        | inr (p, q, r, t) ↦ cc
      ],
    )
  ])
]

revoked-ok : (r : Result DbError Bool × Session) (s : App) → (revoked r s).0 ≡ ok tt → r.0 ≡ ok true
unfolding revoked
revoked-ok (ok true, t) s h = refl
revoked-ok (ok false, t) s h = absurd (cc)
revoked-ok (err e, t) s h = absurd (cc)

ok-revoked : (r : Result DbError Bool × Session) (s : App) → r.0 ≡ ok true → (revoked r s).0 ≡ ok tt
unfolding revoked
ok-revoked (ok true, t) s h = refl
ok-revoked (ok false, t) s h = absurd (cc)
ok-revoked (err e, t) s h = absurd (cc)

-- Through the endpoint, in a clean session, a key is revoked exactly if its row exists and the caller
-- owns it or has the administrator's role.
pub revoke_api_key_allowed :
    (key_id : Str) (user : CurrentUser) (s : App)
    → IsClean s.session
    → ((revoke_api_key key_id user s).0 ≡ ok tt) ↔ (
        (key : ApiKey) × (get_row key_id s.session ≡ some key)
        × ((contains admin_role_name user.realm_roles ≡ true) ⊎ (key.user_id ≡ user.user_id)))
unfolding revoke_api_key
revoke_api_key_allowed key_id user s clean =
    elim (Bool-cases (contains admin_role_name user.realm_roles)) [
      | inl admin ↦ rw admin (
        λ h. elim (Option-cases (get_row key_id s.session)) [
          | inl missing ↦
              absurd ((revoke_key_as_admin_any key_id s.session clean).0 (revoked-ok _ s h) missing)
          | inr (key, found) ↦ (key, found, inl refl)
        ],
        λ (key, found, why).
            ok-revoked _ s ((revoke_key_as_admin_any key_id s.session clean).1 (λ missing. cc)),
      )
      | inr plain ↦ rw plain (
        λ h.
            let (key, found, owner) =
              (revoke_key_owner_only key_id user.user_id s.session clean).0.0 (revoked-ok _ s h) in
            (key, found, inr owner),
        λ (key, found, why). ok-revoked _ s (
            (revoke_key_owner_only key_id user.user_id s.session clean).0.1
              (key, found, elim why [ inl bad ↦ absurd (cc) | inr owner ↦ owner ])),
      )
    ]

-- what a key that was created stands on: the request, the caller, and the session before
pub record Granted (setup : Setup) (draw : Draw) (body : CreateApiKeyRequest) (user : CurrentUser)
    (before : App) (created : Created) (s : App) : Type 0 where
  pub owner : Str
  pub creator : Option Str
  pub target : resolve_target_user_id body.target_user_id user ≡ ok (owner, creator)
  pub held : PrincipalEntitlements
  pub cache : Cache
  pub there : before.cache ≡ some cache
  pub entitled : Entitled setup cache.client owner held
  pub within : (p : Str) → contains p body.permissions ≡ true → contains p held.permissions ≡ true
  pub same_permissions : created.permissions ≡ body.permissions
  pub stored_key :
      create_key setup.platform draw (new_key setup body (owner, creator)) before.session
      ≡ (ok (created.id, created.api_key), s.session)

module _ (setup : Setup) (draw : Draw) (body : CreateApiKeyRequest) (user : CurrentUser) where
  stored-Granted :
      (before s : App) (owner : Str) (creator : Option Str) (held : PrincipalEntitlements)
      (cache : Cache)
      → before.cache ≡ some cache
      → resolve_target_user_id body.target_user_id user ≡ ok (owner, creator)
      → Entitled setup cache.client owner held
      → ((p : Str) → contains p body.permissions ≡ true → contains p held.permissions ≡ true)
      → (r : Result DbError (Str × Str) × Session)
      → create_key setup.platform draw (new_key setup body (owner, creator)) before.session ≡ r
      → Returns (Granted setup draw body user before) (stored body.permissions r s)
  unfolding stored
  stored-Granted before s owner creator held cache there t e w (ok (i, v), after) h = record {
    owner = owner;
    creator = creator;
    target = t;
    held = held;
    cache = cache;
    there = there;
    entitled = e;
    within = w;
    same_permissions = refl;
    stored_key = h;
  }
  stored-Granted before s owner creator held cache there t e w (err limit_reached, after) h = tt
  stored-Granted before s owner creator held cache there t e w (err write_failed, after) h = tt

  create_api_key-Returns :
      (s : App) → Returns (Granted setup draw body user s) (create_api_key setup draw body user s)
  unfolding create_api_key lift store_key Held
  create_api_key-Returns s =
      Returns-lift (Granted setup draw body user s)
        (resolve_target_user_id body.target_user_id user) s _
        (λ (owner, creator) target.
          Returns-continue (Granted setup draw body user s) _
            (entitlements_or_error setup owner 404 s)
            (λ held s' h.
              let ((cache, there, entitled), same) =
                Returns-ok (Held setup owner s) (entitlements_or_error setup owner 404 s) {a = held}
                  {s = s'} (entitlements_or_error-Held setup owner 404 s) h in
              Returns-require (Granted setup draw body user s)
                (subset (dedup body.permissions) held.permissions) _ s' _
                (λ within.
                  stored-Granted s s' owner creator held cache there target entitled
                    (λ p asked.
                      subset-contains (dedup body.permissions) held.permissions p within
                        (contains-dedup p body.permissions ∙ asked))
                    (create_key setup.platform draw (new_key setup body (owner, creator))
                      s'.session)
                    (ap (create_key setup.platform draw (new_key setup body (owner, creator)))
                      (sym same)))))

  -- A key that the endpoint creates is for the target that `resolve_target_user_id` allows;
  -- Keycloak's client, asked in the state in which the request found it, named that owner's
  -- entitlements and they include every permission of the key; and the key is the one that `create_key` stored for that owner, with the quota of the
  -- configuration.
  pub create_api_key-Granted :
      (s s' : App) (created : Created)
      → create_api_key setup draw body user s ≡ (ok created, s')
      → Granted setup draw body user s created s'
  create_api_key-Granted s s' created h =
      Returns-ok (Granted setup draw body user s) (create_api_key setup draw body user s)
        {a = created} {s = s'} (create_api_key-Returns s) h
