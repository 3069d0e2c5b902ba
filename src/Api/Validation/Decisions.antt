-- ===== src/Api/Validation/Decisions.antt =====
-- What a decision on a presented key stands on, and what happens when Keycloak cannot answer.
use k8s_stack_keycloak_api_k.Base.{
  ℕ, Str, ◌≡◌, refl, ap, subst, ◌∙◌, not, Option, none, some, length, ltb, ◌*◌, is_empty,
  Bool-cases, inl, inr, arith, Result, ok, err,
}
use k8s_stack_keycloak_api_k.Sorting.{sort, str_ord}
use k8s_stack_keycloak_api_k.Database.Keys.{ApiKeyMetadata}
use k8s_stack_keycloak_api_k.Database.Keys as Keys
use k8s_stack_keycloak_api_k.Managed.Grant.{
  ManagedApiKey, Raised, slot_fault, duplicate_verifiers, unicode_decode,
}
use k8s_stack_keycloak_api_k.Managed.Slots.{match, context_credential_id}
use k8s_stack_keycloak_api_k.Keycloak.Exec.{PrincipalEntitlements, Client, KcError, Kc}
use k8s_stack_keycloak_api_k.Keycloak.Exec as Exec
use k8s_stack_keycloak_api_k.Keycloak.Requests.{get_service_account_user_id}
use k8s_stack_keycloak_api_k.Keycloak.Entitlements.{get_principal_entitlements}
use k8s_stack_keycloak_api_k.Jwks.{Cache}
use k8s_stack_keycloak_api_k.Api.Http.{Setup, App, http_error, or_raise}
use k8s_stack_keycloak_api_k.Api.Returns.{
  Returns, Returns-continue, Returns-or_raise, Returns-require, Returns-ok,
}
use k8s_stack_keycloak_api_k.Api.Tokens.{available_cache}
use k8s_stack_keycloak_api_k.Api.Validation.{
  no_authorization, invalid_key, settle, ask, Decision, Response, user_api_key, managed_api_key,
  decision_response, auth_context, lift, effective, entitlements_or_error, managed_key_response,
  personal_key_response, matched_response, validate_key, personal_decision, managed_decision,
}

abbrev client_of : Cache → Client
client_of c = c.client

module _ (setup : Setup) where
  -- Asked about `principal` in the state `c`, the client says that it holds `e`.
  pub Entitled : Client → Str → PrincipalEntitlements → Type 0
  Entitled c principal e =
      (c' : Client) × (get_principal_entitlements setup.world setup.config setup.fuel principal c
        ≡ (ok (some e), c'))

  -- The grounds on which a decision may be given for a secret in the state `s`: the client is asked
  -- in the state that the cache holds, and a second time in the state that the first call left.
  pub data Grounds (secret : Str) (s : App) (d : Decision) : Type 0 where
    personal :
        (key : ApiKeyMetadata) (e : PrincipalEntitlements) (cache : Cache)
        → match setup.host setup.managed_slots secret ≡ ok none
        → Keys.get_key setup.platform setup.now secret s.session ≡ some key
        → s.cache ≡ some cache
        → Entitled cache.client key.user_id e
        → d.credential_kind ≡ user_api_key
        → d.credential_id ≡ key.id
        → d.principal_id ≡ key.user_id
        → d.permissions ≡ effective key.permissions e.permissions
        → d.groups ≡ sort e.groups
        → Grounds secret s d
    managed :
        (key : ManagedApiKey) (e : PrincipalEntitlements) (principal : Str) (cache : Cache)
        (c' : Client)
        → match setup.host setup.managed_slots secret ≡ ok (some key)
        → s.cache ≡ some cache
        → get_service_account_user_id setup.world key.principal_client_id cache.client
          ≡ (ok (some principal), c')
        → Entitled c' principal e
        → d.credential_kind ≡ managed_api_key
        → d.credential_id ≡ key.key_id
        → d.principal_id ≡ principal
        → d.permissions ≡ effective key.permissions e.permissions
        → d.groups ≡ sort e.groups
        → Grounds secret s d

  -- What `ask` returns is what the client returned in the state that the cache held, and the client
  -- stays as the call left it.
  Asked {ℓ} : {A : Type ℓ} → Kc A → App → A → App → Type ℓ
  Asked call before a s =
      ((cache : Cache) × (c' : Client) × (before.cache ≡ some cache)
        × (call cache.client ≡ (ok a, c'))
        × (s.cache ≡ some (record cache { client = c' })))
      × (s.session ≡ before.session)

  settle-Asked {ℓ} :
      {A : Type ℓ} (call : Kc A) (c : Cache) (s : App) (r : Result KcError A × Client)
      → s.cache ≡ some c
      → call c.client ≡ r
      → Returns (Asked call s) (settle c r s)
  unfolding settle Asked
  settle-Asked call c s (ok a, client) here e = ((c, client, here, e, refl), refl)
  settle-Asked call c s (err Exec.unavailable, client) here e = tt
  settle-Asked call c s (err Exec.out_of_fuel, client) here e = tt

  ask-Asked {ℓ} : {A : Type ℓ} (call : Kc A) (s : App) → Returns (Asked call s) (ask call s)
  unfolding ask
  ask-Asked call s = go s.cache refl
    where
      go :
          (o : Option Cache)
          → s.cache ≡ o
          → Returns
              (Asked call s)
              (elim o [ none ↦ (err no_authorization, s) | some c ↦ settle c (call c.client) s ])
      go none here = tt
      go (some c) here = settle-Asked call c s (call c.client) here refl

  decision_response-decision :
      (context_id : Str) (d : Decision) (r : Response)
      → decision_response setup context_id d ≡ ok r
      → r.decision ≡ d
  unfolding decision_response
  decision_response-decision context_id d r h = ground (arith, h)

  -- the client's answer about `principal` in the state `before`
  unfoldable pub Held : Str → App → PrincipalEntitlements → App → Type 0
  Held principal before e s =
      ((cache : Cache) × (before.cache ≡ some cache) × Entitled cache.client principal e)
      × (s.session ≡ before.session)

  Held-of_found :
      (principal : Str) (before : App) (found : Option PrincipalEntitlements) (status : ℕ) (s : App)
      → Asked
          (get_principal_entitlements setup.world setup.config setup.fuel principal)
          before
          found
          s
      → Returns
          (Held principal before)
          (or_raise found (http_error status "Keycloak principal is unavailable") s)
  unfolding Asked Held Entitled
  Held-of_found principal before none status s h = tt
  Held-of_found principal before (some e) status s ((cache, c', here, answer, after), same) =
      ((cache, here, (c', answer)), same)

  pub entitlements_or_error-Held :
      (principal : Str) (status : ℕ) (s : App)
      → Returns (Held principal s) (entitlements_or_error setup principal status s)
  unfolding entitlements_or_error
  entitlements_or_error-Held principal status s =
      let call : Kc (Option PrincipalEntitlements) =
        get_principal_entitlements setup.world setup.config setup.fuel principal in
      Returns-continue (Held principal s) _ (ask call s) (λ found s' h.
        Held-of_found principal s found status s'
          (Returns-ok (Asked call s) (ask call s) {a = found} {s = s'} (ask-Asked call s) h))

  -- what a decision and the state after it have to be
  Sound : Str → App → Response → App → Type 0
  Sound secret before r s = Grounds secret before r.decision × (s.session ≡ before.session)

  answer-Sound :
      (secret : Str) (before : App) (context_id : Str) (d : Decision) (s : App)
      → Grounds secret before d
      → s.session ≡ before.session
      → Returns (Sound secret before) (lift (decision_response setup context_id d) s)
  unfolding lift decision_response Sound
  answer-Sound secret before context_id d s grounds same =
      elim (Bool-cases (ltb (64 * 1024) (length (setup.codec.dumps (auth_context context_id d))))) [
        | inl long ↦ rw long tt
        | inr short ↦ rw short (grounds, same)
      ]

  personal_key_response-Sound :
      (secret : Str) (s : App)
      → match setup.host setup.managed_slots secret ≡ ok none
      → Returns (Sound secret s) (personal_key_response setup secret s)
  unfolding personal_key_response Held
  personal_key_response-Sound secret s unmatched =
      Returns-or_raise (Sound secret s) (Keys.get_key setup.platform setup.now secret s.session)
        invalid_key s _
        (λ key found.
          Returns-continue (Sound secret s) _ (entitlements_or_error setup key.user_id 401 s)
            (λ e s' h.
              let ((cache, here, entitled), same) =
                Returns-ok (Held key.user_id s) (entitlements_or_error setup key.user_id 401 s)
                  {a = e} {s = s'} (entitlements_or_error-Held key.user_id 401 s) h in
              answer-Sound secret s key.id (personal_decision key e) s'
                (personal key e cache unmatched found here entitled refl refl refl refl refl) same))

  managed_key_response-Sound :
      (secret : Str) (key : ManagedApiKey) (s : App)
      → match setup.host setup.managed_slots secret ≡ ok (some key)
      → Returns (Sound secret s) (managed_key_response setup key s)
  unfolding managed_key_response Held Asked
  managed_key_response-Sound secret key s matched =
      let call : Kc (Option Str) =
        get_service_account_user_id setup.world key.principal_client_id in
      Returns-continue (Sound secret s) _ (ask call s) (λ account s1 h1.
        let ((cache, c', here, answer, after), same1) =
          Returns-ok (Asked call s) (ask call s) {a = account} {s = s1} (ask-Asked call s) h1 in
        Returns-or_raise (Sound secret s) account _ s1 _ (λ principal account_of.
          Returns-continue (Sound secret s) _ (entitlements_or_error setup principal 401 s1)
            (λ e s2 h2.
              let ((cache1, here1, entitled), same2) =
                Returns-ok (Held principal s1) (entitlements_or_error setup principal 401 s1)
                  {a = e} {s = s2} (entitlements_or_error-Held principal 401 s1) h2 in
              let same : cache1 ≡ record cache { client = c' } = cc (here1, after) in
              let left : cache1.client ≡ c' = ap client_of same in
              answer-Sound secret s (context_credential_id setup.host key)
                (managed_decision key principal e) s2
                (managed key e principal cache c' matched here
                  (answer ∙ ap (λ o. (ok o, c')) account_of)
                  (subst (λ c. Entitled c principal e) left entitled) refl refl refl refl refl)
                (same2 ∙ same1))))

  matched_response-Sound :
      (secret : Str) (found : Result Raised (Option ManagedApiKey)) (s : App)
      → match setup.host setup.managed_slots secret ≡ found
      → Returns (Sound secret s) (matched_response setup secret found s)
  unfolding matched_response
  matched_response-Sound secret (ok (some key)) s h = managed_key_response-Sound secret key s h
  matched_response-Sound secret (ok none) s h = personal_key_response-Sound secret s h
  matched_response-Sound secret (err (slot_fault slot reason)) s h = tt
  matched_response-Sound secret (err duplicate_verifiers) s h = tt
  matched_response-Sound secret (err unicode_decode) s h = tt

  validate_key-Sound :
      (secret : Str) (s : App) → Returns (Sound secret s) (validate_key setup secret s)
  unfolding validate_key
  validate_key-Sound secret s =
      Returns-or_raise (Sound secret s) (available_cache setup s) no_authorization s _
        (λ cache available. Returns-require (Sound secret s) (not (is_empty secret)) _ s _ (λ given.
          matched_response-Sound secret (match setup.host setup.managed_slots secret) s refl))

  -- A key is accepted only on grounds: it matches one active managed key, or none and a stored key
  -- that `get_key` returns; Keycloak's client, asked in the state in which the request found it,
  -- named the principal, if the key is managed, and then that principal's entitlements; and the
  -- decision's kind, identifier, principal, groups and permissions are those of that key and of those
  -- entitlements. The database session is left as it was.
  pub validate_key_sound :
      (secret : Str) (s s' : App) (r : Response)
      → validate_key setup secret s ≡ (ok r, s')
      → Grounds secret s r.decision × (s'.session ≡ s.session)
  unfolding Sound
  validate_key_sound secret s s' r h =
      Returns-ok (Sound secret s) (validate_key setup secret s) {a = r} {s = s'}
        (validate_key-Sound secret s) h
