-- ===== src/Api/Routes/Faults.antt =====
-- The validate routes where a managed slot cannot be loaded.
use k8s_stack_keycloak_api_k.Base.{
  Str, codes, ◌≡◌, ◌≢◌, ◌↔◌, refl, sym, ap, ◌∙◌, false, some, List, ◌∷◌, ◌++◌, is_empty, All,
  nat_eq, Result, ok, err,
}
use k8s_stack_keycloak_api_k.Managed.Grant.{Raised, slot_fault, duplicate_verifiers, unicode_decode}
use k8s_stack_keycloak_api_k.Managed.Slots.{Slot, load_slot, match}
use k8s_stack_keycloak_api_k.Managed.Slots.Faults.{
  Loads, IsUndecodable, load_slot-IsUndecodable, match_first,
}
use k8s_stack_keycloak_api_k.Jwks.{Cache}
use k8s_stack_keycloak_api_k.Api.Http.{Setup, App, Failure, crash, HttpRequest, getlist}
use k8s_stack_keycloak_api_k.Api.Credentials.{Mode, dedicated_api_key}
use k8s_stack_keycloak_api_k.Api.Tokens.{available_cache}
use k8s_stack_keycloak_api_k.Api.Validation.{lift, matched_response, validate_key}
use k8s_stack_keycloak_api_k.Api.Routes.{
  Answer, rejected, request_id, presented_key, answered, error_code, validation_response,
}

-- the answer of an unusable configuration
abbrev pub refusal : Str → Answer
refusal id =
    rejected id "authentication_unavailable"
      (record { status = 503; detail = "Managed credential configuration unavailable" })

module _ (setup : Setup) where
  -- what a route answers where the first slot that does not load raises `e`
  abbrev answer_to : Raised → Str → Result Failure Answer
  answer_to (slot_fault slot reason) id = ok (
      rejected id "authentication_unavailable"
        (record { status = 503; detail = "Managed credential configuration unavailable" }))
  answer_to duplicate_verifiers id = ok (
      rejected id "authentication_unavailable"
        (record { status = 503; detail = "Managed credential configuration unavailable" }))
  answer_to unicode_decode id = err crash

  answered_fault :
      (id secret : Str) (e : Raised) (s : App)
      → answered id (matched_response setup secret (err e) s) ≡ (answer_to e id, s)
  unfolding answered matched_response error_code
  answered_fault id secret (slot_fault slot reason) s = refl
  answered_fault id secret duplicate_verifiers s = refl
  answered_fault id secret unicode_decode s = refl

  crash-unicode : (e : Raised) (id : Str) → (answer_to e id ≡ err crash) ↔ (e ≡ unicode_decode)
  crash-unicode (slot_fault slot reason) id = (λ h. absurd (cc h), λ h. absurd (cc h))
  crash-unicode duplicate_verifiers id = (λ h. absurd (cc h), λ h. absurd (cc h))
  crash-unicode unicode_decode id = (λ h. refl, λ h. refl)

  refused_otherwise :
      (e : Raised) (id : Str) → e ≢ unicode_decode → answer_to e id ≡ ok (refusal id)
  refused_otherwise (slot_fault slot reason) id h = refl
  refused_otherwise duplicate_verifiers id h = refl
  refused_otherwise unicode_decode id h = absurd (h refl)

  -- Keycloak is available and the request bears a key; the slots before `slot` load, and `slot` raises.
  -- Then every key gets the same answer, also one that matches another slot or that is stored in the
  -- table, and nothing changes: the route crashes exactly if one of the two files of the slot is not
  -- UTF-8, and otherwise it answers 503.
  pub broken_slot_answer :
      (before after : List Slot) (slot : Slot) (e : Raised) (request : HttpRequest) (mode : Mode)
      (secret : Str) (cache : Cache) (s : App)
      → setup.managed_slots ≡ before ++ slot ∷ after
      → All (Loads setup.host) before
      → load_slot setup.host slot ≡ err e
      → available_cache setup s ≡ some cache
      → dedicated_api_key setup.codec request mode ≡ ok secret
      → is_empty secret ≡ false
      → ((validation_response setup request mode s).1 ≡ s)
        × (((validation_response setup request mode s).0 ≡ err crash)
            ↔ IsUndecodable setup.host slot)
        × ((IsUndecodable setup.host slot → ⊥)
            → (validation_response setup request mode s).0
              ≡ ok (refusal (request_id setup.codec (getlist (codes "x-request-id") request))))
  unfolding validation_response presented_key lift validate_key
  broken_slot_answer before after slot e request mode secret cache s slots loads broken available
        borne given =
      let fault : match setup.host setup.managed_slots secret ≡ err e =
        rw slots (match_first setup.host before after slot e secret loads broken) in
      let id : Str = request_id setup.codec (getlist (codes "x-request-id") request) in
      let answer : validation_response setup request mode s ≡ (answer_to e id, s) =
        rw (borne, available, given, fault) (answered_fault id secret e s) in
      let undecodable = load_slot-IsUndecodable setup.host slot e broken in
      (
        ap (λ r. r.1) answer,
        (
          λ h. undecodable.0 ((crash-unicode e id).0 (sym (ap (λ r. r.0) answer) ∙ h)),
          λ h. ap (λ r. r.0) answer ∙ (crash-unicode e id).1 (undecodable.1 h),
        ),
        λ h. ap (λ r. r.0) answer ∙ refused_otherwise e id (λ same. h (undecodable.0 same)),
      )
