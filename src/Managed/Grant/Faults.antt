-- ===== src/Managed/Grant/Faults.antt =====
-- What the two parsers raise: a fault of the slot, and nothing else.
use k8s_stack_keycloak_api_k.Base.{
  ℕ, Str, codes, ◌≡◌, refl, Bool, true, false, not, ◌&&◌, ◌==◌, nat_eq, str_eq, Option, none, some,
  [], ◌∷◌, all, length, dedup, is_empty, Result, ok, err, ◌>>=◌, require, or_raise,
}
use k8s_stack_keycloak_api_k.Json.{
  Json, get, keys, as_str, as_list, as_dict, is_text, is_number, all_texts,
}
use k8s_stack_keycloak_api_k.Regex.{fullmatch}
use k8s_stack_keycloak_api_k.Permissions.{is_valid_permission}
use k8s_stack_keycloak_api_k.Managed.Grant.{
  Raised, slot_fault, Reason, bad_json, bad_fields, bad_version, bad_id, bad_name, bad_principal,
  bad_client_id, bad_permissions, bad_verifier, strip, verifier_pattern, key_id_pattern, same_set,
  grant_fields, identifier, parse_principal, parse_permissions, grant_of, parse_grant,
  parse_verifier,
}

module _ (slot : ℕ) where
  -- if anything is raised, it is a fault of the slot
  abbrev pub RaisesFault {ℓ} : {A : Type ℓ} → Result Raised A → Type 0
  RaisesFault (ok a) = Unit
  RaisesFault (err e) = (reason : Reason) × (e ≡ slot_fault slot reason)

  pub then_fault {ℓ κ} :
      {A : Type ℓ} {B : Type κ} (m : Result Raised A) (f : A → Result Raised B)
      → RaisesFault m
      → ((a : A) → RaisesFault (f a))
      → RaisesFault (m >>= f)
  then_fault (ok a) f h k = k a
  then_fault (err e) f h k = h

  or_fault {ℓ κ} :
      {A : Type ℓ} {B : Type κ} (o : Option A) (reason : Reason) (f : A → Result Raised B)
      → ((a : A) → RaisesFault (f a))
      → RaisesFault (or_raise o (slot_fault slot reason) >>= f)
  or_fault none reason f k = (reason, refl)
  or_fault (some a) reason f k = k a

  require_fault {κ} :
      {B : Type κ} (t : Bool) (reason : Reason) (m : Result Raised B)
      → RaisesFault m
      → RaisesFault (require t (slot_fault slot reason) >>= (λ (u : Unit {0}). m))
  require_fault true reason m h = h
  require_fault false reason m h = (reason, refl)

  pub parse_verifier-RaisesFault : (content : Str) → RaisesFault (parse_verifier slot content)
  unfolding parse_verifier
  parse_verifier-RaisesFault content =
      require_fault (fullmatch verifier_pattern (strip content)) bad_verifier _ tt

  identifier-RaisesFault : (reason : Reason) (j : Json) → RaisesFault (identifier slot reason j)
  unfolding identifier
  identifier-RaisesFault reason j =
      or_fault (as_str j) reason _ (λ s. require_fault (fullmatch key_id_pattern s) reason _ tt)

  parse_principal-RaisesFault : (j : Json) → RaisesFault (parse_principal slot j)
  unfolding parse_principal
  parse_principal-RaisesFault j = or_fault (as_dict j) bad_principal _ (λ principal.
      require_fault (same_set (keys principal) (codes "kind" ∷ codes "client_id" ∷ []))
        bad_principal _
        (require_fault (is_text (codes "service_account") (get (codes "kind") principal))
          bad_principal _
          (or_fault (as_str (get (codes "client_id") principal)) bad_principal _
            (λ client_id. require_fault (fullmatch key_id_pattern client_id) bad_client_id _ tt))))

  parse_permissions-RaisesFault : (j : Json) → RaisesFault (parse_permissions slot j)
  unfolding parse_permissions
  parse_permissions-RaisesFault j = or_fault (as_list j) bad_permissions _ (λ entries.
      or_fault (all_texts entries) bad_permissions _ (λ permissions.
        require_fault
          (not (is_empty permissions)
            && (all is_valid_permission permissions
                && length (dedup permissions) == length permissions))
          bad_permissions _ tt))

  grant_of-RaisesFault : (j : Json) → RaisesFault (grant_of slot j)
  unfolding grant_of
  grant_of-RaisesFault j = or_fault (as_dict j) bad_fields _ (λ fields.
      require_fault (same_set (keys fields) grant_fields) bad_fields _ (
        require_fault (is_number 2 (get (codes "version") fields)) bad_version _ (
          then_fault (identifier slot bad_id (get (codes "id") fields)) _
            (identifier-RaisesFault bad_id (get (codes "id") fields))
            (λ key_id.
              then_fault (identifier slot bad_name (get (codes "name") fields)) _
                (identifier-RaisesFault bad_name (get (codes "name") fields))
                (λ name.
                  then_fault (parse_principal slot (get (codes "principal") fields)) _
                    (parse_principal-RaisesFault (get (codes "principal") fields))
                    (λ client_id.
                      then_fault (parse_permissions slot (get (codes "permissions") fields)) _
                        (parse_permissions-RaisesFault (get (codes "permissions") fields))
                        (λ permissions. tt)))))))

  pub parse_grant-RaisesFault :
      (loads : Str → Option Json) (content : Str) → RaisesFault (parse_grant loads slot content)
  unfolding parse_grant
  parse_grant-RaisesFault loads content =
      or_fault (loads content) bad_json _ (λ j. grant_of-RaisesFault j)
