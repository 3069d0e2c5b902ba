-- ===== src/Database/Keys/Revoke/Keeping.antt =====
-- A revocation leaves the session clean and the constraints met.
use k8s_stack_keycloak_api_k.Base.{
  Str, refl, Bool, true, Option, none, some, ◌==◌, str_eq, Bool-cases, inl, inr,
}
use k8s_stack_keycloak_api_k.Database.Session.{ApiKey, Session, get_row, IsClean}
use k8s_stack_keycloak_api_k.Database.Rows.{WellFormed, without-WellFormed}
use k8s_stack_keycloak_api_k.Database.Keys.{revoke_found, revoke_key, revoke_key_as_admin}
use k8s_stack_keycloak_api_k.Database.Keys.Revoke.{expected, revoke_found-expected}

-- a session as it is between requests, on rows that meet the constraints
abbrev Between : Session → Type 0
Between s = IsClean s × WellFormed s.rows

expected-Between :
    (allowed : ApiKey → Bool) (found : Option ApiKey) (s : Session)
    → Between s
    → Between (expected allowed found s).1
unfolding expected
expected-Between allowed none s h = h
expected-Between allowed (some key) s h = elim (Bool-cases (allowed key)) [
  | inl may ↦
      rw (may, expected)
        (record { no_pending = refl; no_doomed = refl }, without-WellFormed key.id s.rows h.1)
  | inr may_not ↦ rw (may_not, expected) h
]

revoke_found-Between :
    (allowed : ApiKey → Bool) (found : Option ApiKey) (s : Session)
    → Between s
    → Between (revoke_found allowed found s).1
revoke_found-Between allowed found s h =
    rw (revoke_found-expected allowed found s h.0) (expected-Between allowed found s h)

-- A revocation by the owner leaves a clean session clean and the constraints met.
pub revoke_key-Between :
    (key_id user_id : Str) (s : Session)
    → IsClean s
    → WellFormed s.rows
    → IsClean (revoke_key key_id user_id s).1 × WellFormed (revoke_key key_id user_id s).1.rows
unfolding revoke_key
revoke_key-Between key_id user_id s clean rows =
    revoke_found-Between (λ key. key.user_id == user_id) (get_row key_id s) s (clean, rows)

-- So does a revocation by an administrator.
pub revoke_key_as_admin-Between :
    (key_id : Str) (s : Session)
    → IsClean s
    → WellFormed s.rows
    → IsClean (revoke_key_as_admin key_id s).1 × WellFormed (revoke_key_as_admin key_id s).1.rows
unfolding revoke_key_as_admin
revoke_key_as_admin-Between key_id s clean rows =
    revoke_found-Between (λ key. true) (get_row key_id s) s (clean, rows)
