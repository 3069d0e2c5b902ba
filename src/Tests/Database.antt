-- ===== src/Tests/Database.antt =====
-- Creating, finding and revoking keys on a table with one row.
use mathlib.Core.List.{Perm}
use k8s_stack_keycloak_api_k.Base.{
  ℕ, suc, ◌+◌, ◌≤◌, ◌≡◌, ◌≢◌, ◌↔◌, inl, refl, Str, true, none, some, List, [], ◌∷◌, ◌++◌, not, ◌&&◌,
  filter, leb, arith, if◌then◌else◌, ok, err, list_beq, length, map, ◌==◌, str_eq,
}
use k8s_stack_keycloak_api_k.Database.Session.{
  ApiKey, Session, naive, DbError, limit_reached, IsClean, count_keys, get_row, clashes,
}
use k8s_stack_keycloak_api_k.Database.Rows.{WellFormed, settled}
use k8s_stack_keycloak_api_k.Database.Keys.{
  Draw, NewKey, create_key, new_row, get_key, key_to_dict, days, revoke_key, list_keys,
}
use k8s_stack_keycloak_api_k.Database.Keys.Create.{
  create_key_quota, create_key_errors, create_key-IsClean, create_key-get_key,
}
use k8s_stack_keycloak_api_k.Database.Keys.Revoke.{revoked_for_good}
use k8s_stack_keycloak_api_k.Database.Keys.Listing.{InOrder, list_keys_lem}
use k8s_stack_keycloak_api_k.Database.Quota.{
  System, idle, locked, counted, done, move, Reach, here, next, acquire, pass, insert,
}
use k8s_stack_keycloak_api_k.Database.Quota.Refinement.{phase_after, create_key-Reach}
use k8s_stack_keycloak_api_k.Database.Quota.Safety.{quota_safe}
use k8s_stack_keycloak_api_k.Tests.Data.{platform, alice, secret, draw, new_key, row, session}

clean : IsClean session
clean = record { no_pending = refl; no_doomed = refl }

abbrev after : Session
after = settled (new_row platform draw new_key ∷ row ∷ []) session

created : create_key platform draw new_key session ≡ (ok (draw.key_id, secret), after)
unfolding create_key new_row list_beq
created = refl

create_key_quota_example :
    (count_keys alice after.rows ≡ suc (count_keys alice session.rows))
    × (count_keys alice after.rows ≤ 2)
    × ((u : Str) → u ≢ alice → count_keys u after.rows ≡ count_keys u session.rows)
create_key_quota_example =
    create_key_quota platform draw new_key session after (draw.key_id, secret) clean created

create_key_errors_example :
    (((create_key platform draw new_key session).0 ≡ err limit_reached)
      ↔ (2 ≤ count_keys alice session.rows))
    × ((e : DbError)
        → (create_key platform draw new_key session).0 ≡ err e
        → ((create_key platform draw new_key session).1.rows ≡ session.rows)
          × ((create_key platform draw new_key session).1.locks ≡ []))
create_key_errors_example = create_key_errors platform draw new_key session clean

constrained : WellFormed session.rows
unfolding clashes
constrained = (refl, tt)

create_key-IsClean_example : IsClean (create_key platform draw new_key session).1
create_key-IsClean_example = create_key-IsClean platform draw new_key session clean

create_key-get_key_example : get_key platform 7 secret after ≡ (
    if leb (5 + days 1) 7
    then none
    else some (key_to_dict platform (new_row platform draw new_key)))
create_key-get_key_example =
    create_key-get_key platform draw new_key session after (draw.key_id, secret) 7 clean created

found : get_row row.id session ≡ some row
unfolding get_row list_beq
found = refl

abbrev emptied : Session
emptied = settled [] session

revoked : revoke_key row.id alice session ≡ (ok true, emptied)
unfolding revoke_key list_beq
revoked = refl

revoked_for_good_example :
    (get_row row.id emptied ≡ none)
    × ((now : ℕ) (key_value : Str)
        → key_value ≡ row.key_hash
        → get_key platform now key_value emptied ≡ none)
    × ((j : Str) → j ≢ row.id → get_row j emptied ≡ get_row j session)
    × WellFormed emptied.rows
revoked_for_good_example =
    revoked_for_good platform row.id alice session emptied row clean constrained found (inl revoked)

-- one row more than the limit
abbrev crowded : Session
crowded = record session { rows = row ∷ record row { id = draw.key_id; created_at = naive 2 } ∷ [] }

list_keys_lem_example :
    (rows left_out : List ApiKey) × (list_keys platform alice 1 crowded
      ≡ map (key_to_dict platform) rows)
    × Perm (rows ++ left_out) (filter (λ r. r.user_id == alice && not r.revoked) crowded.rows)
    × InOrder platform (rows ++ left_out)
    × (length rows ≤ 1)
    × (left_out ≢ [] → length rows ≡ 1)
list_keys_lem_example =
    list_keys_lem platform alice 1 crowded (record { no_pending = refl; no_doomed = refl })

abbrev hashtext : Str → ℕ
hashtext s = 0

abbrev draws : ℕ → Draw
draws i = draw

abbrev jobs : ℕ → NewKey
jobs i = new_key

abbrev start : System
start = record { rows = []; phase = λ _. idle }

abbrev end : System
end = record {
  rows = new_row platform draw new_key ∷ [];
  phase = move 0 done (move 0 counted (move 0 locked start.phase));
}

one_request : Reach platform hashtext draws jobs start end
unfolding count_keys clashes
one_request =
    next (next (next here (acquire 0 refl (λ j p. cc))) (pass 0 refl (omega arith)))
      (insert 0 refl refl)

none_yet : (u : Str) → count_keys u [] ≤ 2
unfolding count_keys
none_yet u = omega arith

quota_safe_example : ((u : Str) → count_keys u end.rows ≤ 2) × WellFormed end.rows
quota_safe_example =
    quota_safe platform hashtext draws jobs 2 (λ i. refl) [] end none_yet tt one_request

create_key-Reach_example :
    (u : System) × Reach platform hashtext draws jobs
      (record { rows = session.rows; phase = λ _. idle })
      u
    × (u.rows ≡ (create_key platform draw new_key session).1.rows)
    × (u.phase 0 ≡ phase_after (create_key platform draw new_key session).0)
create_key-Reach_example =
    create_key-Reach platform hashtext draws jobs 0 (λ _. idle) session clean refl (λ j p. cc)
