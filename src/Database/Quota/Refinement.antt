-- ===== src/Database/Quota/Refinement.antt =====
-- `create_key` as a run of the steps that interleave.
use k8s_stack_keycloak_api_k.Base.{
  Result, ok, err, ℕ, Str, ◌≡◌, ◌≢◌, refl, ap, true, not, ◌&&◌, ◌∷◌, ==_refl, nat_eq, str_eq, leb,
  arith, Bool-cases, inl, inr,
}
use k8s_stack_keycloak_api_k.Database.Session.{
  ApiKey, Session, DbError, width_ok, clashes, count_keys, IsClean,
}
use k8s_stack_keycloak_api_k.Database.Keys.{Platform, Draw, NewKey, new_row, create_key}
use k8s_stack_keycloak_api_k.Database.Keys.Create.{outcome, create_key-outcome}
use k8s_stack_keycloak_api_k.Database.Quota.{
  Phase, idle, locked, counted, done, failed, holds, System, move, acquire, pass, refuse, insert,
  abort, Reach, here, next,
}

-- where a request stands after `create_key`
abbrev pub phase_after : Result DbError (Str × Str) → Phase
phase_after (ok made) = done
phase_after (err e) = failed

move_self : (i : ℕ) (p : Phase) (f : ℕ → Phase) → move i p f i ≡ p
move_self i p f = rw (==_refl i) refl

module _ (os : Platform) (hashtext : Str → ℕ) (draw : ℕ → Draw) (job : ℕ → NewKey) where
  -- In a clean session, for a request that has not begun and while no request holds its user's lock,
  -- what `create_key` does to the rows, and whether it succeeds, is what some run of the steps does.
  pub create_key-Reach :
      (i : ℕ) (phase : ℕ → Phase) (s : Session)
      → IsClean s
      → phase i ≡ idle
      → ((j : ℕ) → holds (phase j) ≡ true → hashtext (job j).user_id ≢ hashtext (job i).user_id)
      → (u : System) × Reach os hashtext draw job (record { rows = s.rows; phase = phase }) u
        × (u.rows ≡ (create_key os (draw i) (job i) s).1.rows)
        × (u.phase i ≡ phase_after (create_key os (draw i) (job i) s).0)
  unfolding outcome
  create_key-Reach i phase s clean unbegun free =
      rw (create_key-outcome os (draw i) (job i) s clean)
        (elim (Bool-cases (leb (job i).max_keys_per_user (count_keys (job i).user_id s.rows))) [
          | inl full ↦ rw full (
            record { rows = s.rows; phase = move i failed at_lock },
            next taken (refuse i (move_self i locked phase) (ground (arith, full))),
            refl,
            move_self i failed at_lock,
          )
          | inr few ↦
              let test : Reach os hashtext draw job start
                  (record { rows = s.rows; phase = move i counted at_lock }) =
                next taken (pass i (move_self i locked phase) (ground (arith, few))) in
              elim (Bool-cases (width_ok s.bind row && not (clashes row s.rows))) [
                | inl fine ↦
                    rw (few, fine)
                      (
                        record {
                          rows = row ∷ s.rows;
                          phase = move i done (move i counted at_lock);
                        },
                        next test (insert i (move_self i counted at_lock) (ground (arith, fine))),
                        refl,
                        move_self i done (move i counted at_lock),
                      )
                | inr bad ↦
                    rw (few, bad)
                      (
                        record { rows = s.rows; phase = move i failed (move i counted at_lock) },
                        next test (abort i (ap holds (move_self i counted at_lock))),
                        refl,
                        move_self i failed (move i counted at_lock),
                      )
              ]
        ])
    where
      start : System
      start = record { rows = s.rows; phase = phase }

      row : ApiKey
      row = new_row os (draw i) (job i)

      at_lock : ℕ → Phase
      at_lock = move i locked phase

      taken : Reach os hashtext draw job start (record { rows = s.rows; phase = at_lock })
      taken = next here (acquire i unbegun free)
