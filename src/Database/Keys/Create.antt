-- ===== src/Database/Keys/Create.antt =====
-- Creating keys: the quota, the new key's validity, and what an error leaves behind.
use k8s_stack_keycloak_api_k.Base.{
  Result, ok, err, ℕ, suc, ◌+◌, ◌≤◌, Str, ◌≡◌, ◌≢◌, ◌↔◌, refl, sym, ap, ◌∙◌, not, ◌&&◌, none, some,
  List, [], ◌∷◌, ◌==◌, ==_iff, ==_refl, nat_eq, str_eq, find, leb, if◌then◌else◌, arith,
}
use k8s_stack_keycloak_api_k.Database.Session.{
  ApiKey, Session, width_ok, clashes, flush, kept, add, commit, lock_user, IsClean, DbError,
  limit_reached, write_failed, count_keys,
}
use k8s_stack_keycloak_api_k.Database.Rows.{
  WellFormed, kept_clean, visible_clean, settled, count_keys-cons,
}
use k8s_stack_keycloak_api_k.Database.Keys.{
  Platform, Draw, NewKey, days, or_rollback, hash_key, key_to_dict, new_row, create_key,
  live_or_none, get_key, get_key_clean,
}

module _ (os : Platform) (d : Draw) (k : NewKey) where
  -- what `create_key` does in a clean session
  unfoldable pub outcome : Session → Result DbError (Str × Str) × Session
  outcome s =
      if leb k.max_keys_per_user (count_keys k.user_id s.rows)
      then (err limit_reached, settled s.rows s)
      else if width_ok s.bind (new_row os d k) && not (clashes (new_row os d k) s.rows)
      then (ok (d.key_id, d.key_value), settled (new_row os d k ∷ s.rows) s)
      else (err write_failed, settled s.rows s)

  lock_user-rows : (s : Session) → (lock_user k.user_id s).rows ≡ s.rows
  unfolding lock_user
  lock_user-rows s = ground arith

  lock_user-IsClean : (s : Session) → IsClean s → IsClean (lock_user k.user_id s)
  unfolding lock_user
  lock_user-IsClean s clean = ground arith

  lock_user-settled :
      (rows : List ApiKey) (s : Session) → settled rows (lock_user k.user_id s) ≡ settled rows s
  unfolding lock_user
  lock_user-settled rows s = ground arith

  lock_user-bind : (s : Session) → (lock_user k.user_id s).bind ≡ s.bind
  unfolding lock_user
  lock_user-bind s = ground arith

  kept-add : (s : Session) (row : ApiKey) → IsClean s → kept (add row s) ≡ s.rows
  unfolding add
  kept-add s row clean = kept_clean (record s { pending = row ∷ s.pending }) clean.no_doomed

  commit-add :
      (s : Session) (row : ApiKey)
      → IsClean s
      → or_rollback {A = Str × Str} (d.key_id, d.key_value) (commit (add row s)) ≡ (
          if width_ok s.bind row && not (clashes row s.rows)
          then (ok (d.key_id, d.key_value), settled (row ∷ s.rows) s)
          else (err write_failed, settled s.rows s))
  unfolding commit or_rollback add flush
  commit-add s row clean = rw (clean.no_pending, kept-add s row clean) (ground arith)

  pub create_key-outcome : (s : Session) → IsClean s → create_key os d k s ≡ outcome s
  unfolding outcome
  create_key-outcome s clean =
      unfold create_key in
      rw
        (
          visible_clean (lock_user k.user_id s) (lock_user-IsClean s clean),
          commit-add (lock_user k.user_id s) (new_row os d k) (lock_user-IsClean s clean),
          lock_user-rows s,
        )
        (ground (
          arith,
          lock_user-bind s,
          lock_user-settled s.rows s,
          lock_user-settled (new_row os d k ∷ s.rows) s,
        ))

  -- In a clean session a created key raises its owner's count by one and not above the quota, and
  -- no other user's count changes.
  pub create_key_quota :
      (s t : Session) (made : Str × Str)
      → IsClean s
      → create_key os d k s ≡ (ok made, t)
      → (count_keys k.user_id t.rows ≡ suc (count_keys k.user_id s.rows))
        × (count_keys k.user_id t.rows ≤ k.max_keys_per_user)
        × ((u : Str) → u ≢ k.user_id → count_keys u t.rows ≡ count_keys u s.rows)
  unfolding outcome new_row
  create_key_quota s t made clean h =
      let e : outcome s ≡ (ok made, t) = sym (create_key-outcome s clean) ∙ h in
      (
        ground (arith, count_keys-cons k.user_id (new_row os d k) s.rows, ==_refl k.user_id),
        ground (arith, count_keys-cons k.user_id (new_row os d k) s.rows, ==_refl k.user_id),
        λ u ne. ground (arith, count_keys-cons u (new_row os d k) s.rows, ==_iff k.user_id u),
      )

  -- In a clean session `create_key` reports the limit exactly if the owner has at least as many keys
  -- as the quota allows, and whatever it raises, the rows are as before and no lock is held.
  pub create_key_errors :
      (s : Session)
      → IsClean s
      → (((create_key os d k s).0 ≡ err limit_reached)
          ↔ (k.max_keys_per_user ≤ count_keys k.user_id s.rows))
        × ((e : DbError)
            → (create_key os d k s).0 ≡ err e
            → ((create_key os d k s).1.rows ≡ s.rows) × ((create_key os d k s).1.locks ≡ []))
  unfolding outcome
  create_key_errors s clean = rw (create_key-outcome s clean) (ground arith, λ e h. ground arith)

  -- In a clean session whose rows meet the table's constraints, they meet them after creating a key,
  -- whether it succeeds or fails.
  pub create_key-WellFormed :
      (s : Session) → IsClean s → WellFormed s.rows → WellFormed (create_key os d k s).1.rows
  unfolding outcome
  create_key-WellFormed s clean h = rw (create_key-outcome s clean) (ground arith)

  pub create_key-IsClean : (s : Session) → IsClean s → IsClean (create_key os d k s).1
  unfolding outcome
  create_key-IsClean s clean = rw (create_key-outcome s clean) (ground arith)

  created :
      (s t : Session) (made : Str × Str)
      → outcome s ≡ (ok made, t)
      → (made.1 ≡ d.key_value) × (t ≡ settled (new_row os d k ∷ s.rows) s)
  unfolding outcome
  created s t made h = ground arith

  outcome-IsClean : (s : Session) → IsClean (outcome s).1
  unfolding outcome
  outcome-IsClean s = ground arith

  find-outcome :
      (s : Session) (digest : Str)
      → hash_key os d.key_value ≢ digest
      → find (λ r. r.key_hash == digest) (outcome s).1.rows
        ≡ find (λ r. r.key_hash == digest) s.rows
  unfolding outcome new_row
  find-outcome s digest ne = ground (arith, ==_iff (hash_key os d.key_value) digest)

  -- The secret that a successful call in a clean session returns is accepted with the new row's
  -- metadata until the requested days have passed since the call, and never from then on.
  pub create_key-get_key :
      (s t : Session) (made : Str × Str) (now : ℕ)
      → IsClean s
      → create_key os d k s ≡ (ok made, t)
      → get_key os now made.1 t ≡ (
          if leb (d.now + days k.validity_days) now
          then none
          else some (key_to_dict os (new_row os d k)))
  unfolding live_or_none new_row
  create_key-get_key s t made now clean h =
      let (same, e) = created s t made (sym (create_key-outcome s clean) ∙ h) in
      rw
        (
          same,
          e,
          get_key_clean os now d.key_value (settled (new_row os d k ∷ s.rows) s)
              (record { no_pending = refl; no_doomed = refl }),
        )
        (rw (==_refl (hash_key os d.key_value)) (ground arith))

  -- In a clean session creating a key, or failing to, changes nothing for a secret with another
  -- digest.
  pub create_key-get_key_other :
      (s : Session) (secret : Str) (now : ℕ)
      → IsClean s
      → os.sha256 secret ≢ os.sha256 d.key_value
      → get_key os now secret (create_key os d k s).1 ≡ get_key os now secret s
  unfolding outcome
  create_key-get_key_other s secret now clean ne = rw (create_key-outcome s clean) (
      get_key_clean os now secret (outcome s).1 (outcome-IsClean s)
      ∙ ap (live_or_none os now) (find-outcome s (hash_key os secret) ne')
      ∙ sym (get_key_clean os now secret s clean))
    where
      ne' : hash_key os d.key_value ≢ hash_key os secret
      ne' p = ne (unfold hash_key in sym p)
