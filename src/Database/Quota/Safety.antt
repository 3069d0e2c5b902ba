-- ===== src/Database/Quota/Safety.antt =====
-- No interleaving of requests lets a user have more keys than the quota.
use k8s_stack_keycloak_api_k.Base.{
  ℕ, ◌≤◌, ◌<◌, Str, ◌≡◌, true, List, [], ◌∷◌, ==_iff, nat_eq, str_eq, arith, nat_beq_iff,
}
use k8s_stack_keycloak_api_k.Database.Session.{ApiKey, count_keys}
use k8s_stack_keycloak_api_k.Database.Rows.{
  WellFormed, without, without-WellFormed, count_keys-cons,
}
use k8s_stack_keycloak_api_k.Database.Keys.{Platform, Draw, NewKey, new_row}
use k8s_stack_keycloak_api_k.Database.Quota.{
  idle, counted, holds, System, Step, acquire, pass, refuse, insert, abort, revoke, Reach, here,
  next,
}

count_keys-without-le :
    (u key_id : Str) (rows : List ApiKey) → count_keys u (without key_id rows) ≤ count_keys u rows
unfolding count_keys without
count_keys-without-le u key_id [] = omega arith
count_keys-without-le u key_id (r ∷ rows) = ground (arith, count_keys-without-le u key_id rows)

module _ (hashtext : Str → ℕ) (job : ℕ → NewKey) (max : ℕ) where
  -- Every user is within the quota, with room for one more wherever a request has passed its test,
  -- and two requests never hold the lock of one number.
  pub record Inv (s : System) : Type 0 where
    pub within : (u : Str) → count_keys u s.rows ≤ max
    pub room : (i : ℕ) → s.phase i ≡ counted → count_keys (job i).user_id s.rows < max
    pub exclusive :
        (i j : ℕ)
        → holds (s.phase i) ≡ true
        → holds (s.phase j) ≡ true
        → hashtext (job i).user_id ≡ hashtext (job j).user_id
        → i ≡ j
    pub distinct : WellFormed s.rows

module _ (os : Platform) (hashtext : Str → ℕ) (draw : ℕ → Draw) (job : ℕ → NewKey) (max : ℕ)
    (same : (i : ℕ) → (job i).max_keys_per_user ≡ max) where
  Step-Inv :
      {s t : System}
      → Step os hashtext draw job s t
      → Inv hashtext job max s
      → Inv hashtext job max t
  unfolding new_row
  Step-Inv {s} (acquire i e free) inv = record {
    within = inv.within;
    room = λ j q. ground (arith, inv.room j);
    exclusive = λ j k p q h.
        ground (arith, inv.exclusive j k, free j, free k, nat_beq_iff i j, nat_beq_iff i k);
    distinct = inv.distinct;
  }
  Step-Inv {s} (pass i e few) inv = record {
    within = inv.within;
    room = λ j q. ground (arith, inv.room j, nat_beq_iff i j, same i);
    exclusive = λ j k p q h. ground (arith, inv.exclusive j k, nat_beq_iff i j, nat_beq_iff i k);
    distinct = inv.distinct;
  }
  Step-Inv {s} (refuse i e full) inv = record {
    within = inv.within;
    room = λ j q. ground (arith, inv.room j);
    exclusive = λ j k p q h. ground (arith, inv.exclusive j k);
    distinct = inv.distinct;
  }
  Step-Inv {s} (insert i e new) inv = record {
    within = λ u. ground (
      arith,
      count_keys-cons u (new_row os (draw i) (job i)) s.rows,
      inv.within u,
      inv.room i e,
      ==_iff (job i).user_id u,
    );
    room = λ j q. ground (
      arith,
      count_keys-cons (job j).user_id (new_row os (draw i) (job i)) s.rows,
      inv.room j,
      inv.exclusive i j,
      ==_iff (job i).user_id (job j).user_id,
      nat_beq_iff i j,
    );
    exclusive = λ j k p q h. ground (arith, inv.exclusive j k);
    distinct = (new, inv.distinct);
  }
  Step-Inv {s} (abort i e) inv = record {
    within = inv.within;
    room = λ j q. ground (arith, inv.room j);
    exclusive = λ j k p q h. ground (arith, inv.exclusive j k);
    distinct = inv.distinct;
  }
  Step-Inv {s} (revoke key_id) inv = record {
    within = λ u. omega (arith, inv.within u, count_keys-without-le u key_id s.rows);
    room = λ i e. omega (arith, inv.room i e, count_keys-without-le (job i).user_id key_id s.rows);
    exclusive = inv.exclusive;
    distinct = without-WellFormed key_id s.rows inv.distinct;
  }

  Reach-Inv :
      {s t : System}
      → Inv hashtext job max s
      → Reach os hashtext draw job s t
      → Inv hashtext job max t
  Reach-Inv inv here = inv
  Reach-Inv inv (next r st) = Step-Inv st (Reach-Inv inv r)

  -- From rows within the quota that meet the constraints, with no request begun, no interleaving of
  -- creations and revocations brings a user above the quota or two rows to one id or digest; every
  -- request has the same quota, and the numbers that users hash to may collide.
  pub quota_safe :
      (rows : List ApiKey) (t : System)
      → ((u : Str) → count_keys u rows ≤ max)
      → WellFormed rows
      → Reach os hashtext draw job (record { rows = rows; phase = λ _. idle }) t
      → ((u : Str) → count_keys u t.rows ≤ max) × WellFormed t.rows
  quota_safe rows t few wf r =
      let inv =
        Reach-Inv {s = record { rows = rows; phase = λ _. idle }}
          (record { within = few; room = λ i e. cc; exclusive = λ i j p q h. cc; distinct = wf })
          r in
      (inv.within, inv.distinct)
