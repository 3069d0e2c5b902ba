-- ===== src/Database/Quota.antt =====
-- `create_key` of several requests at once, on PostgreSQL: each request is one transaction, which
-- takes the advisory lock of its user, counts, and inserts at the commit; between any two steps of
-- one request those of the others may run.
pub mod Refinement
pub mod Safety
use k8s_stack_keycloak_api_k.Base.{
  ℕ, ◌≤◌, ◌<◌, Str, ◌≡◌, ◌≢◌, Bool, true, false, List, ◌∷◌, ◌==◌, nat_eq, if◌then◌else◌,
}
use k8s_stack_keycloak_api_k.Database.Session.{ApiKey, clashes, count_keys}
use k8s_stack_keycloak_api_k.Database.Rows.{without}
use k8s_stack_keycloak_api_k.Database.Keys.{Platform, Draw, NewKey, new_row}

-- Where a request stands in `create_key`: before the lock, after it, after the test of the count,
-- after the commit, after a rollback.
pub data Phase : Type 0 where
  idle locked counted done failed : Phase

abbrev pub holds : Phase → Bool
holds idle = false
holds locked = true
holds counted = true
holds done = false
holds failed = false

-- The committed rows, and the phase of every request.
pub record System : Type 0 where
  pub rows : List ApiKey
  pub phase : ℕ → Phase

abbrev pub move : ℕ → Phase → (ℕ → Phase) → ℕ → Phase
move i p f j = if i == j then p else f j

module _ (os : Platform) (hashtext : Str → ℕ) (draw : ℕ → Draw) (job : ℕ → NewKey) where
  pub data Step (s : System) : System → Type 0 where
    -- `pg_advisory_xact_lock` waits while another transaction holds the same number
    acquire :
        (i : ℕ)
        → s.phase i ≡ idle
        → ((j : ℕ) → holds (s.phase j) ≡ true → hashtext (job j).user_id ≢ hashtext (job i).user_id)
        → Step s (record { rows = s.rows; phase = move i locked s.phase })
    pass :
        (i : ℕ)
        → s.phase i ≡ locked
        → count_keys (job i).user_id s.rows < (job i).max_keys_per_user
        → Step s (record { rows = s.rows; phase = move i counted s.phase })
    refuse :
        (i : ℕ)
        → s.phase i ≡ locked
        → (job i).max_keys_per_user ≤ count_keys (job i).user_id s.rows
        → Step s (record { rows = s.rows; phase = move i failed s.phase })
    insert :
        (i : ℕ)
        → s.phase i ≡ counted
        → clashes (new_row os (draw i) (job i)) s.rows ≡ false
        → Step s
            (record { rows = new_row os (draw i) (job i) ∷ s.rows; phase = move i done s.phase })
    -- any exception: the transaction is rolled back
    abort :
        (i : ℕ)
        → holds (s.phase i) ≡ true
        → Step s (record { rows = s.rows; phase = move i failed s.phase })
    -- another request revokes a key
    revoke : (key_id : Str) → Step s (record { rows = without key_id s.rows; phase = s.phase })

  pub data Reach (s : System) : System → Type 0 where
    here : Reach s s
    next : {t u : System} → Reach s t → Step t u → Reach s u
