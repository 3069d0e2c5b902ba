-- ===== src/Database/Schema/Startup/Bounds.antt =====
-- How often a start of the service tries, how long it sleeps, and what becomes of its engine.
use k8s_stack_keycloak_api_k.Base.{
  ℕ, zero, suc, ◌+◌, ◌≤◌, ◌≡◌, ◌↔◌, inl, inr, refl, subst, Bool, false, some, ◌∷◌, ◌==◌, str_eq,
  codes, Bool-cases, Option-cases, Result, ok, err, arith,
}
use k8s_stack_keycloak_api_k.Database.Session.{Dialect, postgresql, sqlite}
use k8s_stack_keycloak_api_k.Database.Schema.{Sqlalchemy, schema_version}
use k8s_stack_keycloak_api_k.Database.Schema.Startup.{
  DatabaseUrl, driver_of, is_supported, Seen, catalog, StartError, unsupported, schema, operational,
  failed, Engine, new_engine, dispose, verify_seen, next_attempt, tried, slept, verify_loop,
  or_dispose, empty_catalog, start_memory, create_engine_and_session_factory,
}

module _ (sql : Sqlalchemy) (dialect : Dialect) where
  -- One second is slept between two attempts, and there are at most as many as were left.
  abbrev Counted : ℕ → Engine → Engine → Type 0
  Counted left before after =
      (after.disposed ≡ before.disposed)
      × (after.attempts ≤ before.attempts + left)
      × (after.seconds_slept + before.attempts + 1 ≡ before.seconds_slept + after.attempts)

  tried_once : (left : ℕ) (e : Engine) → Counted (suc left) e (tried sql e)
  tried_once left e = (refl, omega arith, omega arith)

  next_attempt-Counted :
      (left : ℕ) (rest : Result StartError (Unit {0}) × Engine) (r : Result StartError (Unit {0}))
      (e : Engine)
      → ((k : ℕ) → left ≡ suc k → Counted (suc k) (slept sql (tried sql e)) rest.1)
      → Counted (suc left) e (next_attempt sql left rest r (tried sql e)).1
  unfolding next_attempt
  next_attempt-Counted left rest (ok _) e h = tried_once left e
  next_attempt-Counted zero rest (err operational) e h = tried_once 0 e
  next_attempt-Counted zero rest (err unsupported) e h = tried_once 0 e
  next_attempt-Counted zero rest (err (schema fault)) e h = tried_once 0 e
  next_attempt-Counted zero rest (err failed) e h = tried_once 0 e
  next_attempt-Counted (suc left) rest (err operational) e h =
      let (same, few, counted) = h left refl in (same, omega (arith, few), omega (arith, counted))
  next_attempt-Counted (suc left) rest (err unsupported) e h = tried_once (suc left) e
  next_attempt-Counted (suc left) rest (err (schema fault)) e h = tried_once (suc left) e
  next_attempt-Counted (suc left) rest (err failed) e h = tried_once (suc left) e

  verify_loop-Counted :
      (seen : ℕ → Seen) (left : ℕ) (e : Engine)
      → Counted (suc left) e (verify_loop sql dialect seen (suc left) e).1
  unfolding verify_loop
  verify_loop-Counted seen zero e =
      next_attempt-Counted 0 (verify_loop sql dialect seen 0 (slept sql (tried sql e)))
        (verify_seen sql dialect (seen e.attempts)) e (λ k bad. absurd (omega (arith, bad)))
  verify_loop-Counted seen (suc left) e =
      let rest = verify_loop-Counted seen left (slept sql (tried sql e)) in
      next_attempt-Counted (suc left)
        (verify_loop sql dialect seen (suc left) (slept sql (tried sql e)))
        (verify_seen sql dialect (seen e.attempts)) e
        (λ k same.
          let q : left ≡ k = omega (arith, same) in
          subst
            (λ n.
              Counted (suc n) (slept sql (tried sql e))
                (verify_loop sql dialect seen (suc left) (slept sql (tried sql e))).1)
            q rest)

module _ (sql : Sqlalchemy) where
  -- within the bounds, and not disposed of
  abbrev IsBounded : Engine → Type 0
  IsBounded e = (e.attempts ≤ 3) × (e.seconds_slept ≤ 2) × (e.disposed ≡ false)

  or_dispose_bounds :
      (m : Result StartError (Unit {0}) × Engine) (r : Result StartError (Unit {0})) (e : Engine)
      → IsBounded m.1
      → or_dispose sql m ≡ (r, some e)
      → (e.attempts ≤ 3) × (e.seconds_slept ≤ 2) × ((e.disposed ≡ false) ↔ (r ≡ ok tt))
  unfolding or_dispose
  or_dispose_bounds (ok _, before) r e (few, short, live) h =
      let same : before ≡ e = cc h in rw (← same) (few, short, (λ d. cc h, λ k. live))
  or_dispose_bounds (err x, before) r e (few, short, live) h =
      let same : dispose before ≡ e = cc h in
      rw (← same) (few, short, (λ d. absurd (cc d), λ k. absurd (cc (h, k))))

  loop_IsBounded :
      (dialect : Dialect) (seen : ℕ → Seen)
      → IsBounded (verify_loop sql dialect seen 3 new_engine).1
  loop_IsBounded dialect seen =
      let (live, few, slept_between) = verify_loop-Counted sql dialect seen 2 new_engine in
      (omega (arith, few), omega (arith, few, slept_between), live)

  memory_IsBounded : IsBounded (start_memory sql new_engine).1
  unfolding start_memory
  memory_IsBounded = elim (Option-cases (sql.create_all sqlite (empty_catalog sql))) [
    | inl refused ↦ rw (refused, start_memory) (omega arith, omega arith, refl)
    | inr (c, made) ↦
        rw (made, start_memory)
          (loop_IsBounded sqlite
            (λ n. catalog (record c { versions = schema_version ∷ c.versions })))
  ]

module _ (sql : Sqlalchemy) (seen : ℕ → Seen) (database_url : DatabaseUrl) where
  -- Whatever it meets, it tries at most three times and sleeps at most two seconds, and the engine,
  -- if one was made, is disposed of exactly if the start fails.
  pub create_engine_bounds :
      (allow : Bool) (r : Result StartError (Unit {0})) (e : Engine)
      → create_engine_and_session_factory sql seen database_url allow ≡ (r, some e)
      → (e.attempts ≤ 3) × (e.seconds_slept ≤ 2) × ((e.disposed ≡ false) ↔ (r ≡ ok tt))
  unfolding create_engine_and_session_factory
  create_engine_bounds allow r e h = elim (Bool-cases (is_supported database_url allow)) [
    | inr refused ↦ absurd (cc (rw refused at h))
    | inl supported ↦ elim (Bool-cases (driver_of database_url == codes "sqlite")) [
      | inl memory ↦
          or_dispose_bounds sql (start_memory sql new_engine) r e (memory_IsBounded sql)
            (rw (supported, memory) at h)
      | inr server ↦
          or_dispose_bounds sql (verify_loop sql postgresql seen 3 new_engine) r e
            (loop_IsBounded sql postgresql seen) (rw (supported, server) at h)
    ]
  ]
