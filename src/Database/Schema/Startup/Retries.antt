-- ===== src/Database/Schema/Startup/Retries.antt =====
-- When the service starts: which of its attempts decides.
use k8s_stack_keycloak_api_k.Base.{
  ℕ, zero, suc, ◌+◌, ◌<◌, ◌≡◌, ◌≢◌, ◌↔◌, refl, ap, Bool, str_eq, codes, list_beq, Result, ok, err,
  arith,
}
use k8s_stack_keycloak_api_k.Database.Session.{Dialect, postgresql}
use k8s_stack_keycloak_api_k.Database.Schema.{Catalog, Sqlalchemy, SchemaFault, verify_schema}
use k8s_stack_keycloak_api_k.Database.Schema.Conforms.{Conforms, verify_schema_iff}
use k8s_stack_keycloak_api_k.Database.Schema.Startup.{
  DatabaseUrl, driver_of, psycopg, is_supported, Seen, catalog, operational_error, other_error,
  StartError, unsupported, schema, operational, failed, Engine, new_engine, checked, verify_seen,
  next_attempt, tried, slept, verify_loop, or_dispose, create_engine_and_session_factory,
}

module _ (sql : Sqlalchemy) (dialect : Dialect) where
  -- One of the next `left` attempts meets a database that conforms, and all before it an
  -- `OperationalError`.
  pub record Succeeds (seen : ℕ → Seen) (first left : ℕ) : Type 0 where
    pub at : ℕ
    pub in_time : at < left
    pub errors_before : (i : ℕ) → i < at → seen (first + i) ≡ operational_error
    pub found : Catalog
    pub there : seen (first + at) ≡ catalog found
    pub fine : Conforms sql dialect found

  -- what an attempt can come to
  data Attempt (s : Seen) : Type 0 where
    passes :
        (c : Catalog)
        → s ≡ catalog c
        → Conforms sql dialect c
        → verify_seen sql dialect s ≡ ok tt
        → Attempt s
    retries : s ≡ operational_error → Attempt s
    stops :
        (e : StartError)
        → verify_seen sql dialect s ≡ err e
        → e ≢ operational
        → s ≢ operational_error
        → ((c : Catalog) → s ≡ catalog c → Conforms sql dialect c → ⊥)
        → Attempt s

  Attempt-of : (s : Seen) → Attempt s
  unfolding verify_seen checked
  Attempt-of operational_error = retries refl
  Attempt-of other_error = stops failed refl (λ e. cc e) (λ e. cc e) (λ c e h. cc e)
  Attempt-of (catalog c) = go (verify_schema sql dialect c) refl
    where
      go :
          (r : Result SchemaFault (Unit {0}))
          → verify_schema sql dialect c ≡ r
          → Attempt (catalog c)
      go (ok _) e = passes c refl ((verify_schema_iff sql dialect c).0 e) (ap checked e)
      go (err fault) e =
          stops (schema fault) (ap checked e) (λ q. cc q) (λ q. cc q)
            (λ d q h. cc (e, q, (verify_schema_iff sql dialect d).1 h))

  at_once :
      (seen : ℕ → Seen) (first left : ℕ) (c : Catalog)
      → seen first ≡ catalog c
      → Conforms sql dialect c
      → Succeeds seen first (suc left)
  at_once seen first left c there fine = record {
    at = 0;
    in_time = omega arith;
    errors_before = λ i early. absurd (omega arith);
    found = c;
    there = let e : first + 0 ≡ first = omega arith in rw e there;
    fine = fine;
  }

  later :
      (seen : ℕ → Seen) (first left : ℕ)
      → seen first ≡ operational_error
      → Succeeds seen (suc first) left
      → Succeeds seen first (suc left)
  later seen first left missed h = record {
    at = suc h.at;
    in_time = omega (arith, h.in_time);
    errors_before = before;
    found = h.found;
    there = let e : first + suc h.at ≡ suc first + h.at = omega arith in rw e h.there;
    fine = h.fine;
  }
    where
      before : (i : ℕ) → i < suc h.at → seen (first + i) ≡ operational_error
      before zero early = let e : first + 0 ≡ first = omega arith in rw e missed
      before (suc i) early =
          let e : first + suc i ≡ suc first + i = omega arith in
          rw e (h.errors_before i (omega arith))

  -- what is left to do after the first attempt, if it was not enough
  after_first :
      (seen : ℕ → Seen) (first left : ℕ)
      → ((c : Catalog) → seen first ≡ catalog c → Conforms sql dialect c → ⊥)
      → Succeeds seen first (suc left)
      → (seen first ≡ operational_error) × Succeeds seen (suc first) left
  after_first seen first left not_yet h = go h.at refl
    where
      go : (n : ℕ) → h.at ≡ n → (seen first ≡ operational_error) × Succeeds seen (suc first) left
      go zero e =
          absurd (
            not_yet h.found (let q : first ≡ first + h.at = omega (arith, e) in rw q h.there)
              h.fine)
      go (suc n) e = (
        (let q : first + 0 ≡ first = omega arith in
            let p : seen (first + 0) ≡ operational_error = h.errors_before 0 (omega (arith, e)) in
            rw q at p),
        record {
          at = n;
          in_time = omega (arith, h.in_time, e);
          errors_before = λ i early.
              let q : first + suc i ≡ suc first + i = omega arith in
              let p = h.errors_before (suc i) (omega (arith, e)) in rw q at p;
          found = h.found;
          there = let q : suc first + n ≡ first + h.at = omega (arith, e) in rw q h.there;
          fine = h.fine;
        },
      )

  next_attempt_final :
      (left : ℕ) (rest : Result StartError (Unit {0}) × Engine) (x : StartError) (e : Engine)
      → x ≢ operational
      → next_attempt sql left rest (err x) e ≡ (err x, e)
  unfolding next_attempt
  next_attempt_final left rest operational e final = absurd (final refl)
  next_attempt_final zero rest unsupported e final = refl
  next_attempt_final (suc left) rest unsupported e final = refl
  next_attempt_final zero rest (schema fault) e final = refl
  next_attempt_final (suc left) rest (schema fault) e final = refl
  next_attempt_final zero rest failed e final = refl
  next_attempt_final (suc left) rest failed e final = refl

  -- The loop passes exactly if one of the attempts that are left does.
  abbrev Right : (ℕ → Seen) → ℕ → Engine → Type 0
  Right seen left e =
      ((verify_loop sql dialect seen left e).0 ≡ ok tt) ↔ Succeeds seen e.attempts left

  retry_last : (seen : ℕ → Seen) (e : Engine) → seen e.attempts ≡ operational_error → Right seen 1 e
  unfolding verify_loop next_attempt verify_seen
  retry_last seen e missed = rw missed (
    λ h. absurd (cc h),
    λ h.
        let rest = (after_first seen e.attempts 0 (λ c there fine. cc (missed, there)) h).1 in
        absurd (omega (arith, rest.in_time)),
  )

  retry_more :
      (seen : ℕ → Seen) (left : ℕ) (e : Engine)
      → seen e.attempts ≡ operational_error
      → Right seen (suc left) (slept sql (tried sql e))
      → Right seen (suc (suc left)) e
  unfolding verify_loop next_attempt verify_seen
  retry_more seen left e missed rest = rw missed (
    λ h. later seen e.attempts (suc left) missed (rest.0 h),
    λ h. rest.1 (after_first seen e.attempts (suc left) (λ c there fine. cc (missed, there)) h).1,
  )

  first_decides :
      (seen : ℕ → Seen) (left : ℕ) (e : Engine)
      → (seen e.attempts ≡ operational_error → Right seen (suc left) e)
      → Right seen (suc left) e
  unfolding verify_loop next_attempt
  first_decides seen left e otherwise = elim (Attempt-of (seen e.attempts)) [
    | passes c there fine passed ↦
        rw passed (λ h. at_once seen e.attempts left c there fine, λ h. refl)
    | retries missed ↦ otherwise missed
    | stops x stopped final not_missed not_fine ↦
        rw
          (
            stopped,
            next_attempt_final left (verify_loop sql dialect seen left (slept sql (tried sql e))) x
                (tried sql e) final,
          )
          (
            λ h. absurd (cc h),
            λ h. absurd (not_missed (after_first seen e.attempts left not_fine h).0),
          )
  ]

  verify_loop-ok_iff : (seen : ℕ → Seen) (left : ℕ) (e : Engine) → Right seen (suc left) e
  verify_loop-ok_iff seen zero e = first_decides seen 0 e (retry_last seen e)
  verify_loop-ok_iff seen (suc left) e = first_decides seen (suc left) e (λ missed.
      retry_more seen left e missed (verify_loop-ok_iff seen left (slept sql (tried sql e))))

  -- where the first of the attempts meets a database that conforms
  pub verify_loop-at_once :
      (seen : ℕ → Seen) (left : ℕ) (e : Engine) (c : Catalog)
      → seen e.attempts ≡ catalog c
      → Conforms sql dialect c
      → verify_loop sql dialect seen (suc left) e ≡ (ok tt, tried sql e)
  unfolding verify_loop next_attempt verify_seen checked
  verify_loop-at_once seen left e c there fine =
      rw (there, (verify_schema_iff sql dialect c).1 fine) refl

module _ (sql : Sqlalchemy) where
  or_dispose-ok : (m : Result StartError (Unit {0}) × Engine) → (or_dispose sql m).0 ≡ m.0
  unfolding or_dispose
  or_dispose-ok (ok _, e) = refl
  or_dispose-ok (err x, e) = refl

module _ (sql : Sqlalchemy) (seen : ℕ → Seen) (database_url : DatabaseUrl) where
  pub create_psycopg :
      driver_of database_url ≡ psycopg
      → (allow : Bool)
      → create_engine_and_session_factory sql seen database_url allow
        ≡ or_dispose sql (verify_loop sql postgresql seen 3 new_engine)
  unfolding create_engine_and_session_factory is_supported list_beq codes
  create_psycopg is_psycopg allow = rw is_psycopg refl

  -- With a PostgreSQL URL the service starts exactly if one of three attempts meets a database that
  -- conforms, and those before it an `OperationalError`.
  pub create_engine-ok_iff :
      driver_of database_url ≡ psycopg
      → (allow : Bool)
      → ((create_engine_and_session_factory sql seen database_url allow).0 ≡ ok tt)
        ↔ Succeeds sql postgresql seen 0 3
  create_engine-ok_iff is_psycopg allow =
      rw
        (
          create_psycopg is_psycopg allow,
          or_dispose-ok sql (verify_loop sql postgresql seen 3 new_engine),
        )
        (verify_loop-ok_iff sql postgresql seen 2 new_engine)
