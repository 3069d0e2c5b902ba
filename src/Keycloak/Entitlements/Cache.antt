-- ===== src/Keycloak/Entitlements/Cache.antt =====
-- The cache in front of the entitlements: what it holds, and when it answers.
use k8s_stack_keycloak_api_k.Base.{
  ℕ, suc, ◌+◌, ◌<◌, ◌≤◌, Str, ◌≡◌, refl, sym, ap, subst, ◌∙◌, inl, inr, true, Option, none, some,
  [], ◌∷◌, ◌==◌, ==_refl, str_eq, All, lookup, ltb, Bool-cases, arith, Result, ok, err,
}
use k8s_stack_keycloak_api_k.Keycloak.Exec.{
  PrincipalEntitlements, Client, World, Config, KcError, continue, tick, read_monotonic,
}
use k8s_stack_keycloak_api_k.Keycloak.Requests.Keeping.{Stored, Keeps}
use k8s_stack_keycloak_api_k.Keycloak.Entitlements.{
  fetch_principal_entitlements, ttl_of, fetch_and_store, cached_or_fetch,
  get_principal_entitlements,
}
use k8s_stack_keycloak_api_k.Keycloak.Entitlements.Answers.{IsAnswer, fetch-Keeps}

-- every stored answer is one
abbrev pub HoldsAnswers : Stored → Type 0
HoldsAnswers m = All (λ (entry : Str × (ℕ × Option PrincipalEntitlements)). IsAnswer entry.1.1) m

lookup-IsAnswer :
    (principal : Str) (m : Stored) {until : ℕ} {value : Option PrincipalEntitlements}
    → HoldsAnswers m
    → lookup principal m ≡ some (until, value)
    → IsAnswer value
lookup-IsAnswer principal [] h e = absurd (cc e)
lookup-IsAnswer principal ((k, (u, v)) ∷ m) {until} {value} h e =
    elim (Bool-cases (k == principal)) [
      | inl here ↦ let same : v ≡ value = cc (rw (here, lookup) at e) in subst IsAnswer same h.0
      | inr there ↦ lookup-IsAnswer principal m h.1 (rw (there, lookup) at e)
    ]

module _ (w : World) (config : Config) (fuel : ℕ) (principal : Str) where
  -- what a call leaves: only answers in the cache, and what it returned is one
  Served : Result KcError (Option PrincipalEntitlements) × Client → Type 0
  Served (ok value, c) = HoldsAnswers c.entitlement_cache × IsAnswer value
  Served (err e, c) = HoldsAnswers c.entitlement_cache

  -- the client after a fetched answer was stored
  abbrev pub with_answer : ℕ → Option PrincipalEntitlements → Client → Client
  with_answer until value c = record c {
    ticks = suc c.ticks;
    entitlement_cache = (principal, (until, value)) ∷ c.entitlement_cache;
  }

  stored_after :
      Result KcError (Option PrincipalEntitlements) × Client
      → Result KcError (Option PrincipalEntitlements) × Client
  unfolding ttl_of
  stored_after (ok value, c) =
      (ok value, with_answer (w.monotonic c.ticks + ttl_of w config fuel value) value c)
  stored_after (err e, c) = (err e, c)

  fetch_and_store_lem :
      (c : Client)
      → fetch_and_store w config fuel principal c
        ≡ stored_after (fetch_principal_entitlements w config fuel principal c)
  unfolding fetch_and_store read_monotonic stored_after
  fetch_and_store_lem c = go (fetch_principal_entitlements w config fuel principal c)
    where
      go :
          (r : Result KcError (Option PrincipalEntitlements) × Client)
          → continue
              (λ value c1.
                continue
                  (λ later c2. (
                    ok value,
                    record c2 {
                      entitlement_cache =
                          (principal, (later + ttl_of w config fuel value, value))
                          ∷ c2.entitlement_cache;
                    },
                  ))
                  (read_monotonic w c1))
              r
            ≡ stored_after r
      go (ok value, c1) = refl
      go (err e, c1) = refl

  fetch_and_store-Served :
      (c : Client)
      → HoldsAnswers c.entitlement_cache
      → Served (fetch_and_store w config fuel principal c)
  unfolding Served stored_after
  fetch_and_store-Served c h = rw (fetch_and_store_lem c) (
      go (fetch_principal_entitlements w config fuel principal c)
        (fetch-Keeps w c.entitlement_cache config fuel principal c refl))
    where
      go :
          (r : Result KcError (Option PrincipalEntitlements) × Client)
          → Keeps c.entitlement_cache IsAnswer r
          → Served (stored_after r)
      go (ok value, c1) (same, answer) = ((answer, subst HoldsAnswers (sym same) h), answer)
      go (err e, c1) same = subst HoldsAnswers (sym same) h

  cached_or_fetch-Served :
      (now : ℕ) (c : Client) (o : Option (ℕ × Option PrincipalEntitlements))
      → HoldsAnswers c.entitlement_cache
      → lookup principal c.entitlement_cache ≡ o
      → Served (cached_or_fetch w config fuel now principal o c)
  unfolding cached_or_fetch Served
  cached_or_fetch-Served now c none h e = fetch_and_store-Served c h
  cached_or_fetch-Served now c (some (until, value)) h e = elim (Bool-cases (ltb now until)) [
    | inl fresh ↦
        rw fresh
          (h, lookup-IsAnswer principal c.entitlement_cache {until = until} {value = value} h e)
    | inr stale ↦ rw stale (fetch_and_store-Served c h)
  ]

  get-Served :
      (c : Client)
      → HoldsAnswers c.entitlement_cache
      → Served (get_principal_entitlements w config fuel principal c)
  unfolding get_principal_entitlements read_monotonic
  get-Served c h =
      cached_or_fetch-Served (w.monotonic c.ticks) (tick c) (lookup principal c.entitlement_cache) h
        refl

  -- If the cache holds only answers whose permissions are valid and distinct, then after any call it
  -- still does, also if the call raises, and what a call returns is such an answer.
  pub get_principal_entitlements-IsAnswer :
      (c c' : Client) (r : Result KcError (Option PrincipalEntitlements))
      → HoldsAnswers c.entitlement_cache
      → get_principal_entitlements w config fuel principal c ≡ (r, c')
      → HoldsAnswers c'.entitlement_cache
        × ((value : Option PrincipalEntitlements) → r ≡ ok value → IsAnswer value)
  get_principal_entitlements-IsAnswer c c' r h e = unpack r (subst Served e (get-Served c h))
    where
      unpack :
          (x : Result KcError (Option PrincipalEntitlements))
          → Served (x, c')
          → HoldsAnswers c'.entitlement_cache
            × ((value : Option PrincipalEntitlements) → x ≡ ok value → IsAnswer value)
      unpack (ok v) s =
          unfold Served in (s.0, λ value same. let e : v ≡ value = cc in subst IsAnswer e s.1)
      unpack (err x) s = unfold Served in (s, λ value same. absurd (cc same))

  fresh_answer :
      (c : Client) (until : ℕ) (value : Option PrincipalEntitlements)
      → lookup principal c.entitlement_cache ≡ some (until, value)
      → w.monotonic c.ticks < until
      → get_principal_entitlements w config fuel principal c ≡ (ok value, tick c)
  unfolding get_principal_entitlements read_monotonic cached_or_fetch
  fresh_answer c until value found early =
      let test : ltb (w.monotonic c.ticks) until ≡ true = ground (arith, early) in
      rw (found, test) refl

  -- Where an answer comes from that a call in the state `c` gives, with the state that the call
  -- leaves and the time until which the answer is stored there: an entry of the cache whose time was
  -- still ahead, or Keycloak, where the cache had no entry or one whose time had come.
  pub data Origin (c : Client) (value : Option PrincipalEntitlements) (until : ℕ)
      : Client → Type 0 where
    reused :
        lookup principal c.entitlement_cache ≡ some (until, value)
        → w.monotonic c.ticks < until
        → Origin c value until (tick c)
    fetched :
        (c1 : Client)
        → ((old : ℕ) (stale : Option PrincipalEntitlements)
            → lookup principal c.entitlement_cache ≡ some (old, stale)
            → old ≤ w.monotonic c.ticks)
        → fetch_principal_entitlements w config fuel principal (tick c) ≡ (ok value, c1)
        → (value ≡ none → until ≡ w.monotonic c1.ticks + config.negative_cache_ttl_seconds)
        → ((e : PrincipalEntitlements)
            → value ≡ some e
            → until ≡ w.monotonic c1.ticks + config.entitlement_cache_ttl_seconds)
        → Origin c value until (with_answer until value c1)

  -- what a call in the state `c` gives
  Given : Client → Result KcError (Option PrincipalEntitlements) × Client → Type 0
  Given c (ok value, c') = (until : ℕ) × Origin c value until c'
  Given c (err e, c') = Unit

  fetched-Given :
      (c : Client)
      → ((old : ℕ) (stale : Option PrincipalEntitlements)
          → lookup principal c.entitlement_cache ≡ some (old, stale)
          → old ≤ w.monotonic c.ticks)
      → Given c (fetch_and_store w config fuel principal (tick c))
  unfolding Given stored_after ttl_of
  fetched-Given c none_ahead =
      rw (fetch_and_store_lem (tick c))
        (go (fetch_principal_entitlements w config fuel principal (tick c)) refl)
    where
      go :
          (r : Result KcError (Option PrincipalEntitlements) × Client)
          → fetch_principal_entitlements w config fuel principal (tick c) ≡ r
          → Given c (stored_after r)
      go (ok none, c1) e = (
        w.monotonic c1.ticks + config.negative_cache_ttl_seconds,
        fetched c1 none_ahead e (λ h. refl) (λ found h. absurd (cc h)),
      )
      go (ok (some found), c1) e = (
        w.monotonic c1.ticks + config.entitlement_cache_ttl_seconds,
        fetched c1 none_ahead e (λ h. absurd (cc h)) (λ same h. refl),
      )
      go (err x, c1) e = tt

  get-Given : (c : Client) → Given c (get_principal_entitlements w config fuel principal c)
  unfolding get_principal_entitlements read_monotonic
  get-Given c = go (lookup principal c.entitlement_cache) refl
    where
      go :
          (o : Option (ℕ × Option PrincipalEntitlements))
          → lookup principal c.entitlement_cache ≡ o
          → Given c (cached_or_fetch w config fuel (w.monotonic c.ticks) principal o (tick c))
      go none e = unfold cached_or_fetch in fetched-Given c (λ old stale h. absurd (cc (e, h)))
      go (some (until, value)) e =
          unfold cached_or_fetch in
          elim (Bool-cases (ltb (w.monotonic c.ticks) until)) [
            | inl ahead ↦ unfold Given in rw ahead (until, reused e (ground (arith, ahead)))
            | inr past ↦ rw past (
                fetched-Given c
                  (λ old stale h. let same : until ≡ old = cc (e, h) in ground (arith, past, same)))
          ]

  Origin-lookup :
      (c c' : Client) (value : Option PrincipalEntitlements) (until : ℕ)
      → Origin c value until c'
      → lookup principal c'.entitlement_cache ≡ some (until, value)
  Origin-lookup c _ value until (reused e ahead) = e
  Origin-lookup c _ value until (fetched c1 none_ahead e short long) = rw (==_refl principal) refl

  -- An answer is the stored one exactly as long as its time is ahead; otherwise it is what Keycloak
  -- gives now, and it is stored until the configured duration after the clock's reading at the end of
  -- the fetch. Until the time with which the answer is then stored, every later call for the principal
  -- returns it with no request, whatever Keycloak would now reply, if the cache is as the call left it.
  pub get_principal_entitlements_reused :
      (c c' : Client) (value : Option PrincipalEntitlements)
      → get_principal_entitlements w config fuel principal c ≡ (ok value, c')
      → (until : ℕ) × Origin c value until c'
        × (lookup principal c'.entitlement_cache ≡ some (until, value))
        × ((later : Client)
            → later.entitlement_cache ≡ c'.entitlement_cache
            → w.monotonic later.ticks < until
            → get_principal_entitlements w config fuel principal later ≡ (ok value, tick later))
  unfolding Given
  get_principal_entitlements_reused c c' value e =
      let (until, origin) = subst (Given c) e (get-Given c) in
      let found = Origin-lookup c c' value until origin in
      (
        until,
        origin,
        found,
        λ later same early.
            fresh_answer later until value (ap (lookup principal) same ∙ found) early,
      )
