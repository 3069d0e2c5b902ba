-- ===== src/Service/Lifespan/Shutdown.antt =====
-- What holds in every state that the process reaches.
use k8s_stack_keycloak_api_k.Base.{◌≡◌, refl, sym, ap, subst, true, false, none, some}
use k8s_stack_keycloak_api_k.Keycloak.Exec.{World}
use k8s_stack_keycloak_api_k.Keycloak.Requests.{fetch_jwks}
use k8s_stack_keycloak_api_k.Jwks.{SigningKeys, Cache}
use k8s_stack_keycloak_api_k.Jwks.Document.{Usable}
use k8s_stack_keycloak_api_k.Jwks.Thread.{
  Activity, unstarted, looping, fetching, fetched, waiting, ended, is_joined, ServesUsable,
  finish-ServesUsable, run_step-ServesUsable,
}
use k8s_stack_keycloak_api_k.Service.Lifespan.{
  Phase, starting, serving, stopping, joining, disposing, closing, finished, Process, initial,
  is_running, advance, Touches, calls, discards, refreshes, Step, Steps,
}

-- what is done at which phase
abbrev pub IsAt : Phase → Process → Type 0
IsAt starting p =
    (p.thread ≡ unstarted)
    × (p.stop ≡ false)
    × (p.engine_disposed ≡ false)
    × (p.client_closed ≡ false)
IsAt serving p = (p.stop ≡ false) × (p.engine_disposed ≡ false) × (p.client_closed ≡ false)
IsAt stopping p = (p.stop ≡ false) × (p.engine_disposed ≡ false) × (p.client_closed ≡ false)
IsAt joining p = (p.stop ≡ true) × (p.engine_disposed ≡ false) × (p.client_closed ≡ false)
IsAt disposing p =
    (is_joined p.thread ≡ true)
    × (p.stop ≡ true)
    × (p.engine_disposed ≡ false)
    × (p.client_closed ≡ false)
IsAt closing p =
    (is_joined p.thread ≡ true)
    × (p.stop ≡ true)
    × (p.engine_disposed ≡ true)
    × (p.client_closed ≡ false)
IsAt finished p =
    (is_joined p.thread ≡ true)
    × (p.stop ≡ true)
    × (p.engine_disposed ≡ true)
    × (p.client_closed ≡ true)

abbrev pub Invariant : Process → Type 0
Invariant p = IsAt p.phase p × ServesUsable p.cache

Touches-ServesUsable : (w : World) (c d : Cache) → Touches w c d → ServesUsable c → ServesUsable d
Touches-ServesUsable w c _ (calls client) h keys e = h keys e
Touches-ServesUsable w c _ (discards client) h keys e = absurd (cc e)
Touches-ServesUsable w c _ (refreshes asked client) h keys e =
    finish-ServesUsable (fetch_jwks w asked).0 (record c { client = client }) keys e

joined_not_running : (a : Activity) → is_joined a ≡ true → is_running a ≡ false
joined_not_running unstarted h = refl
joined_not_running looping h = absurd (cc h)
joined_not_running fetching h = absurd (cc h)
joined_not_running (fetched r) h = absurd (cc h)
joined_not_running waiting h = absurd (cc h)
joined_not_running ended h = refl

joined_or_running : (a : Activity) → is_joined a ≡ true → is_running a ≡ true → ⊥
joined_or_running a h k = cc (joined_not_running a h, k)

-- the client is closed at the end only
closed_late :
    (p : Process) (f : Phase)
    → IsAt f p
    → p.client_closed ≡ true
    → (is_running p.thread ≡ false) × (p.engine_disposed ≡ true)
closed_late p starting h closed = absurd (cc (h.3, closed))
closed_late p serving h closed = absurd (cc (h.2, closed))
closed_late p stopping h closed = absurd (cc (h.2, closed))
closed_late p joining h closed = absurd (cc (h.2, closed))
closed_late p disposing h closed = absurd (cc (h.3, closed))
closed_late p closing h closed = absurd (cc (h.3, closed))
closed_late p finished h closed = (joined_not_running p.thread h.0, h.2)

module _ (w : World) where
  -- a step of the thread is possible only before it is joined
  advance-IsAt :
      (p : Process) → is_running p.thread ≡ true → IsAt p.phase p → IsAt p.phase (advance w p)
  unfolding advance
  advance-IsAt p running h = go p.phase h
    where
      go : (f : Phase) → IsAt f p → IsAt f (advance w p)
      go starting (t, s, e, d) = absurd (cc (running, ap is_running t))
      go serving h = h
      go stopping h = h
      go joining h = h
      go disposing (j, s, e, d) = absurd (joined_or_running p.thread j running)
      go closing (j, s, e, d) = absurd (joined_or_running p.thread j running)
      go finished (j, s, e, d) = absurd (joined_or_running p.thread j running)

  Step-Invariant : (p q : Process) → Step w p q → Invariant p → Invariant q
  unfolding advance
  Step-Invariant p _ (Step.starts at) (h, u) =
      let (t, s, e, d) = subst (λ f. IsAt f p) at h in ((s, e, d), u)
  Step-Invariant p _ (Step.requests after at touched) (h, u) = (
    subst (λ f. IsAt f (record p { cache = after })) (sym at) (subst (λ f. IsAt f p) at h),
    Touches-ServesUsable w p.cache after touched u,
  )
  Step-Invariant p _ (Step.leaves at) (h, u) = (subst (λ f. IsAt f p) at h, u)
  Step-Invariant p _ (Step.stops at) (h, u) =
      let (s, e, d) = subst (λ f. IsAt f p) at h in ((refl, e, d), u)
  Step-Invariant p _ (Step.joins at joined) (h, u) =
      let (s, e, d) = subst (λ f. IsAt f p) at h in ((joined, s, e, d), u)
  Step-Invariant p _ (Step.disposes at) (h, u) =
      let (j, s, e, d) = subst (λ f. IsAt f p) at h in ((j, s, refl, d), u)
  Step-Invariant p _ (Step.closes at) (h, u) =
      let (j, s, e, d) = subst (λ f. IsAt f p) at h in ((j, s, e, refl), u)
  Step-Invariant p _ (Step.advances running) (h, u) =
      (advance-IsAt p running h, run_step-ServesUsable w p.stop p.thread p.cache u)

  pub Steps-Invariant : (p q : Process) → Steps w p q → Invariant p → Invariant q
  Steps-Invariant p _ Steps.done h = h
  Steps-Invariant p q (Steps.next {q = r} run step) h =
      Step-Invariant r q step (Steps-Invariant p r run h)

  module _ (c : Cache) (no_keys : c.keys ≡ none) where
    pub reached : (p : Process) → Steps w (initial c) p → Invariant p
    reached p run =
        Steps-Invariant (initial c) p run
          ((refl, refl, refl, refl), λ keys e. absurd (cc (no_keys, e)))

    -- From a cache without keys, whatever the order of the steps: once the client is closed the thread
    -- has ended and the engine is disposed of, and all keys that are ever served are usable, whether
    -- the thread or a request fetched them.
    pub client_closed_last :
        (p : Process)
        → Steps w (initial c) p
        → (p.client_closed ≡ true → (is_running p.thread ≡ false) × (p.engine_disposed ≡ true))
          × ((keys : SigningKeys) → p.cache.keys ≡ some keys → Usable keys)
    client_closed_last p run =
        let (at, usable) = reached p run in (closed_late p p.phase at, usable)
