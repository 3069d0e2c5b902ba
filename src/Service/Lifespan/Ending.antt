-- ===== src/Service/Lifespan/Ending.antt =====
-- A shutdown comes to its end.
use k8s_stack_keycloak_api_k.Base.{
  ℕ, suc, ◌+◌, ◌≤◌, ◌<◌, ◌≡◌, ◌⊎◌, inl, inr, refl, sym, subst, true, false, none, Bool-cases, arith,
}
use k8s_stack_keycloak_api_k.Keycloak.Exec.{World}
use k8s_stack_keycloak_api_k.Jwks.{Cache}
use k8s_stack_keycloak_api_k.Jwks.Thread.{
  Activity, unstarted, looping, fetching, fetched, waiting, ended, is_joined, run_step,
}
use k8s_stack_keycloak_api_k.Service.Lifespan.{
  Phase, starting, serving, stopping, joining, disposing, closing, finished, Process, initial,
  is_running, advance, Step, Steps,
}
use k8s_stack_keycloak_api_k.Service.Lifespan.Shutdown.{IsAt, Invariant, Steps-Invariant, reached}

running_or_joined : (a : Activity) → is_joined a ≡ false → is_running a ≡ true
running_or_joined unstarted h = absurd (cc h)
running_or_joined looping h = refl
running_or_joined fetching h = refl
running_or_joined (fetched r) h = refl
running_or_joined waiting h = refl
running_or_joined ended h = absurd (cc h)

module _ (w : World) where
  -- what the phase and the thread leave to be done after `stop`
  abbrev left_of : Phase → ℕ
  left_of starting = 0
  left_of serving = 0
  left_of stopping = 0
  left_of joining = 3
  left_of disposing = 2
  left_of closing = 1
  left_of finished = 0

  abbrev rounds_of : Activity → ℕ
  rounds_of unstarted = 0
  rounds_of looping = 1
  rounds_of fetching = 4
  rounds_of (fetched r) = 3
  rounds_of waiting = 2
  rounds_of ended = 0

  abbrev work : Process → ℕ
  work p = left_of p.phase + rounds_of p.thread

  -- the phases after `stop` was called
  abbrev IsLate : Phase → Type 0
  IsLate starting = ⊥
  IsLate serving = ⊥
  IsLate stopping = ⊥
  IsLate joining = Unit
  IsLate disposing = Unit
  IsLate closing = Unit
  IsLate finished = Unit

  stopped : (p : Process) → IsLate p.phase → IsAt p.phase p → p.stop ≡ true
  stopped p late h = go p.phase late h
    where
      go : (f : Phase) → IsLate f → IsAt f p → p.stop ≡ true
      go starting l h = absurd l
      go serving l h = absurd l
      go stopping l h = absurd l
      go joining l h = h.0
      go disposing l h = h.1
      go closing l h = h.1
      go finished l h = h.1

  run_step_rounds :
      (a : Activity) (c : Cache)
      → is_running a ≡ true
      → rounds_of (run_step w true a c).0 < rounds_of a
  unfolding run_step
  run_step_rounds unstarted c h = absurd (cc h)
  run_step_rounds looping c h = omega arith
  run_step_rounds fetching c h = omega arith
  run_step_rounds (fetched r) c h = omega arith
  run_step_rounds waiting c h = omega arith
  run_step_rounds ended c h = absurd (cc h)

  -- After `stop`, a step of any kind leaves less to be done, and there is one until the end.
  Step-works :
      (p q : Process)
      → Invariant p
      → IsLate p.phase
      → Step w p q
      → IsLate q.phase × (work q < work p)
  unfolding advance
  Step-works p _ h late (Step.starts at) = absurd (subst IsLate at late)
  Step-works p _ h late (Step.requests after at touched) = absurd (subst IsLate at late)
  Step-works p _ h late (Step.leaves at) = absurd (subst IsLate at late)
  Step-works p _ h late (Step.stops at) = absurd (subst IsLate at late)
  Step-works p _ h late (Step.joins at joined) = (tt, rw at (omega arith))
  Step-works p _ h late (Step.disposes at) = (tt, rw at (omega arith))
  Step-works p _ h late (Step.closes at) = (tt, rw at (omega arith))
  Step-works p _ h late (Step.advances running) = (
    late,
    (let e : p.stop ≡ true = stopped p late h.0 in
        rw e (omega (arith, run_step_rounds p.thread p.cache running))),
  )

  can_go_on :
      (p : Process)
      → IsLate p.phase
      → Invariant p
      → (p.phase ≡ finished) ⊎ ((q : Process) × Step w p q)
  can_go_on p late (h, u) = go p.phase refl late h
    where
      go :
          (f : Phase)
          → p.phase ≡ f
          → IsLate f
          → IsAt f p
          → (p.phase ≡ finished) ⊎ ((q : Process) × Step w p q)
      go starting e l h = absurd l
      go serving e l h = absurd l
      go stopping e l h = absurd l
      go joining e l h = elim (Bool-cases (is_joined p.thread)) [
        | inl joined ↦ inr (_, Step.joins e joined)
        | inr not_joined ↦ inr (_, Step.advances (running_or_joined p.thread not_joined))
      ]
      go disposing e l h = inr (_, Step.disposes e)
      go closing e l h = inr (_, Step.closes e)
      go finished e l h = inl e

  abbrev pub number_of : {p q : Process} → Steps w p q → ℕ
  number_of Steps.done = 0
  number_of (Steps.next run step) = suc (number_of run)

  Steps_work :
      (p q : Process) (run : Steps w p q)
      → Invariant p
      → IsLate p.phase
      → IsLate q.phase × (number_of run + work q ≤ work p)
  Steps_work p _ Steps.done h late = (late, omega arith)
  Steps_work p q (Steps.next {q = r} run step) h late =
      let (later, before) = Steps_work p r run h late in
      let (last, less) = Step-works r q (Steps-Invariant w p r run h) later step in
      (last, omega (arith, before, less))

  work_bounded : (p : Process) → p.phase ≡ joining → work p ≤ 7
  work_bounded p at = rw at (go p.thread)
    where
      go : (a : Activity) → left_of joining + rounds_of a ≤ 7
      go unstarted = omega arith
      go looping = omega arith
      go fetching = omega arith
      go (fetched r) = omega arith
      go waiting = omega arith
      go ended = omega arith

  module _ (c : Cache) (no_keys : c.keys ≡ none) where
    -- From a cache without keys: after `stop` is called in a state that is reached, no more than seven
    -- steps are possible, and after any of them the process has finished or a step is possible.
    pub shutdown_ends :
        (p q : Process)
        → Steps w (initial c) p
        → p.phase ≡ joining
        → (run : Steps w p q)
        → (number_of run ≤ 7) × ((q.phase ≡ finished) ⊎ ((r : Process) × Step w q r))
    shutdown_ends p q before at run =
        let late = subst IsLate (sym at) tt in
        let (last, few) = Steps_work p q run (reached w c no_keys p before) late in
        (
          omega (arith, few, work_bounded p at),
          can_go_on q last (Steps-Invariant w p q run (reached w c no_keys p before)),
        )
