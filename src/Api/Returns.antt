-- ===== src/Api/Returns.antt =====
-- What a handler ensures of its response and of the state after it, where it raises nothing.
use k8s_stack_keycloak_api_k.Base.{
  ◌≡◌, refl, subst, Bool, true, false, Option, none, some, Result, ok, err,
}
use k8s_stack_keycloak_api_k.Api.Http.{App, Failure, continue, or_raise, require}

abbrev pub Returns {ℓ κ} : {A : Type ℓ} → (A → App → Type κ) → Result Failure A × App → Type κ
Returns P (ok a, s) = P a s
Returns P (err e, s) = Unit

module _ {ℓ κ} {A : Type ℓ} {B : Type κ} where
  pub Returns-continue {μ} :
      (P : B → App → Type μ) (f : A → App → Result Failure B × App) (m : Result Failure A × App)
      → ((a : A) (s : App) → m ≡ (ok a, s) → Returns P (f a s))
      → Returns P (continue f m)
  Returns-continue P f (ok a, s) k = k a s refl
  Returns-continue P f (err e, s) k = tt

  pub Returns-or_raise {μ} :
      (P : B → App → Type μ) (o : Option A) (e : Failure) (s : App)
      (f : A → App → Result Failure B × App)
      → ((a : A) → o ≡ some a → Returns P (f a s))
      → Returns P (continue f (or_raise o e s))
  Returns-or_raise P none e s f k = tt
  Returns-or_raise P (some a) e s f k = k a refl

  pub Returns-lift {μ} :
      (P : B → App → Type μ) (r : Result Failure A) (s : App) (f : A → App → Result Failure B × App)
      → ((a : A) → r ≡ ok a → Returns P (f a s))
      → Returns P (continue f (r, s))
  Returns-lift P (ok a) s f k = k a refl
  Returns-lift P (err e) s f k = tt

module _ {ℓ κ} {A : Type ℓ} (P : A → App → Type κ) where
  pub Returns-require :
      (t : Bool) (e : Failure) (s : App) (m : App → Result Failure A × App)
      → (t ≡ true → Returns P (m s))
      → Returns P (continue (λ (u : Unit {0}). m) (require t e s))
  Returns-require true e s m k = k refl
  Returns-require false e s m k = tt

  pub Returns-ok :
      (m : Result Failure A × App) {a : A} {s : App} → Returns P m → m ≡ (ok a, s) → P a s
  Returns-ok m h e = subst (Returns P) e h
