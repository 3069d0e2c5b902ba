-- ===== src/Base/Results.antt =====
-- Code that may raise, as a result; and what a result ensures if nothing was raised.
use mathlib.Core.Path.{◌≡◌, refl, subst}
use mathlib.Core.Logic.{◌↔◌}
use mathlib.Core.Bool.{Bool, true, false}
use mathlib.Core.Option.{Option, none, some}

pub data Result {ℓ κ} (E : Type ℓ) (A : Type κ) : Type (ℓ ⊔ κ) where
  ok : A → Result E A
  err : E → Result E A

module _ {ℓ} {E : Type ℓ} where
  infixl 5 ◌>>=◌ ◌>>◌
  abbrev pub ◌>>=◌ {κ μ} : {A : Type κ} {B : Type μ} → Result E A → (A → Result E B) → Result E B
  ok x >>= next = next x
  err raised >>= next = err raised

  abbrev pub ◌>>◌ {κ} : {B : Type κ} → Result E (Unit {0}) → Result E B → Result E B
  first >> next = first >>= λ done. next

  -- `if not test: raise e`
  abbrev pub require : Bool → E → Result E (Unit {0})
  require true e = ok tt
  require false e = err e

  abbrev pub or_raise {κ} : {A : Type κ} → Option A → E → Result E A
  or_raise none e = err e
  or_raise (some a) e = ok a

  -- `P` holds of what the call returns, if it returns
  abbrev pub Ensures {κ μ} : {A : Type κ} → (A → Type μ) → Result E A → Type μ
  Ensures P (ok a) = P a
  Ensures P (err e) = Unit

  pub Ensures-bind {κ μ ν} :
      {A : Type κ} {B : Type μ} (Q : A → Type ν) (P : B → Type ν) (m : Result E A)
      (f : A → Result E B)
      → Ensures Q m
      → ((a : A) → Q a → Ensures P (f a))
      → Ensures P (m >>= f)
  Ensures-bind Q P (ok a) f h k = k a h
  Ensures-bind Q P (err e) f h k = tt

  -- where nothing is known of what the first step returns
  pub Ensures-then {κ μ ν} :
      {A : Type κ} {B : Type μ} (P : B → Type ν) (m : Result E A) (f : A → Result E B)
      → ((a : A) → m ≡ ok a → Ensures P (f a))
      → Ensures P (m >>= f)
  Ensures-then P (ok a) f k = k a refl
  Ensures-then P (err e) f k = tt

  pub Ensures-require {κ ν} :
      {B : Type κ} (P : B → Type ν) (t : Bool) (e : E) (m : Result E B)
      → (t ≡ true → Ensures P m)
      → Ensures P (require t e >> m)
  Ensures-require P true e m k = k refl
  Ensures-require P false e m k = tt

  pub require-ok_iff {κ} :
      {B : Type κ} (t : Bool) (e : E) (m : Result E B) {b : B}
      → ((require t e >> m) ≡ ok b) ↔ ((t ≡ true) × (m ≡ ok b))
  require-ok_iff true e m = (λ h. (refl, h), λ h. h.1)
  require-ok_iff false e m = (λ h. absurd (cc h), λ h. absurd (cc (h.0)))

  pub then-ok_iff {κ} :
      {B : Type κ} (m : Result E (Unit {0})) (n : Result E B) {b : B}
      → ((m >> n) ≡ ok b) ↔ ((m ≡ ok tt) × (n ≡ ok b))
  then-ok_iff (ok _) n = (λ h. (refl, h), λ h. h.1)
  then-ok_iff (err e) n = (λ h. absurd (cc h), λ h. absurd (cc (h.0)))

  pub bind-ok_iff {κ μ} :
      {A : Type κ} {B : Type μ} (m : Result E A) (f : A → Result E B) {b : B}
      → ((m >>= f) ≡ ok b) ↔ ((a : A) × (m ≡ ok a) × (f a ≡ ok b))
  bind-ok_iff (ok x) f = (λ h. (x, refl, h), λ (a, e, h). let same : x ≡ a = cc e in rw same h)
  bind-ok_iff (err e) f = (λ h. absurd (cc h), λ (a, q, h). absurd (cc q))

  pub or_raise-ok_iff {κ} :
      {A : Type κ} (o : Option A) (e : E) (a : A) → (or_raise o e ≡ ok a) ↔ (o ≡ some a)
  or_raise-ok_iff none e a = (λ h. absurd (cc h), λ h. absurd (cc h))
  or_raise-ok_iff (some x) e a = (λ h. cc h, λ h. cc h)

  pub require_tt_iff : (t : Bool) (e : E) → (require t e ≡ ok tt) ↔ (t ≡ true)
  require_tt_iff true e = (λ h. refl, λ h. refl)
  require_tt_iff false e = (λ h. absurd (cc h), λ h. absurd (cc h))

  pub Ensures-ok {κ ν} :
      {A : Type κ} (P : A → Type ν) (m : Result E A) {a : A} → Ensures P m → m ≡ ok a → P a
  Ensures-ok P m {a} h e = subst (Ensures P) e h

  pub Ensures-mono {κ ν} :
      {A : Type κ} {P Q : A → Type ν} (m : Result E A)
      → ((a : A) → P a → Q a)
      → Ensures P m
      → Ensures Q m
  Ensures-mono (ok a) f h = f a h
  Ensures-mono (err e) f h = tt

  pub >>=-ok {κ} : {A : Type κ} (m : Result E A) → (m >>= ok) ≡ m
  >>=-ok (ok a) = refl
  >>=-ok (err e) = refl
