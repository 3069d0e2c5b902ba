-- ===== src/Base/Dicts.antt =====
-- Members of lists as proofs, and what a lookup in a dict finds.
use mathlib.Core.Path.{◌≡◌, refl, sym, subst}
use mathlib.Core.Logic.{◌≢◌, ◌↔◌, inl, inr}
use mathlib.Core.Bool.{Bool, true, not}
use mathlib.Core.Option.{none, some}
use mathlib.Core.List.{List, [], ◌∷◌, ◌++◌, Memᴰ}
use native.Mathlib.Omega.{arith}
use k8s_stack_keycloak_api_k.Base.Tests.{Bool-cases}
use k8s_stack_keycloak_api_k.Base.Lists.{All, All-mono, filter, all, any, is_empty}
use k8s_stack_keycloak_api_k.Base.Members.{Comparable, ◌==◌, lookup}

pub All-Memᴰ {ℓ} : {A : Type ℓ} (xs : List A) → All (λ x. Memᴰ x xs) xs
All-Memᴰ [] = tt
All-Memᴰ (x ∷ xs) = (Memᴰ.head refl, All-mono (λ y h. Memᴰ.tail h) xs (All-Memᴰ xs))

module _ {ℓ κ} {K : Type ℓ} {V : Type κ} ⦃e : Comparable K⦄ where
  pub lookup-All :
      (P : K × V → Type 0) (key : K) (m : List (K × V)) (v : V)
      → All P m
      → lookup key m ≡ some v
      → P (key, v)
  lookup-All P key [] v h found = absurd (cc found)
  lookup-All P key ((k, x) ∷ m) v h found = elim (Bool-cases (k == key)) [
    | inl same ↦
        let q : some x ≡ some v = rw same at found in
        rw (← (e.alike_iff k key).0 same) (subst (λ y. P (k, y)) (cc q) h.0)
    | inr other ↦ lookup-All P key m v h.1 (rw other at found)
  ]

  pub lookup-append_none :
      (key : K) (m n : List (K × V))
      → lookup key (m ++ n) ≡ none
      → (lookup key m ≡ none) × (lookup key n ≡ none)
  lookup-append_none key [] n h = (refl, h)
  lookup-append_none key ((k, x) ∷ m) n h = elim (Bool-cases (k == key)) [
    | inl same ↦ absurd (cc (rw same at h))
    | inr other ↦ rw other (lookup-append_none key m n (rw other at h))
  ]

pub Memᴰ-filter {ℓ} :
    {A : Type ℓ} (p : A → Bool) (a : A) (xs : List A)
    → Memᴰ a xs
    → p a ≡ true
    → Memᴰ a (filter p xs)
Memᴰ-filter p a [] there kept = elim there [ ]
Memᴰ-filter p a (x ∷ xs) (Memᴰ.head same) kept =
    let k : p x ≡ true = rw (← same) kept in rw k (Memᴰ.head same)
Memᴰ-filter p a (x ∷ xs) (Memᴰ.tail there) kept = elim (Bool-cases (p x)) [
  | inl first ↦ rw first (Memᴰ.tail (Memᴰ-filter p a xs there kept))
  | inr dropped ↦ rw dropped (Memᴰ-filter p a xs there kept)
]

pub All-Memᴰ_at {ℓ κ} :
    {A : Type ℓ} (P : A → Type κ) (a : A) (xs : List A) → All P xs → Memᴰ a xs → P a
All-Memᴰ_at P a [] h there = elim there [ ]
All-Memᴰ_at P a (x ∷ xs) h (Memᴰ.head same) = subst P (sym same) h.0
All-Memᴰ_at P a (x ∷ xs) h (Memᴰ.tail there) = All-Memᴰ_at P a xs h.1 there

module _ {ℓ} {A : Type ℓ} ⦃e : Comparable A⦄ where
  pub any_equal_iff : (a : A) (xs : List A) → (any (λ x. x == a) xs ≡ true) ↔ Memᴰ a xs
  any_equal_iff a xs = (find_it xs, there xs)
    where
      find_it : (ys : List A) → any (λ x. x == a) ys ≡ true → Memᴰ a ys
      find_it [] h = absurd (cc h)
      find_it (y ∷ ys) h = elim (Bool-cases (y == a)) [
        | inl same ↦ Memᴰ.head (sym ((e.alike_iff y a).0 same))
        | inr other ↦ Memᴰ.tail (find_it ys (rw other at h))
      ]

      there : (ys : List A) → Memᴰ a ys → any (λ x. x == a) ys ≡ true
      there [] h = elim h [ ]
      there (y ∷ ys) (Memᴰ.head same) = rw ((e.alike_iff y a).1 (sym same)) refl
      there (y ∷ ys) (Memᴰ.tail h) = ground (arith, there ys h)

pub all_nonempty_iff {ℓ} :
    {A : Type ℓ} (xs : List (List A))
    → (all (λ x. not (is_empty x)) xs ≡ true) ↔ All (λ x. x ≢ []) xs
all_nonempty_iff [] = (λ h. tt, λ h. refl)
all_nonempty_iff ([] ∷ xs) = (λ h. absurd (cc h), λ h. absurd (h.0 refl))
all_nonempty_iff ((a ∷ x) ∷ xs) =
    (λ h. (λ e. cc e, (all_nonempty_iff xs).0 h), λ h. (all_nonempty_iff xs).1 h.1)
