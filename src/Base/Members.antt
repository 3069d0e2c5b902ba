-- ===== src/Base/Members.antt =====
-- Equality tests as an interface, membership, and sets as lists without duplicates.
use Prim.Native.Nat.{ℕ, suc, ◌≤◌}
use mathlib.Core.Path.{◌≡◌, refl, sym, ap, ap₂, ◌∙◌}
use mathlib.Core.Logic.{◌↔◌, inl, inr}
use mathlib.Core.Bool.{Bool, true, false, ◌&&◌}
use mathlib.Core.Option.{Option, none, some}
use mathlib.Core.List.{List, [], ◌∷◌, ◌++◌}
use native.Mathlib.Omega.{arith}
use k8s_stack_keycloak_api_k.Base.Tests.{
  nat_beq, nat_beq_iff, if◌then◌else◌, Bool-cases, Bool-eq_of_iff,
}
use k8s_stack_keycloak_api_k.Base.Lists.{All, filter, length}

-- a type whose values the program compares by `==`
pub record Comparable {κ} (K : Type κ) : Type κ where
  pub alike : K → K → Bool
  pub alike_iff : (x y : K) → (alike x y ≡ true) ↔ (x ≡ y)

instance abbrev pub nat_eq : Comparable ℕ
nat_eq = record { alike = nat_beq; alike_iff = nat_beq_iff }

infix 50 ◌==◌
abbrev pub ◌==◌ {κ} : {K : Type κ} ⦃c : Comparable K⦄ → (x y : K) → Bool
◌==◌ ⦃c⦄ x y = c.alike x y

module _ {ℓ} {A : Type ℓ} ⦃e : Comparable A⦄ where
  pub ==_iff : (a b : A) → ((a == b) ≡ true) ↔ (a ≡ b)
  ==_iff a b = e.alike_iff a b

  pub ==_refl : (a : A) → (a == a) ≡ true
  ==_refl a = (e.alike_iff a a).1 refl

  pub ==_comm : (a b : A) → (a == b) ≡ (b == a)
  ==_comm a b =
      Bool-eq_of_iff (a == b) (b == a) (λ h. (e.alike_iff b a).1 (sym ((e.alike_iff a b).0 h)))
        (λ h. (e.alike_iff a b).1 (sym ((e.alike_iff b a).0 h)))

  unfoldable pub list_beq : List A → List A → Bool
  list_beq [] [] = true
  list_beq [] (y ∷ ys) = false
  list_beq (x ∷ xs) [] = false
  list_beq (x ∷ xs) (y ∷ ys) = (x == y) && list_beq xs ys

  list_beq→eq : (xs ys : List A) → list_beq xs ys ≡ true → xs ≡ ys
  unfolding list_beq
  list_beq→eq [] [] h = refl
  list_beq→eq [] (y ∷ ys) h = cc
  list_beq→eq (x ∷ xs) [] h = cc
  list_beq→eq (x ∷ xs) (y ∷ ys) h =
      ap₂ ◌∷◌ ((e.alike_iff x y).0 (ground arith)) (list_beq→eq xs ys (ground arith))

  list_beq_refl : (xs : List A) → list_beq xs xs ≡ true
  unfolding list_beq
  list_beq_refl [] = refl
  list_beq_refl (x ∷ xs) = rw (==_refl x, list_beq_refl xs) refl

  pub list_beq_iff : (xs ys : List A) → (list_beq xs ys ≡ true) ↔ (xs ≡ ys)
  list_beq_iff xs ys = (list_beq→eq xs ys, λ p. rw p (list_beq_refl ys))

  -- `a in xs`
  abbrev pub contains : A → List A → Bool
  contains a [] = false
  contains a (x ∷ xs) = if x == a then true else contains a xs

  -- `set(xs)`: the elements once each; the order is not one that the program relies on.
  unfoldable pub dedup : List A → List A
  dedup [] = []
  dedup (x ∷ xs) = let rest = dedup xs in if contains x rest then rest else x ∷ rest

  -- `set(xs).issubset(ys)`
  unfoldable pub subset : List A → List A → Bool
  subset [] ys = true
  subset (x ∷ xs) ys = contains x ys && subset xs ys

  -- `len(set(xs)) == len(xs)`
  abbrev pub Distinct : List A → Type 0
  Distinct [] = Unit
  Distinct (x ∷ xs) = (contains x xs ≡ false) × Distinct xs

  abbrev pub SameMembers : List A → List A → Type ℓ
  SameMembers xs ys = (a : A) → contains a xs ≡ contains a ys

  pub contains-append :
      (a : A) (xs ys : List A)
      → contains a (xs ++ ys) ≡ (if contains a xs then true else contains a ys)
  contains-append a [] ys = refl
  contains-append a (x ∷ xs) ys = ground (arith, contains-append a xs ys)

  pub contains-dedup : (a : A) (xs : List A) → contains a (dedup xs) ≡ contains a xs
  unfolding dedup
  contains-dedup a [] = refl
  contains-dedup a (x ∷ xs) = elim (Bool-cases (contains x (dedup xs))) [
    | inl seen ↦ elim (Bool-cases (x == a)) [
      | inl same ↦ rw (seen, same) (rw (← (e.alike_iff x a).0 same) seen)
      | inr other ↦ rw (seen, other) (contains-dedup a xs)
    ]
    | inr new ↦ rw new (ground (arith, contains-dedup a xs))
  ]

  pub dedup-Distinct : (xs : List A) → Distinct (dedup xs)
  unfolding dedup
  dedup-Distinct [] = tt
  dedup-Distinct (x ∷ xs) = elim (Bool-cases (contains x (dedup xs))) [
    | inl seen ↦ rw seen (dedup-Distinct xs)
    | inr new ↦ rw new (new, dedup-Distinct xs)
  ]

  pub contains-filter :
      (p : A → Bool) (a : A) (xs : List A) → contains a (filter p xs) ≡ (p a && contains a xs)
  contains-filter p a [] = ground arith
  contains-filter p a (x ∷ xs) = elim (Bool-cases (x == a)) [
    | inl same ↦ ground (arith, contains-filter p a xs, (e.alike_iff x a).0 same)
    | inr other ↦ ground (arith, contains-filter p a xs)
  ]

  pub subset-contains :
      (xs ys : List A) (a : A) → subset xs ys ≡ true → contains a xs ≡ true → contains a ys ≡ true
  unfolding subset
  subset-contains [] ys a h k = cc
  subset-contains (x ∷ xs) ys a h k = elim (Bool-cases (x == a)) [
    | inl same ↦ rw (← (e.alike_iff x a).0 same) (ground arith)
    | inr other ↦ subset-contains xs ys a (ground arith) (ground arith)
  ]

  pub subset_of_contains :
      (xs ys : List A)
      → ((a : A) → contains a xs ≡ true → contains a ys ≡ true)
      → subset xs ys ≡ true
  unfolding subset
  subset_of_contains [] ys h = refl
  subset_of_contains (x ∷ xs) ys h =
      rw (h x (rw (==_refl x) refl)) (subset_of_contains xs ys (λ a k. h a (rw k (ground arith))))

  -- `set(xs) == set(ys)`
  unfoldable pub same_set : List A → List A → Bool
  unfolding subset
  same_set xs ys = subset xs ys && subset ys xs

  pub same_set_iff : (xs ys : List A) → (same_set xs ys ≡ true) ↔ SameMembers xs ys
  unfolding same_set
  same_set_iff xs ys = (
    λ h a.
        Bool-eq_of_iff (contains a xs) (contains a ys) (subset-contains xs ys a (ground arith))
          (subset-contains ys xs a (ground arith)),
    λ h. ground (
      arith,
      subset_of_contains xs ys (λ a k. sym (h a) ∙ k),
      subset_of_contains ys xs (λ a k. h a ∙ k),
    ),
  )

  pub All-contains {κ} :
      (P : A → Type κ) (xs : List A) (a : A) → All P xs → contains a xs ≡ true → P a
  All-contains P [] a h k = absurd (cc k)
  All-contains P (x ∷ xs) a h k = elim (Bool-cases (x == a)) [
    | inl same ↦ rw (← (e.alike_iff x a).0 same) h.0
    | inr other ↦ All-contains P xs a h.1 (rw other at k)
  ]

  pub All-of_contains {κ} :
      (P : A → Type κ) (xs : List A) → ((a : A) → contains a xs ≡ true → P a) → All P xs
  All-of_contains P [] h = tt
  All-of_contains P (x ∷ xs) h =
      (h x (rw (==_refl x) refl), All-of_contains P xs (λ a k. h a (ground arith)))

-- Text is compared by its code points.
instance abbrev pub str_eq : Comparable (List ℕ)
str_eq = record { alike = list_beq; alike_iff = list_beq_iff }

instance abbrev pub texts_eq : Comparable (List (List ℕ))
texts_eq = record { alike = list_beq; alike_iff = list_beq_iff }

abbrev pub bool_beq : Bool → Bool → Bool
bool_beq true b = b
bool_beq false true = false
bool_beq false false = true

pub bool_beq_iff : (a b : Bool) → (bool_beq a b ≡ true) ↔ (a ≡ b)
bool_beq_iff a b = ground arith

instance abbrev pub bool_eq : Comparable Bool
bool_eq = record { alike = bool_beq; alike_iff = bool_beq_iff }

-- Pairs are compared by their parts.
module _ {ℓ} {A B : Type ℓ} ⦃c : Comparable A⦄ ⦃d : Comparable B⦄ where
  abbrev pub pair_beq : A × B → A × B → Bool
  pair_beq (a, b) (x, y) = (a == x) && (b == y)

  pub pair_beq_iff : (p q : A × B) → (pair_beq p q ≡ true) ↔ (p ≡ q)
  pair_beq_iff (a, b) (x, y) = (
    λ h.
        ap₂ (λ u v. (u, v)) ((c.alike_iff a x).0 (ground arith))
          ((d.alike_iff b y).0 (ground arith)),
    λ h.
        rw
          (
            (c.alike_iff a x).1 (ap (λ (p : A × B). p.0) h),
            (d.alike_iff b y).1 (ap (λ (p : A × B). p.1) h),
          )
          refl,
  )

instance abbrev pub pair_eq {ℓ} :
    {A B : Type ℓ} → ⦃c : Comparable A⦄ → ⦃d : Comparable B⦄ → Comparable (A × B)
pair_eq = record { alike = pair_beq; alike_iff = pair_beq_iff }

module _ {ℓ} {A : Type ℓ} ⦃e : Comparable A⦄ where
  length-dedup-le : (xs : List A) → length (dedup xs) ≤ length xs
  unfolding dedup
  length-dedup-le [] = omega arith
  length-dedup-le (x ∷ xs) = ground (arith, length-dedup-le xs)

  pub Distinct-of_length : (xs : List A) → length (dedup xs) ≡ length xs → Distinct xs
  unfolding dedup
  Distinct-of_length [] h = tt
  Distinct-of_length (x ∷ xs) h = elim (Bool-cases (contains x (dedup xs))) [
    | inl seen ↦
        let bad : length (dedup xs) ≡ suc (length xs) = rw seen at h in
        absurd (omega (arith, bad, length-dedup-le xs))
    | inr new ↦ (sym (contains-dedup x xs) ∙ new, Distinct-of_length xs (ground arith))
  ]

  pub dedup_of_Distinct : (xs : List A) → Distinct xs → dedup xs ≡ xs
  unfolding dedup
  dedup_of_Distinct [] h = refl
  dedup_of_Distinct (x ∷ xs) h = rw (dedup_of_Distinct xs h.1, h.0) refl

-- A dict as an association list, the latest entry first: `d.get(key)`.
module _ {ℓ κ} {K : Type ℓ} {V : Type κ} ⦃e : Comparable K⦄ where
  abbrev pub lookup : K → List (K × V) → Option V
  lookup key [] = none
  lookup key ((k, v) ∷ m) = if k == key then some v else lookup key m
