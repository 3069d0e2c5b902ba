-- ===== src/Sorting.antt =====
-- Python's `sorted`: insertion sort over an order given as an interface. Any stable sort returns
-- the same list.
pub mod Laws
use mathlib.Core.Bool.{◌||◌}
use k8s_stack_keycloak_api_k.Base.{
  Str, ◌≡◌, refl, Bool, true, List, [], ◌∷◌, ltb, if◌then◌else◌, arith, false,
}

pub record Ord {ℓ} (A : Type ℓ) : Type ℓ where
  pub le? : A → A → Bool
  pub total : (a b : A) → (le? a b || le? b a) ≡ true
  pub trans : (a b c : A) → le? a b ≡ true → le? b c ≡ true → le? a c ≡ true
  pub antisym : (a b : A) → le? a b ≡ true → le? b a ≡ true → a ≡ b

module _ {ℓ} {A : Type ℓ} (le? : A → A → Bool) where
  unfoldable pub insert_by : A → List A → List A
  insert_by a [] = a ∷ []
  insert_by a (x ∷ xs) = let rest = insert_by a xs in if le? a x then a ∷ x ∷ xs else x ∷ rest

  unfoldable pub sort_by : List A → List A
  unfolding insert_by
  sort_by [] = []
  sort_by (x ∷ xs) = insert_by x (sort_by xs)

unfoldable pub sort {ℓ} : {A : Type ℓ} ⦃o : Ord A⦄ → List A → List A
unfolding sort_by
sort ⦃o⦄ = sort_by o.le?

-- The order of Python's `str`: by code points, a proper prefix first.
unfoldable pub str_le? : Str → Str → Bool
str_le? [] ys = true
str_le? (x ∷ xs) [] = false
str_le? (x ∷ xs) (y ∷ ys) = if ltb x y then true else if ltb y x then false else str_le? xs ys

pub str_total : (xs ys : Str) → (str_le? xs ys || str_le? ys xs) ≡ true
unfolding str_le?
str_total [] ys = refl
str_total (x ∷ xs) [] = refl
str_total (x ∷ xs) (y ∷ ys) = ground (arith, str_total xs ys)

pub str_trans :
    (xs ys zs : Str) → str_le? xs ys ≡ true → str_le? ys zs ≡ true → str_le? xs zs ≡ true
unfolding str_le?
str_trans [] ys zs h k = refl
str_trans (x ∷ xs) [] zs h k = cc
str_trans (x ∷ xs) (y ∷ ys) [] h k = cc
str_trans (x ∷ xs) (y ∷ ys) (z ∷ zs) h k = ground (arith, str_trans xs ys zs)

pub str_antisym : (xs ys : Str) → str_le? xs ys ≡ true → str_le? ys xs ≡ true → xs ≡ ys
unfolding str_le?
str_antisym [] [] h k = refl
str_antisym [] (y ∷ ys) h k = cc
str_antisym (x ∷ xs) [] h k = cc
str_antisym (x ∷ xs) (y ∷ ys) h k = ground (arith, str_antisym xs ys)

instance abbrev pub str_ord : Ord Str
str_ord = record { le? = str_le?; total = str_total; trans = str_trans; antisym = str_antisym }
