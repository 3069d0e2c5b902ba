-- ===== src/Sorting/Laws.antt =====
-- A sorted list has the members of its source, and the sorted list of a set is unique.
use mathlib.Core.Bool.{◌||◌}
use mathlib.Core.List.{Perm}
use mathlib.Core.List.Perm
use k8s_stack_keycloak_api_k.Base.{
  ℕ, zero, any, take, All-take, Comparable, ◌==◌, ==_comm, ==_refl, ◌≡◌, refl, sym, ◌∙◌, ap, ap₂,
  suc, Bool, true, false, List, [], ◌∷◌, inl, inr, if◌then◌else◌, arith, Bool-cases, length, All,
  All-contains, contains, Distinct, SameMembers, dedup, contains-dedup, dedup-Distinct,
}
use k8s_stack_keycloak_api_k.Sorting.{Ord, insert_by, sort_by, sort}

module _ {ℓ} {A : Type ℓ} (le? : A → A → Bool) where
  abbrev pub IsSortedBy : List A → Type 0
  IsSortedBy [] = Unit
  IsSortedBy (x ∷ xs) = All (λ y. le? x y ≡ true) xs × IsSortedBy xs

  pub length-insert_by : (a : A) (xs : List A) → length (insert_by le? a xs) ≡ suc (length xs)
  unfolding insert_by
  length-insert_by a [] = refl
  length-insert_by a (x ∷ xs) = ground (arith, length-insert_by a xs)

  pub length-sort_by : (xs : List A) → length (sort_by le? xs) ≡ length xs
  unfolding sort_by
  length-sort_by [] = refl
  length-sort_by (x ∷ xs) = length-insert_by x (sort_by le? xs) ∙ ap suc (length-sort_by xs)

  pub All-insert_by {κ} :
      (P : A → Type κ) (a : A) (xs : List A) → P a → All P xs → All P (insert_by le? a xs)
  unfolding insert_by
  All-insert_by P a [] p h = (p, tt)
  All-insert_by P a (x ∷ xs) p h = elim (Bool-cases (le? a x)) [
    | inl below ↦ rw below (p, h)
    | inr above ↦ rw above (h.0, All-insert_by P a xs p h.1)
  ]

  pub All-sort_by {κ} : (P : A → Type κ) (xs : List A) → All P xs → All P (sort_by le? xs)
  unfolding sort_by
  All-sort_by P [] h = tt
  All-sort_by P (x ∷ xs) h = All-insert_by P x (sort_by le? xs) h.0 (All-sort_by P xs h.1)

  insert_by-Perm : (a : A) (xs : List A) → Perm (insert_by le? a xs) (a ∷ xs)
  unfolding insert_by
  insert_by-Perm a [] = Perm.refl (a ∷ [])
  insert_by-Perm a (x ∷ xs) = elim (Bool-cases (le? a x)) [
    | inl below ↦ rw below (Perm.refl (a ∷ x ∷ xs))
    | inr above ↦ rw above (Perm.trans (Perm.cons x (insert_by-Perm a xs)) (Perm.swap a x xs))
  ]

  pub sort_by-Perm : (xs : List A) → Perm (sort_by le? xs) xs
  unfolding sort_by
  sort_by-Perm [] = Perm.refl []
  sort_by-Perm (x ∷ xs) =
      Perm.trans (insert_by-Perm x (sort_by le? xs)) (Perm.cons x (sort_by-Perm xs))

  module _ (total : (a b : A) → (le? a b || le? b a) ≡ true)
      (trans : (a b c : A) → le? a b ≡ true → le? b c ≡ true → le? a c ≡ true) where
    All-le_trans :
        (a x : A) (xs : List A)
        → le? a x ≡ true
        → All (λ y. le? x y ≡ true) xs
        → All (λ y. le? a y ≡ true) xs
    All-le_trans a x [] h k = tt
    All-le_trans a x (y ∷ ys) h k = (trans a x y h k.0, All-le_trans a x ys h k.1)

    insert_by-IsSortedBy : (a : A) (xs : List A) → IsSortedBy xs → IsSortedBy (insert_by le? a xs)
    unfolding insert_by
    insert_by-IsSortedBy a [] h = (tt, tt)
    insert_by-IsSortedBy a (x ∷ xs) h = elim (Bool-cases (le? a x)) [
      | inl below ↦ rw below ((below, All-le_trans a x xs below h.0), h)
      | inr above ↦ rw above (
        All-insert_by (λ y. le? x y ≡ true) a xs (ground (arith, total a x)) h.0,
        insert_by-IsSortedBy a xs h.1,
      )
    ]

    pub sort_by-IsSortedBy : (xs : List A) → IsSortedBy (sort_by le? xs)
    unfolding sort_by
    sort_by-IsSortedBy [] = tt
    sort_by-IsSortedBy (x ∷ xs) = insert_by-IsSortedBy x (sort_by le? xs) (sort_by-IsSortedBy xs)

module _ {ℓ} {A : Type ℓ} ⦃e : Comparable A⦄ (le? : A → A → Bool) where
  pub contains-insert_by :
      (c a : A) (xs : List A)
      → contains c (insert_by le? a xs) ≡ (if a == c then true else contains c xs)
  unfolding insert_by
  contains-insert_by c a [] = refl
  contains-insert_by c a (x ∷ xs) = ground (arith, contains-insert_by c a xs)

  pub contains-sort_by : (c : A) (xs : List A) → contains c (sort_by le? xs) ≡ contains c xs
  unfolding sort_by
  contains-sort_by c [] = refl
  contains-sort_by c (x ∷ xs) =
      ground (arith, contains-insert_by c x (sort_by le? xs), contains-sort_by c xs)

  insert_by-Distinct :
      (a : A) (xs : List A) → contains a xs ≡ false → Distinct xs → Distinct (insert_by le? a xs)
  unfolding insert_by
  insert_by-Distinct a [] h d = (refl, tt)
  insert_by-Distinct a (x ∷ xs) h d = elim (Bool-cases (le? a x)) [
    | inl below ↦ rw below (h, d)
    | inr above ↦ rw above (
      ground (arith, contains-insert_by x a xs, ==_comm a x),
      insert_by-Distinct a xs (ground arith) d.1,
    )
  ]

  pub sort_by-Distinct : (xs : List A) → Distinct xs → Distinct (sort_by le? xs)
  unfolding sort_by
  sort_by-Distinct [] d = tt
  sort_by-Distinct (x ∷ xs) d =
      insert_by-Distinct x (sort_by le? xs) (contains-sort_by x xs ∙ d.0) (sort_by-Distinct xs d.1)

module _ {ℓ} {A : Type ℓ} ⦃e : Comparable A⦄ ⦃o : Ord A⦄ where
  -- the head of a sorted list is below every member
  head_least :
      (x a : A) (xs : List A)
      → IsSortedBy o.le? (x ∷ xs)
      → contains a (x ∷ xs) ≡ true
      → (x == a) ≡ false
      → o.le? x a ≡ true
  head_least x a xs s h other = All-contains (λ y. o.le? x y ≡ true) xs a s.0 (rw other at h)

  heads_agree :
      (x y : A) (xs ys : List A)
      → IsSortedBy o.le? (x ∷ xs)
      → IsSortedBy o.le? (y ∷ ys)
      → SameMembers (x ∷ xs) (y ∷ ys)
      → x ≡ y
  heads_agree x y xs ys s t same = elim (Bool-cases (x == y)) [
    | inl agree ↦ (e.alike_iff x y).0 agree
    | inr other ↦
        o.antisym x y (head_least x y xs s (same y ∙ rw (==_refl y) refl) other)
          (head_least y x ys t (sym (same x) ∙ rw (==_refl x) refl) (==_comm y x ∙ other))
  ]

  tails_agree :
      (x a : A) (xs ys : List A)
      → contains x xs ≡ false
      → contains x ys ≡ false
      → SameMembers (x ∷ xs) (x ∷ ys)
      → contains a xs ≡ contains a ys
  tails_agree x a xs ys dx dy same = elim (Bool-cases (x == a)) [
    | inl here ↦ rw (← (e.alike_iff x a).0 here) (dx ∙ sym dy)
    | inr other ↦ rw other at (same a)
  ]

  -- Two sorted lists without duplicates that have the same members are the same list.
  pub sorted_unique :
      (xs ys : List A)
      → IsSortedBy o.le? xs
      → IsSortedBy o.le? ys
      → Distinct xs
      → Distinct ys
      → SameMembers xs ys
      → xs ≡ ys
  sorted_unique [] [] s t d c same = refl
  sorted_unique [] (y ∷ ys) s t d c same = cc (same y, ==_refl y)
  sorted_unique (x ∷ xs) [] s t d c same = cc (same x, ==_refl x)
  sorted_unique (x ∷ xs) (y ∷ ys) s t d c same =
      let p : x ≡ y = heads_agree x y xs ys s t same in
      ap₂ ◌∷◌ p (
        sorted_unique xs ys s.1 t.1 d.1 c.1
          (λ a. tails_agree x a xs ys d.0 (rw p c.0) (λ b. same b ∙ rw p refl)))

  -- `sorted(set(xs))` depends on the members of `xs` alone.
  pub sort-dedup_canonical :
      (xs ys : List A) → SameMembers xs ys → sort (dedup xs) ≡ sort (dedup ys)
  unfolding sort
  sort-dedup_canonical xs ys same =
      sorted_unique (sort_by o.le? (dedup xs)) (sort_by o.le? (dedup ys))
        (sort_by-IsSortedBy o.le? o.total o.trans (dedup xs))
        (sort_by-IsSortedBy o.le? o.total o.trans (dedup ys))
        (sort_by-Distinct o.le? (dedup xs) (dedup-Distinct xs))
        (sort_by-Distinct o.le? (dedup ys) (dedup-Distinct ys))
        (λ a.
          contains-sort_by o.le? a (dedup xs)
          ∙ contains-dedup a xs
          ∙ same a
          ∙ sym (contains-dedup a ys)
          ∙ sym (contains-sort_by o.le? a (dedup ys)))

  pub contains-sort : (a : A) (xs : List A) → contains a (sort xs) ≡ contains a xs
  unfolding sort
  contains-sort a xs = contains-sort_by o.le? a xs

module _ {ℓ} {A : Type ℓ} (le? : A → A → Bool) where
  pub IsSortedBy-take : (n : ℕ) (xs : List A) → IsSortedBy le? xs → IsSortedBy le? (take n xs)
  IsSortedBy-take zero xs h = tt
  IsSortedBy-take (suc n) [] h = tt
  IsSortedBy-take (suc n) (x ∷ xs) h =
      (All-take (λ y. le? x y ≡ true) n xs h.0, IsSortedBy-take n xs h.1)

  any-insert_by :
      (p : A → Bool) (a : A) (xs : List A) → any p (insert_by le? a xs) ≡ (p a || any p xs)
  unfolding insert_by
  any-insert_by p a [] = refl
  any-insert_by p a (x ∷ xs) = ground (arith, any-insert_by p a xs)

  pub any-sort_by : (p : A → Bool) (xs : List A) → any p (sort_by le? xs) ≡ any p xs
  unfolding sort_by
  any-sort_by p [] = refl
  any-sort_by p (x ∷ xs) =
      any-insert_by p x (sort_by le? xs) ∙ ap (λ b. p x || b) (any-sort_by p xs)
