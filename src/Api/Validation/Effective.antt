-- ===== src/Api/Validation/Effective.antt =====
-- The permissions of a decision: what the key grants, the principal holds, and the grammar admits.
use k8s_stack_keycloak_api_k.Base.{
  Str, ◌≡◌, sym, ap, ap₂, ◌∙◌, Bool, ◌&&◌, List, [], ◌∷◌, Comparable, str_eq, dedup, contains,
  Distinct, SameMembers, filter, contains-dedup, contains-filter, dedup-Distinct, arith, Bool-cases,
  inl, inr,
}
use k8s_stack_keycloak_api_k.Sorting.{sort, str_ord}
use k8s_stack_keycloak_api_k.Sorting.Laws.{
  IsSortedBy, sort_by-IsSortedBy, sort_by-Distinct, contains-sort, sorted_unique,
}
use k8s_stack_keycloak_api_k.Permissions.{is_valid_permission}
use k8s_stack_keycloak_api_k.Api.Validation.{effective}

filter-Distinct {ℓ} :
    {A : Type ℓ} ⦃e : Comparable A⦄ (p : A → Bool) (xs : List A)
    → Distinct xs
    → Distinct (filter p xs)
filter-Distinct p [] d = tt
filter-Distinct p (x ∷ xs) d = elim (Bool-cases (p x)) [
  | inl kept ↦ rw kept (contains-filter p x xs ∙ ground (arith, d.0), filter-Distinct p xs d.1)
  | inr dropped ↦ rw dropped (filter-Distinct p xs d.1)
]

contains-effective :
    (p : Str) (grant entitled : List Str)
    → contains p (effective grant entitled)
      ≡ (is_valid_permission p && (contains p entitled && contains p grant))
unfolding effective
contains-effective p grant entitled =
    contains-sort p _
    ∙ contains-filter is_valid_permission p (filter (λ q. contains q entitled) (dedup grant))
    ∙ ap (λ b. is_valid_permission p && b)
        (contains-filter (λ q. contains q entitled) p (dedup grant)
          ∙ ap (λ b. contains p entitled && b) (contains-dedup p grant))

effective-IsSortedBy :
    (grant entitled : List Str) → IsSortedBy str_ord.le? (effective grant entitled)
unfolding effective sort
effective-IsSortedBy grant entitled =
    sort_by-IsSortedBy str_ord.le? str_ord.total str_ord.trans
      (filter is_valid_permission (filter (λ p. contains p entitled) (dedup grant)))

effective-Distinct : (grant entitled : List Str) → Distinct (effective grant entitled)
unfolding effective sort
effective-Distinct grant entitled = sort_by-Distinct str_ord.le? _ (
    filter-Distinct is_valid_permission _
      (filter-Distinct (λ p. contains p entitled) _ (dedup-Distinct grant)))

-- The permissions of a decision are exactly the valid ones that are both granted and held, without
-- repetition and in the order of their code points.
pub effective_lem :
    (grant entitled : List Str)
    → ((p : Str)
        → contains p (effective grant entitled)
          ≡ (is_valid_permission p && (contains p entitled && contains p grant)))
      × Distinct (effective grant entitled)
      × IsSortedBy str_ord.le? (effective grant entitled)
effective_lem grant entitled = (
  λ p. contains-effective p grant entitled,
  effective-Distinct grant entitled,
  effective-IsSortedBy grant entitled,
)

-- The permissions of a decision depend only on the sets that are granted and held: how the lists are
-- ordered and what they repeat does not show.
pub effective_canonical :
    (grant grant' entitled entitled' : List Str)
    → SameMembers grant grant'
    → SameMembers entitled entitled'
    → effective grant entitled ≡ effective grant' entitled'
effective_canonical grant grant' entitled entitled' same held =
    sorted_unique (effective grant entitled) (effective grant' entitled')
      (effective-IsSortedBy grant entitled) (effective-IsSortedBy grant' entitled')
      (effective-Distinct grant entitled) (effective-Distinct grant' entitled')
      (λ p.
        contains-effective p grant entitled
        ∙ ap (λ b. is_valid_permission p && b) (ap₂ ◌&&◌ (held p) (same p))
        ∙ sym (contains-effective p grant' entitled'))
