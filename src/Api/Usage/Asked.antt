-- ===== src/Api/Usage/Asked.antt =====
-- The sets of identifiers that `usage_key_metadata` asks for.
use k8s_stack_keycloak_api_k.Base.{
  ◌≡◌, refl, ◌∙◌, Str, true, List, [], ◌∷◌, map, ◌==◌, ==_refl, nat_eq, str_eq, pair_eq, contains,
  contains-dedup, filter, All, All-mono, Bool-cases, inl, inr, arith,
}
use k8s_stack_keycloak_api_k.Api.Usage.{Kind, kind_eq, UsageKeyReference, ids_of}

abbrev pub pair_of : UsageKeyReference → Str × Str
pair_of k = (k.id, k.user_id)

module _ (kind : Kind) where
  asked : List UsageKeyReference → List (Str × Str)
  asked keys = map pair_of (filter (λ k. k.kind == kind) keys)

  All-asked :
      (keys : List UsageKeyReference)
      → All (λ k. k.kind ≡ kind → contains (pair_of k) (asked keys) ≡ true) keys
  unfolding asked
  All-asked [] = tt
  All-asked (k ∷ keys) = (
    λ e. rw (e, ==_refl kind) (rw (==_refl (pair_of k)) refl),
    All-mono
        (λ x h e. elim (Bool-cases (k.kind == kind)) [
          | inl same ↦ rw same (ground (arith, h e))
          | inr other ↦ rw other (h e)
        ])
        keys (All-asked keys),
  )

  pub All-ids_of :
      (keys : List UsageKeyReference)
      → All (λ k. k.kind ≡ kind → contains (pair_of k) (ids_of kind keys) ≡ true) keys
  unfolding ids_of asked
  All-ids_of keys =
      All-mono (λ k h e. contains-dedup (pair_of k) (asked keys) ∙ h e) keys (All-asked keys)
