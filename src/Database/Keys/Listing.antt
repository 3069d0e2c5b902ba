-- ===== src/Database/Keys/Listing.antt =====
-- Listing a user's keys.
use mathlib.Core.List.{Perm}
use k8s_stack_keycloak_api_k.Base.{
  ℕ, zero, suc, ◌≤◌, ◌<◌, Str, ◌≡◌, ◌≢◌, ◌⊎◌, inl, inr, refl, sym, ap, subst, true, not, ◌&&◌, ◌||◌,
  List, [], ◌∷◌, ◌++◌, map, ◌==◌, ==_iff, nat_eq, str_eq, length, length-take-le, take, drop, ltb,
  filter, All, All-mono, Bool-cases, arith,
}
use k8s_stack_keycloak_api_k.Sorting.{sort_by}
use k8s_stack_keycloak_api_k.Sorting.Laws.{IsSortedBy, sort_by-IsSortedBy, sort_by-Perm}
use k8s_stack_keycloak_api_k.Database.Session.{ApiKey, Session, IsClean}
use k8s_stack_keycloak_api_k.Database.Rows.{visible_clean}
use k8s_stack_keycloak_api_k.Database.Keys.{Platform, instant, key_to_dict, newest_first, list_keys}

take_append_drop {ℓ} : {A : Type ℓ} (n : ℕ) (xs : List A) → take n xs ++ drop n xs ≡ xs
take_append_drop zero xs = refl
take_append_drop (suc n) [] = refl
take_append_drop (suc n) (x ∷ xs) = ap (λ ys. x ∷ ys) (take_append_drop n xs)

length-take_full {ℓ} : {A : Type ℓ} (n : ℕ) (xs : List A) → drop n xs ≢ [] → length (take n xs) ≡ n
length-take_full zero xs h = refl
length-take_full (suc n) [] h = absurd (h refl)
length-take_full (suc n) (x ∷ xs) h = ap suc (length-take_full n xs h)

module _ (os : Platform) where
  newest_first_total : (a b : ApiKey) → (newest_first os a b || newest_first os b a) ≡ true
  unfolding newest_first
  newest_first_total a b = ground (arith, os.collation.total a.id b.id)

  newest_first_trans :
      (a b c : ApiKey)
      → newest_first os a b ≡ true
      → newest_first os b c ≡ true
      → newest_first os a c ≡ true
  unfolding newest_first
  newest_first_trans a b c h k = ground (arith, os.collation.trans c.id b.id a.id)

  -- `a` is listed before `b`: it was created later, or at the same time and its id is not below
  pub Precedes : ApiKey → ApiKey → Type 0
  Precedes a b =
      (instant b.created_at < instant a.created_at)
      ⊎ ((instant a.created_at ≡ instant b.created_at) × (os.collation.le? b.id a.id ≡ true))

  pub InOrder : List ApiKey → Type 0
  InOrder [] = Unit
  InOrder (r ∷ rows) = All (Precedes r) rows × InOrder rows

  newest_first-Precedes : (a b : ApiKey) → newest_first os a b ≡ true → Precedes a b
  unfolding newest_first Precedes
  newest_first-Precedes a b h =
      elim (Bool-cases (ltb (instant b.created_at) (instant a.created_at))) [
        | inl later ↦ inl (ground (arith, later))
        | inr not_later ↦ inr (
          ground (arith, h, not_later, ==_iff (instant a.created_at) (instant b.created_at)),
          ground (arith, h, not_later),
        )
      ]

  IsSortedBy-InOrder : (rows : List ApiKey) → IsSortedBy (newest_first os) rows → InOrder rows
  unfolding InOrder
  IsSortedBy-InOrder [] h = tt
  IsSortedBy-InOrder (r ∷ rows) h =
      (All-mono (λ x k. newest_first-Precedes r x k) rows h.0, IsSortedBy-InOrder rows h.1)

  module _ (user_id : Str) (limit : ℕ) (s : Session) where
    sorted_rows : List ApiKey
    sorted_rows =
        sort_by (newest_first os) (filter (λ r. r.user_id == user_id && not r.revoked) s.rows)

    list_keys_rows :
        IsClean s → list_keys os user_id limit s ≡ map (key_to_dict os) (take limit sorted_rows)
    unfolding list_keys sorted_rows
    list_keys_rows clean = rw (visible_clean s clean) refl

    -- In a clean session the list holds the metadata of the newest of the rows that the user owns and
    -- that are not revoked: these rows, each as often as the table has it, are the listed ones and then
    -- those that are left out, all in order, newest first and by descending id where the times are the
    -- same; at most `limit` are listed, and exactly so many if any is left out.
    pub list_keys_lem :
        IsClean s
        → (rows left_out : List ApiKey) × (list_keys os user_id limit s ≡ map (key_to_dict os) rows)
          × Perm (rows ++ left_out) (filter (λ r. r.user_id == user_id && not r.revoked) s.rows)
          × InOrder (rows ++ left_out)
          × (length rows ≤ limit)
          × (left_out ≢ [] → length rows ≡ limit)
    unfolding sorted_rows
    list_keys_lem clean = (
      take limit sorted_rows,
      drop limit sorted_rows,
      list_keys_rows clean,
      subst (λ xs. Perm xs (filter (λ r. r.user_id == user_id && not r.revoked) s.rows)) split
          (sort_by-Perm (newest_first os)
            (filter (λ r. r.user_id == user_id && not r.revoked) s.rows)),
      subst InOrder split (
          IsSortedBy-InOrder sorted_rows (
            sort_by-IsSortedBy (newest_first os) newest_first_total newest_first_trans
              (filter (λ r. r.user_id == user_id && not r.revoked) s.rows))),
      length-take-le limit sorted_rows,
      length-take_full limit sorted_rows,
    )
      where
        split : sorted_rows ≡ take limit sorted_rows ++ drop limit sorted_rows
        split = sym (take_append_drop limit sorted_rows)
