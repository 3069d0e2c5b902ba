-- ===== src/Api/Usage/Own.antt =====
-- What `usage_key_metadata` tells a user who is no usage administrator.
use k8s_stack_keycloak_api_k.Base.{
  ◌≡◌, refl, ap, ◌∙◌, Str, Bool, true, false, ◌&&◌, Option, none, some, List, [], ◌∷◌, ◌==◌, ==_iff,
  nat_eq, str_eq, pair_eq, lookup, contains, any, find, filter, All, Bool-cases, Option-cases, inl,
  inr, if◌then◌else◌, ok, err, arith,
}
use k8s_stack_keycloak_api_k.Database.Session.{ApiKey, clashes, IsClean}
use k8s_stack_keycloak_api_k.Database.Rows.{WellFormed, visible_clean}
use k8s_stack_keycloak_api_k.Api.Http.{Setup, App, http_error}
use k8s_stack_keycloak_api_k.Api.Tokens.{CurrentUser}
use k8s_stack_keycloak_api_k.Api.Usage.Asked.{pair_of, All-ids_of}
use k8s_stack_keycloak_api_k.Api.Usage.{
  personal, kind_eq, kind_beq_iff, UsageKeyReference, UsageKeyMetadata, Names, name_key, ids_of,
  row_names, personal_names, is_foreign, described, describe_all, usage_admin, usage_names,
  usage_key_metadata,
}

-- the row of a reference
abbrev is_row : UsageKeyReference → ApiKey → Bool
is_row k r = r.id == k.id && r.user_id == k.user_id

-- Each reference looked up by itself.
unfoldable pub look_up_each : List ApiKey → List UsageKeyReference → List UsageKeyMetadata
look_up_each rows [] = []
look_up_each rows (k ∷ keys) =
    let rest = look_up_each rows keys in
    elim (find (is_row k) rows) [
      | none ↦ rest
      | some r ↦ record { id = k.id; user_id = k.user_id; kind = k.kind; name = r.name } ∷ rest
    ]

abbrev found_name : Option Str → Option ApiKey → Option Str
found_name before none = before
found_name before (some r) = some r.name

no_second_row :
    (k : UsageKeyReference) (r : ApiKey) (rows : List ApiKey)
    → r.id ≡ k.id
    → clashes r rows ≡ false
    → find (is_row k) rows ≡ none
unfolding clashes
no_second_row k r [] same h = refl
no_second_row k r (x ∷ rows) same h =
    ground (arith, no_second_row k r rows same, ==_iff x.id k.id, ==_iff x.id r.id)

entry_of :
    (k : UsageKeyReference)
    → k.kind ≡ personal
    → (r : ApiKey) → ((r.id, (r.user_id, personal)) == name_key k) ≡ is_row k r
entry_of k is_personal r = rw is_personal (ground arith)

lookup-row_names :
    (k : UsageKeyReference) (rows : List ApiKey) (names : Names)
    → k.kind ≡ personal
    → WellFormed rows
    → lookup (name_key k) (row_names rows names)
      ≡ found_name (lookup (name_key k) names) (find (is_row k) rows)
unfolding row_names
lookup-row_names k [] names is_personal h = refl
lookup-row_names k (r ∷ rows) names is_personal h =
    lookup-row_names k rows (((r.id, (r.user_id, personal)), r.name) ∷ names) is_personal h.1
    ∙ elim (Bool-cases (is_row k r)) [
      | inl here ↦ rw (entry_of k is_personal r, here, no_second_row k r rows (id_of here) h.0) refl
      | inr there ↦ rw (entry_of k is_personal r, there) refl
    ]
  where
    id_of : is_row k r ≡ true → r.id ≡ k.id
    id_of e = ground (arith, ==_iff r.id k.id)

find-filter :
    (k : UsageKeyReference) (ids : List (Str × Str)) (rows : List ApiKey)
    → contains (k.id, k.user_id) ids ≡ true
    → find (is_row k) (filter (λ r. contains (r.id, r.user_id) ids) rows) ≡ find (is_row k) rows
find-filter k ids [] h = refl
find-filter k ids (r ∷ rows) h = elim (Bool-cases (is_row k r)) [
  | inl here ↦
      let i : r.id ≡ k.id = ground (arith, ==_iff r.id k.id) in
      let u : r.user_id ≡ k.user_id = ground (arith, ==_iff r.user_id k.user_id) in
      let same : contains (r.id, r.user_id) ids ≡ true = rw (i, u) h in rw (same, here) refl
  | inr there ↦ elim (Bool-cases (contains (r.id, r.user_id) ids)) [
    | inl asked ↦ rw (asked, there) (find-filter k ids rows h)
    | inr not_asked ↦ rw (not_asked, there) (find-filter k ids rows h)
  ]
]

-- the user asks for personal keys of its own only
abbrev IsOwn : CurrentUser → UsageKeyReference → Type 0
IsOwn user k = (k.kind ≡ personal) × (k.user_id ≡ user.user_id)

All-IsOwn :
    (user : CurrentUser) (keys : List UsageKeyReference)
    → any (is_foreign user) keys ≡ false
    → All (IsOwn user) keys
unfolding is_foreign
All-IsOwn user [] h = tt
All-IsOwn user (k ∷ keys) h = (
  (ground (arith, kind_beq_iff k.kind personal), ground (arith, ==_iff k.user_id user.user_id)),
  All-IsOwn user keys (ground arith),
)

clashes-filter :
    (p : ApiKey → Bool) (r : ApiKey) (rows : List ApiKey)
    → clashes r rows ≡ false
    → clashes r (filter p rows) ≡ false
unfolding clashes
clashes-filter p r [] e = refl
clashes-filter p r (x ∷ rows) e = ground (arith, clashes-filter p r rows)

filter-WellFormed :
    (p : ApiKey → Bool) (rows : List ApiKey) → WellFormed rows → WellFormed (filter p rows)
filter-WellFormed p [] h = tt
filter-WellFormed p (r ∷ rows) h = elim (Bool-cases (p r)) [
  | inl kept ↦ rw kept (clashes-filter p r rows h.0, filter-WellFormed p rows h.1)
  | inr dropped ↦ rw dropped (filter-WellFormed p rows h.1)
]

describe_all-each :
    (names : Names) (rows : List ApiKey) (keys : List UsageKeyReference)
    → All (λ k. lookup (name_key k) names ≡ found_name none (find (is_row k) rows)) keys
    → describe_all names keys ≡ look_up_each rows keys
unfolding describe_all look_up_each described
describe_all-each names rows [] h = refl
describe_all-each names rows (k ∷ keys) h = elim (Option-cases (find (is_row k) rows)) [
  | inl missing ↦ rw (h.0, missing, describe_all-each names rows keys h.1, look_up_each) refl
  | inr (r, found) ↦ rw (h.0, found, describe_all-each names rows keys h.1, look_up_each) refl
]

module _ (setup : Setup) (keys : List UsageKeyReference) (user : CurrentUser) (s : App) where
  describe_own :
      IsClean s.session
      → WellFormed s.session.rows
      → any (is_foreign user) keys ≡ false
      → describe_all (personal_names keys s.session) keys ≡ look_up_each s.session.rows keys
  unfolding personal_names
  describe_own clean fine own = rw (visible_clean s.session clean) (
      describe_all-each (row_names (filter asked rows) []) rows keys
        (All-both keys (All-IsOwn user keys own) (All-ids_of personal keys)))
    where
      rows : List ApiKey
      rows = s.session.rows

      asked : ApiKey → Bool
      asked r = contains (r.id, r.user_id) (ids_of personal keys)

      All-both :
          (ks : List UsageKeyReference)
          → All (IsOwn user) ks
          → All (λ k. k.kind ≡ personal → contains (pair_of k) (ids_of personal keys) ≡ true) ks
          → All
              (λ k.
                lookup (name_key k) (row_names (filter asked rows) [])
                ≡ found_name none (find (is_row k) rows))
              ks
      All-both [] h g = tt
      All-both (k ∷ ks) h g = (
        lookup-row_names k (filter asked rows) [] h.0.0 (filter-WellFormed asked rows fine)
            ∙ ap (found_name none) (find-filter k (ids_of personal keys) rows (g.0 h.0.0)),
        All-both ks h.1 g.1,
      )

  -- In a clean session whose rows meet the table's constraints, a user without the usage role is
  -- refused if one of the references is not to a personal key of its own, and else gets, in the order
  -- of the request, the references that are rows of the table, each with the name in its row; the
  -- state does not change.
  pub usage_key_metadata_self :
      IsClean s.session
      → WellFormed s.session.rows
      → contains usage_admin user.realm_roles ≡ false
      → usage_key_metadata setup keys user s ≡ (
          if any (is_foreign user) keys
          then (err (http_error 403 "Usage metadata is self-only"), s)
          else (ok (look_up_each s.session.rows keys), s))
  unfolding usage_key_metadata usage_names
  usage_key_metadata_self clean fine plain = elim (Bool-cases (any (is_foreign user) keys)) [
    | inl foreign ↦ rw (plain, foreign) refl
    | inr own ↦ rw (plain, own, describe_own clean fine own) refl
  ]
