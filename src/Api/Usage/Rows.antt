-- ===== src/Api/Usage/Rows.antt =====
-- The dict of personal keys: rows of the table, each of them there.
use k8s_stack_keycloak_api_k.Base.{
  ◌≡◌, ◌≢◌, refl, Str, true, none, List, [], ◌∷◌, ◌==◌, ==_refl, nat_eq, str_eq, pair_eq, lookup,
  All, Bool-cases, inl, inr,
}
use mathlib.Core.List.{Memᴰ}
use k8s_stack_keycloak_api_k.Database.Session.{ApiKey}
use k8s_stack_keycloak_api_k.Api.Usage.{Kind, personal, kind_eq, Names, row_names}

-- An entry is a row of the table under its identifiers and its name.
abbrev pub IsRow : List ApiKey → (Str × (Str × Kind)) × Str → Type 0
IsRow rows ((id, (user_id, kind)), name) =
    (kind ≡ personal)
    × ((r : ApiKey) × Memᴰ r rows × (r.id ≡ id) × (r.user_id ≡ user_id) × (r.name ≡ name))

-- the key of `names` for a row
abbrev pub row_key : ApiKey → Str × (Str × Kind)
row_key r = (r.id, (r.user_id, personal))

pub row_names-IsRow :
    (all_rows rows : List ApiKey) (names : Names)
    → All (λ r. Memᴰ r all_rows) rows
    → All (IsRow all_rows) names
    → All (IsRow all_rows) (row_names rows names)
unfolding row_names
row_names-IsRow all_rows [] names there h = h
row_names-IsRow all_rows (r ∷ rows) names there h =
    row_names-IsRow all_rows rows ((row_key r, r.name) ∷ names) there.1
      ((refl, (r, there.0, refl, refl, refl)), h)

row_names_grows :
    (n : Str × (Str × Kind)) (rows : List ApiKey) (names : Names)
    → lookup n (row_names rows names) ≡ none
    → lookup n names ≡ none
unfolding row_names
row_names_grows n [] names h = h
row_names_grows n (r ∷ rows) names h =
    let before : lookup n ((row_key r, r.name) ∷ names) ≡ none =
      row_names_grows n rows ((row_key r, r.name) ∷ names) h in
    elim (Bool-cases (row_key r == n)) [
      | inl same ↦ absurd (cc (rw same at before))
      | inr other ↦ rw other at before
    ]

pub row_names_there :
    (r : ApiKey) (rows : List ApiKey) (names : Names)
    → Memᴰ r rows
    → lookup (row_key r) (row_names rows names) ≢ none
unfolding row_names
row_names_there r [] names there missing = elim there [ ]
row_names_there r (x ∷ rows) names (Memᴰ.head same) missing =
    let before : lookup (row_key r) ((row_key x, x.name) ∷ names) ≡ none =
      row_names_grows (row_key r) rows ((row_key x, x.name) ∷ names) missing in
    let here : (row_key x == row_key r) ≡ true = rw (← same) (==_refl (row_key r)) in
    cc (rw here at before)
row_names_there r (x ∷ rows) names (Memᴰ.tail there) missing =
    row_names_there r rows ((row_key x, x.name) ∷ names) there missing
