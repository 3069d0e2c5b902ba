-- ===== src/Database/Rows.antt =====
-- The constraints that the rows of the table meet, and the sessions between requests.
use k8s_stack_keycloak_api_k.Base.{
  suc, Str, ◌≡◌, ◌≢◌, refl, true, false, not, none, some, List, [], ◌∷◌, ◌==◌, ==_iff, ==_comm,
  nat_eq, str_eq, contains, All-const, filter, filter-All, find, if◌then◌else◌, arith, Bool-cases,
  inl, inr,
}
use k8s_stack_keycloak_api_k.Database.Session.{
  ApiKey, Session, clashes, kept, visible, IsClean, count_keys,
}

-- No two rows share an id or a digest.
abbrev pub WellFormed : List ApiKey → Type 0
WellFormed [] = Unit
WellFormed (k ∷ rows) = (clashes k rows ≡ false) × WellFormed rows

pub kept_clean : (s : Session) → s.doomed ≡ [] → kept s ≡ s.rows
unfolding kept
kept_clean s none_doomed =
    rw none_doomed (filter-All (λ r. true) s.rows (All-const (λ r. true ≡ true) (λ r. refl) s.rows))

pub visible_clean : (s : Session) → IsClean s → visible s ≡ s.rows
unfolding visible
visible_clean s clean = rw (clean.no_pending) (kept_clean s clean.no_doomed)

-- the session after a commit of `rows`
abbrev pub settled : List ApiKey → Session → Session
settled rows s = record s { rows = rows; pending = []; doomed = []; locks = [] }

pub count_keys-cons :
    (u : Str) (k : ApiKey) (rows : List ApiKey)
    → count_keys u (k ∷ rows)
      ≡ (if k.user_id == u then suc (count_keys u rows) else count_keys u rows)
unfolding count_keys
count_keys-cons u k rows = ground arith

-- the rows that a delete of `key_id` leaves
unfoldable pub without : Str → List ApiKey → List ApiKey
without key_id rows = filter (λ r. not (contains r.id (key_id ∷ []))) rows

clashes-without :
    (key_id : Str) (k : ApiKey) (rows : List ApiKey)
    → clashes k rows ≡ false
    → clashes k (without key_id rows) ≡ false
unfolding clashes without
clashes-without key_id k [] h = refl
clashes-without key_id k (r ∷ rows) h = ground (arith, clashes-without key_id k rows)

-- Deleting a row keeps the constraints.
pub without-WellFormed :
    (key_id : Str) (rows : List ApiKey) → WellFormed rows → WellFormed (without key_id rows)
unfolding without
without-WellFormed key_id [] h = tt
without-WellFormed key_id (r ∷ rows) h = elim (Bool-cases (key_id == r.id)) [
  | inl same ↦ rw same (without-WellFormed key_id rows h.1)
  | inr other ↦ rw other (clashes-without key_id r rows h.0, without-WellFormed key_id rows h.1)
]

-- A lookup by another id is not touched by the delete.
pub find-without :
    (j key_id : Str) (rows : List ApiKey)
    → j ≢ key_id
    → find (λ r. r.id == j) (without key_id rows) ≡ find (λ r. r.id == j) rows
unfolding without
find-without j key_id [] ne = refl
find-without j key_id (r ∷ rows) ne =
    ground (arith, find-without j key_id rows ne, ==_iff key_id r.id, ==_iff r.id j)

pub find-without_self :
    (key_id : Str) (rows : List ApiKey) → find (λ r. r.id == key_id) (without key_id rows) ≡ none
unfolding without
find-without_self key_id [] = refl
find-without_self key_id (r ∷ rows) =
    ground (arith, find-without_self key_id rows, ==_comm key_id r.id)

-- no row has the digest of a row that clashes with none
find_of_clashes :
    (k : ApiKey) (rows : List ApiKey)
    → clashes k rows ≡ false
    → find (λ r. r.key_hash == k.key_hash) rows ≡ none
unfolding clashes
find_of_clashes k [] h = refl
find_of_clashes k (r ∷ rows) h = ground (arith, find_of_clashes k rows)

clashes_self :
    (key_id : Str) (k : ApiKey) (rows : List ApiKey) {key : ApiKey}
    → clashes k rows ≡ false
    → find (λ r. r.id == key_id) rows ≡ some key
    → (k.key_hash == key.key_hash) ≡ false
unfolding clashes
clashes_self key_id k [] h e = cc
clashes_self key_id k (r ∷ rows) {key} h e =
    ground (arith, clashes_self key_id k rows {key = key}, ==_comm k.key_hash r.key_hash)

-- Once the row with an id is deleted, its digest is not in the table.
pub find-without_hash :
    (key_id : Str) (rows : List ApiKey) {key : ApiKey}
    → WellFormed rows
    → find (λ r. r.id == key_id) rows ≡ some key
    → find (λ r. r.key_hash == key.key_hash) (without key_id rows) ≡ none
unfolding without
find-without_hash key_id [] h e = refl
find-without_hash key_id (r ∷ rows) {key} h e = elim (Bool-cases (r.id == key_id)) [
  | inl here ↦
      let same : r ≡ key = cc (rw (here, find) at e) in
      rw (← same) (
        ground (
          arith,
          find_of_clashes r (without key_id rows) (clashes-without key_id r rows h.0),
          ==_comm key_id r.id,
        ))
  | inr there ↦ ground (
    arith,
    find-without_hash key_id rows {key = key} h.1,
    clashes_self key_id r rows {key = key} h.0,
    ==_comm key_id r.id,
  )
]
