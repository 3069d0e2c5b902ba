-- ===== src/Database/Session.antt =====
-- The rows of `api_keys`, and the part of the ORM session that the class methods use: pending
-- inserts and deletes, advisory locks, commit with the declared constraints, rollback.
use k8s_stack_keycloak_api_k.Base.{
  Result, ok, err, ℕ, ◌≡◌, Str, Bool, true, not, ◌&&◌, ◌||◌, Option, none, some, List, [], ◌∷◌,
  ◌++◌, ◌==◌, nat_eq, str_eq, length, contains, any, filter, find, leb, if◌then◌else◌,
}

-- A `datetime` in microseconds: with the zone UTC, or without a zone, as SQLite returns it.
pub data Stamp : Type 0 where
  naive aware : ℕ → Stamp

-- `ApiKey`, with the columns as fields
pub record ApiKey : Type 0 where
  pub id : Str
  pub key_hash : Str
  pub key_prefix : Str
  pub name : Str
  pub user_id : Str
  pub created_by_user_id : Option Str
  pub created_at : Stamp
  pub permissions : List Str
  pub expires_at : Stamp
  pub revoked : Bool

pub data Dialect : Type 0 where
  postgresql sqlite : Dialect

pub record Session : Type 0 where
  pub bind : Option Dialect
  pub rows : List ApiKey
  pub pending : List ApiKey
  pub doomed : List Str
  pub locks : List Str

-- what a class method raises
pub data DbError : Type 0 where
  -- `ApiKeyLimitError`
  limit_reached : DbError
  -- a constraint of the table
  write_failed : DbError

-- `String(n)`
short : ℕ → Option Str → Bool
short n none = true
short n (some s) = leb (length s) n

-- The column widths, which PostgreSQL enforces and SQLite does not.
unfoldable pub fits : ApiKey → Bool
unfolding short
fits k =
    short 36 (some k.id)
    && (short 64 (some k.key_hash)
        && (short 12 (some k.key_prefix)
            && (short 255 (some k.name)
                && (short 36 (some k.user_id) && short 36 k.created_by_user_id))))

unfoldable pub width_ok : Option Dialect → ApiKey → Bool
unfolding fits
width_ok (some postgresql) k = fits k
width_ok (some sqlite) k = true
width_ok none k = true

-- `primary_key=True` on id, `unique=True` on key_hash
unfoldable pub clashes : ApiKey → List ApiKey → Bool
clashes k rows = any (λ r. r.id == k.id || r.key_hash == k.key_hash) rows

unfoldable pub flush : Option Dialect → List ApiKey → List ApiKey → Option (List ApiKey)
unfolding width_ok clashes
flush bind [] rows = some rows
flush bind (k ∷ ks) rows =
    let rest = flush bind ks (k ∷ rows) in
    if width_ok bind k && not (clashes k rows) then rest else none

-- the rows without those that the session deletes
unfoldable pub kept : Session → List ApiKey
kept s = filter (λ r. not (contains r.id s.doomed)) s.rows

-- what a query of the session sees
unfoldable pub visible : Session → List ApiKey
unfolding kept
visible s = s.pending ++ kept s

unfoldable pub add : ApiKey → Session → Session
add k s = record s { pending = k ∷ s.pending }

unfoldable pub delete : ApiKey → Session → Session
delete k s = record s { doomed = k.id ∷ s.doomed }

-- Rollback forgets the pending work and releases the transaction's advisory locks.
unfoldable pub rollback : Session → Session
rollback s = record s { pending = []; doomed = []; locks = [] }

settle : Option (List ApiKey) → Session → Result DbError (Unit {0}) × Session
settle none s = (err write_failed, s)
settle (some rows) s = (ok tt, record s { rows = rows; pending = []; doomed = []; locks = [] })

unfoldable pub commit : Session → Result DbError (Unit {0}) × Session
unfolding flush kept settle
commit s = settle (flush s.bind s.pending (kept s)) s

-- `pg_advisory_xact_lock(hashtextextended(:user_id, 0))`, on PostgreSQL only
unfoldable pub lock_user : Str → Session → Session
lock_user user_id s = elim s.bind [
  | some postgresql ↦ record s { locks = user_id ∷ s.locks }
  | some sqlite ↦ s
  | none ↦ s
]

-- `session.get(cls, key_id)`
unfoldable pub get_row : Str → Session → Option ApiKey
unfolding visible
get_row key_id s = find (λ r. r.id == key_id) (visible s)

-- `select(func.count()).where(cls.user_id == user_id)`
unfoldable pub count_keys : Str → List ApiKey → ℕ
count_keys user_id rows = length (filter (λ r. r.user_id == user_id) rows)

-- A session between requests: nothing pending, no lock held.
pub record IsClean (s : Session) : Type 0 where
  pub no_pending : s.pending ≡ []
  pub no_doomed : s.doomed ≡ []
