-- ===== src/Database/Keys.antt =====
-- The class methods of `ApiKey`.
pub mod Create
pub mod Revoke
pub mod Listing
use k8s_stack_keycloak_api_k.Base.{
  Result, ok, err, ℕ, ◌+◌, ◌*◌, Str, Bool, true, false, ◌&&◌, ◌||◌, not, Option, none, some, List,
  [], ◌∷◌, map, ◌≡◌, refl, ◌==◌, nat_eq, str_eq, length, filter, find, take, leb, ltb,
  if◌then◌else◌,
}
use k8s_stack_keycloak_api_k.Sorting.{Ord, sort_by}
use k8s_stack_keycloak_api_k.Database.Session.{
  Stamp, naive, aware, ApiKey, Session, DbError, limit_reached, visible, add, delete, rollback,
  commit, lock_user, get_row, count_keys, IsClean,
}
use k8s_stack_keycloak_api_k.Database.Rows.{visible_clean}

-- What the methods call that is not the program's: SHA-256, the text of a date, and the database's
-- order of text.
pub record Platform : Type 0 where
  pub sha256 : Str → Str
  pub isoformat : Stamp → Str
  pub collation : Ord Str

-- The values that `create_key` draws: `uuid.uuid4()`, `secrets.token_urlsafe(32)`, the clock.
pub record Draw : Type 0 where
  pub key_id : Str
  pub key_value : Str
  pub now : ℕ

-- `timedelta(days=n)` in microseconds
abbrev pub days : ℕ → ℕ
days n = n * 86_400_000_000

-- `ApiKeyMetadata`
pub record ApiKeyMetadata : Type 0 where
  pub id : Str
  pub key_prefix : Str
  pub name : Str
  pub user_id : Str
  pub created_by_user_id : Option Str
  pub created_at : Str
  pub permissions : List Str
  pub expires_at : Str
  pub revoked : Bool

-- the arguments of `create_key`
pub record NewKey : Type 0 where
  pub name : Str
  pub user_id : Str
  pub permissions : List Str
  pub validity_days : ℕ
  pub created_by_user_id : Option Str
  pub max_keys_per_user : ℕ

-- `except Exception: session.rollback(); raise`
or_rollback {ℓ} :
    {A : Type ℓ} → A → Result DbError (Unit {0}) × Session → Result DbError A × Session
unfolding rollback
or_rollback a (ok _, s) = (ok a, s)
or_rollback a (err e, s) = (err e, rollback s)

-- A date without a zone is read as UTC.
abbrev pub instant : Stamp → ℕ
instant (naive t) = t
instant (aware t) = t

module _ (os : Platform) where
  -- `_hash_key`
  unfoldable pub hash_key : Str → Str
  hash_key key_value = os.sha256 key_value

  -- `_key_to_dict`
  unfoldable pub key_to_dict : ApiKey → ApiKeyMetadata
  key_to_dict key = record {
    id = key.id;
    key_prefix = key.key_prefix;
    name = key.name;
    user_id = key.user_id;
    created_by_user_id = key.created_by_user_id;
    created_at = os.isoformat key.created_at;
    permissions = key.permissions;
    expires_at = os.isoformat key.expires_at;
    revoked = key.revoked;
  }

  -- the row that `create_key` adds
  unfoldable pub new_row : Draw → NewKey → ApiKey
  unfolding hash_key
  new_row d k = record {
    id = d.key_id;
    key_hash = hash_key d.key_value;
    key_prefix = take 8 d.key_value;
    name = k.name;
    user_id = k.user_id;
    created_by_user_id = k.created_by_user_id;
    created_at = aware d.now;
    permissions = k.permissions;
    expires_at = aware (d.now + days k.validity_days);
    revoked = false;
  }

  unfoldable pub create_key : Draw → NewKey → Session → Result DbError (Str × Str) × Session
  unfolding new_row or_rollback rollback lock_user count_keys visible add commit
  create_key d k s =
      let locked = lock_user k.user_id s in
      if leb k.max_keys_per_user (count_keys k.user_id (visible locked))
      then (err limit_reached, rollback locked)
      else or_rollback (d.key_id, d.key_value) (commit (add (new_row d k) locked))

  -- `order_by(created_at.desc(), id.desc())`
  unfoldable pub newest_first : ApiKey → ApiKey → Bool
  newest_first a b =
      ltb (instant b.created_at) (instant a.created_at)
      || (instant a.created_at == instant b.created_at && os.collation.le? b.id a.id)

  unfoldable pub list_keys : Str → ℕ → Session → List ApiKeyMetadata
  unfolding newest_first key_to_dict visible
  list_keys user_id limit s = map key_to_dict (
      take limit
        (sort_by newest_first (filter (λ r. r.user_id == user_id && not r.revoked) (visible s))))

  pub live_or_none : ℕ → Option ApiKey → Option ApiKeyMetadata
  unfolding key_to_dict
  live_or_none now none = none
  live_or_none now (some key) =
      if key.revoked
      then none
      else if leb (instant key.expires_at) now
      then none
      else some (key_to_dict key)

  -- `get_key` at the time `now`
  unfoldable pub get_key : ℕ → Str → Session → Option ApiKeyMetadata
  unfolding live_or_none hash_key visible
  get_key now key_value s =
      live_or_none now (find (λ r. r.key_hash == hash_key key_value) (visible s))

  pub get_key_clean :
      (now : ℕ) (secret : Str) (s : Session)
      → IsClean s
      → get_key now secret s ≡ live_or_none now (find (λ r. r.key_hash == hash_key secret) s.rows)
  unfolding get_key
  get_key_clean now secret s clean = rw (visible_clean s clean) refl

confirm : Result DbError (Unit {0}) × Session → Result DbError Bool × Session
confirm (ok _, s) = (ok true, s)
confirm (err e, s) = (err e, s)

discard : ApiKey → Session → Result DbError Bool × Session
unfolding confirm commit delete
discard key s = confirm (commit (delete key s))

pub revoke_found : (ApiKey → Bool) → Option ApiKey → Session → Result DbError Bool × Session
unfolding discard
revoke_found allowed none s = (ok false, s)
revoke_found allowed (some key) s = if allowed key then discard key s else (ok false, s)

unfoldable pub revoke_key : Str → Str → Session → Result DbError Bool × Session
unfolding revoke_found get_row
revoke_key key_id user_id s = revoke_found (λ key. key.user_id == user_id) (get_row key_id s) s

unfoldable pub revoke_key_as_admin : Str → Session → Result DbError Bool × Session
unfolding revoke_found get_row
revoke_key_as_admin key_id s = revoke_found (λ key. true) (get_row key_id s) s
