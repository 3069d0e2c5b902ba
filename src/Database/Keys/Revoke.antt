-- ===== src/Database/Keys/Revoke.antt =====
-- Revoking keys: who may, what is removed, and what stays.
pub mod Keeping
use k8s_stack_keycloak_api_k.Base.{
  Result, ok, ℕ, Str, ◌≡◌, ◌≢◌, ◌↔◌, ◌⊎◌, refl, sym, ap, ◌∙◌, Bool, true, false, Option, none, some,
  ◌==◌, ==_iff, str_eq, find, find_sound, if◌then◌else◌, arith, inl, inr,
}
use k8s_stack_keycloak_api_k.Database.Session.{DbError, ApiKey, Session, visible, get_row, IsClean}
use k8s_stack_keycloak_api_k.Database.Rows.{
  WellFormed, visible_clean, settled, without, without-WellFormed, find-without, find-without_self,
  find-without_hash,
}
use k8s_stack_keycloak_api_k.Database.Keys.{
  Platform, get_key_clean, hash_key, live_or_none, get_key, discard, revoke_found, revoke_key,
  revoke_key_as_admin,
}

-- What a revocation does in a clean session, once the row has been looked up.
pub expected : (ApiKey → Bool) → Option ApiKey → Session → Result DbError Bool × Session
expected allowed none s = (ok false, s)
expected allowed (some key) s =
    if allowed key then (ok true, settled (without key.id s.rows) s) else (ok false, s)

get_row_clean :
    (key_id : Str) (s : Session) → IsClean s → get_row key_id s ≡ find (λ r. r.id == key_id) s.rows
unfolding get_row
get_row_clean key_id s clean = rw (visible_clean s clean) refl

get_row-id :
    (key_id : Str) (s : Session) {key : ApiKey} → get_row key_id s ≡ some key → key.id ≡ key_id
unfolding get_row
get_row-id key_id s {key} e =
    (==_iff key.id key_id).0 (find_sound (λ r. r.id == key_id) (visible s) {a = key} e)

discard_clean :
    (key : ApiKey) (s : Session)
    → IsClean s
    → discard key s ≡ (ok true, settled (without key.id s.rows) s)
unfolding discard without
discard_clean key s clean = rw (clean.no_pending, clean.no_doomed) refl

pub revoke_found-expected :
    (allowed : ApiKey → Bool) (found : Option ApiKey) (s : Session)
    → IsClean s
    → revoke_found allowed found s ≡ expected allowed found s
unfolding revoke_found expected
revoke_found-expected allowed none s clean = refl
revoke_found-expected allowed (some key) s clean = rw (discard_clean key s clean) refl

-- In a clean session `revoke_key` succeeds exactly if the row with the id exists and the caller owns
-- it; otherwise it returns false and changes nothing.
pub revoke_key_owner_only :
    (key_id user_id : Str) (s : Session)
    → IsClean s
    → (((revoke_key key_id user_id s).0 ≡ ok true)
        ↔ ((key : ApiKey) × (get_row key_id s ≡ some key) × (key.user_id ≡ user_id)))
      × ((revoke_key key_id user_id s).0 ≢ ok true → revoke_key key_id user_id s ≡ (ok false, s))
unfolding revoke_key
revoke_key_owner_only key_id user_id s clean =
    rw (revoke_found-expected (λ key. key.user_id == user_id) (get_row key_id s) s clean)
      (go (get_row key_id s))
  where
    go :
        (found : Option ApiKey)
        → (((expected (λ key. key.user_id == user_id) found s).0 ≡ ok true)
            ↔ ((key : ApiKey) × (found ≡ some key) × (key.user_id ≡ user_id)))
          × ((expected (λ key. key.user_id == user_id) found s).0 ≢ ok true
              → expected (λ key. key.user_id == user_id) found s ≡ (ok false, s))
    go none = unfold expected in ((λ e. cc, λ (key, e, o). cc), λ ne. refl)
    go (some key) =
        unfold expected in
        (
          (
            λ e. (key, refl, ground (arith, ==_iff key.user_id user_id)),
            λ (owned, e, o). ground (arith, ==_iff key.user_id user_id),
          ),
          λ ne. ground (arith, ==_iff key.user_id user_id),
        )

-- In a clean session an administrator's revocation succeeds exactly if the row exists, whoever owns
-- it.
pub revoke_key_as_admin_any :
    (key_id : Str) (s : Session)
    → IsClean s
    → ((revoke_key_as_admin key_id s).0 ≡ ok true) ↔ (get_row key_id s ≢ none)
unfolding revoke_key_as_admin
revoke_key_as_admin_any key_id s clean =
    rw (revoke_found-expected (λ key. true) (get_row key_id s) s clean) (go (get_row key_id s))
  where
    go : (found : Option ApiKey) → ((expected (λ key. true) found s).0 ≡ ok true) ↔ (found ≢ none)
    go none = unfold expected in (λ e. cc, λ ne. absurd (ne refl))
    go (some key) = unfold expected in (λ e. cc, λ ne. refl)

-- what is left after the row `key_id` is deleted
Gone : Platform → Str → ApiKey → Session → Session → Type 0
Gone os key_id key s t =
    (get_row key_id t ≡ none)
    × ((now : ℕ) (secret : Str) → os.sha256 secret ≡ key.key_hash → get_key os now secret t ≡ none)
    × ((j : Str) → j ≢ key_id → get_row j t ≡ get_row j s)
    × WellFormed t.rows

without-Gone :
    (os : Platform) (key_id : Str) (s : Session) {key : ApiKey}
    → IsClean s
    → WellFormed s.rows
    → get_row key_id s ≡ some key
    → Gone os key_id key s (settled (without key_id s.rows) s)
unfolding Gone
without-Gone os key_id s {key} clean wf e =
    let after : IsClean (settled (without key_id s.rows) s) = record {
      no_pending = refl;
      no_doomed = refl;
    } in
    (
      get_row_clean key_id (settled (without key_id s.rows) s) after
          ∙ find-without_self key_id s.rows,
      λ now secret same. refused now secret same,
      λ j ne.
          get_row_clean j (settled (without key_id s.rows) s) after
          ∙ find-without j key_id s.rows ne
          ∙ sym (get_row_clean j s clean),
      without-WellFormed key_id s.rows wf,
    )
  where
    refused :
        (now : ℕ) (secret : Str)
        → os.sha256 secret ≡ key.key_hash
        → get_key os now secret (settled (without key_id s.rows) s) ≡ none
    refused now secret same =
        get_key_clean os now secret (settled (without key_id s.rows) s)
          (record { no_pending = refl; no_doomed = refl })
        ∙ unfold hash_key live_or_none in
          rw
            (
              same,
              find-without_hash key_id s.rows {key = key} wf
                  (sym (get_row_clean key_id s clean) ∙ e),
            )
            refl

expected-Gone :
    (os : Platform) (allowed : ApiKey → Bool) (key_id : Str) (s t : Session) (key : ApiKey)
    → IsClean s
    → WellFormed s.rows
    → get_row key_id s ≡ some key
    → revoke_found allowed (get_row key_id s) s ≡ (ok true, t)
    → Gone os key_id key s t
unfolding expected
expected-Gone os allowed key_id s t key clean wf e h =
    let h' : expected allowed (some key) s ≡ (ok true, t) =
      ap (λ o. expected allowed o s) (sym e)
      ∙ sym (revoke_found-expected allowed (get_row key_id s) s clean)
      ∙ h in
    let same : t ≡ settled (without key_id s.rows) s =
      ground (arith, get_row-id key_id s {key = key} e) in
    rw same (without-Gone os key_id s clean wf e)

-- After a revocation, by the owner or by an administrator, the row is gone, its secret is refused at
-- every time, every other row is found as before, and the table's constraints hold; the session was
-- clean and its rows met the constraints.
pub revoked_for_good :
    (os : Platform) (key_id user_id : Str) (s t : Session) (key : ApiKey)
    → IsClean s
    → WellFormed s.rows
    → get_row key_id s ≡ some key
    → (revoke_key key_id user_id s ≡ (ok true, t)) ⊎ (revoke_key_as_admin key_id s ≡ (ok true, t))
    → (get_row key_id t ≡ none)
      × ((now : ℕ) (secret : Str)
          → os.sha256 secret ≡ key.key_hash
          → get_key os now secret t ≡ none)
      × ((j : Str) → j ≢ key_id → get_row j t ≡ get_row j s)
      × WellFormed t.rows
unfolding revoke_key revoke_key_as_admin Gone
revoked_for_good os key_id user_id s t key clean wf e (inl h) =
    expected-Gone os (λ k. k.user_id == user_id) key_id s t key clean wf e h
revoked_for_good os key_id user_id s t key clean wf e (inr h) =
    expected-Gone os (λ k. true) key_id s t key clean wf e h
