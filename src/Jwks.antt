-- ===== src/Jwks.antt =====
-- src/keycloak_api_key_bridge/lib/jwks.py: the signing keys in memory.
pub mod Document
pub mod Refresh
pub mod Thread
pub mod Keeping
use k8s_stack_keycloak_api_k.Base.{
  ℕ, Str, codes, ◌≡◌, Bool, true, false, not, ◌&&◌, ◌||◌, Option, none, some, List, [], ◌∷◌, ◌++◌,
  ◌==◌, str_eq, lookup, is_empty, if◌then◌else◌, Result, ok, err, ◌>>=◌, ◌>>◌, require, or_raise,
}
use k8s_stack_keycloak_api_k.Json.{
  Json, Fields, null, str, get, as_str, as_list, as_dict, as_nonempty_str, is_text,
}
use k8s_stack_keycloak_api_k.Keycloak.Exec.{Client, World, KcError}
use k8s_stack_keycloak_api_k.Keycloak.Requests.{fetch_jwks, mark_unavailable}

-- a `dict` from key identifier to key
abbrev pub SigningKeys : Type 0
SigningKeys = List (Str × Fields)

-- the `ValueError`s of `_parse_jwks`
pub data BadJwks : Type 0 where
  no_keys_list non_object no_kid incomplete duplicate_kid no_usable_key : BadJwks

-- `raw_key.get("use") in (None, "sig")`
pub is_signing_use : Json → Bool
is_signing_use null = true
is_signing_use (str s) = s == codes "sig"
is_signing_use _ = false

-- the entries that the loop does not pass over
pub is_candidate : Fields → Bool
unfolding is_signing_use
is_candidate raw_key =
    is_signing_use (get (codes "use") raw_key)
    && (is_text (codes "RSA") (get (codes "kty") raw_key)
        && is_text (codes "RS256") (get (codes "alg") raw_key))

pub is_text_field : Json → Bool
is_text_field j = elim (as_str j) [ none ↦ false | some s ↦ true ]

is_known : Str → SigningKeys → Bool
is_known kid keys = elim (lookup kid keys) [ none ↦ false | some key ↦ true ]

-- one candidate, added behind the keys so far
add_key : Fields → SigningKeys → Result BadJwks SigningKeys
unfolding is_text_field is_known
add_key raw_key keys = do
  kid ← or_raise (as_nonempty_str (get (codes "kid") raw_key)) no_kid
  require (is_text_field (get (codes "n") raw_key) && is_text_field (get (codes "e") raw_key))
      incomplete
  require (not (is_known kid keys)) duplicate_kid
  ok ((kid, raw_key) ∷ keys)

step : Json → SigningKeys → Result BadJwks SigningKeys
unfolding is_candidate add_key
step j keys = do
  raw_key ← or_raise (as_dict j) non_object
  if is_candidate raw_key then add_key raw_key keys else ok keys

collect : List Json → SigningKeys → Result BadJwks SigningKeys
unfolding step
collect [] keys = ok keys
collect (j ∷ js) keys = step j keys >>= λ keys'. collect js keys'

-- `_parse_jwks`
unfoldable pub parse_jwks : Fields → Result BadJwks SigningKeys
unfolding collect
parse_jwks document = do
  raw_keys ← or_raise (as_list (get (codes "keys") document)) no_keys_list
  keys ← collect raw_keys []
  require (not (is_empty keys)) no_usable_key
  ok keys

-- `JWKSCache`, with the client that it shares
pub record Cache : Type 0 where
  pub client : Client
  pub keys : Option SigningKeys

-- `invalidate`
unfoldable pub invalidate : Cache → Cache
invalidate c = record c { keys = none }

-- `is_available`
unfoldable pub is_available : Cache → Bool
is_available c = elim c.keys [ none ↦ false | some keys ↦ true ]

-- `get_key`
unfoldable pub get_key : Str → Cache → Option Fields
get_key kid c = elim c.keys [ none ↦ none | some keys ↦ lookup kid keys ]

clear : Cache → Bool × Cache
unfolding mark_unavailable invalidate
clear c = (false, invalidate (record c { client = mark_unavailable c.client }))

install : Result BadJwks SigningKeys → Cache → Bool × Cache
unfolding clear
install (ok keys) c = (true, record c { keys = some keys })
install (err e) c = clear c

after_fetch : Option SigningKeys → Result KcError Fields × Client → Bool × Cache
unfolding install clear parse_jwks
after_fetch old (ok document, client) =
    install (parse_jwks document) (record { client = client; keys = old })
after_fetch old (err e, client) = clear (record { client = client; keys = old })

-- `refresh`: any exception of the fetch or of the parse clears everything
unfoldable pub refresh : World → Cache → Bool × Cache
unfolding after_fetch fetch_jwks
refresh w c = after_fetch c.keys (fetch_jwks w c.client)

-- One round of `_run` and the delay after it.
unfoldable pub run_once : World → ℕ → ℕ → Cache → ℕ × Cache
unfolding refresh
run_once w refresh_interval retry_interval c =
    let (succeeded, c') = refresh w c in
    (if succeeded then refresh_interval else retry_interval, c')
