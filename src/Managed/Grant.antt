-- ===== src/Managed/Grant.antt =====
-- `_parse_grant` and `_parse_verifier`.
pub mod Faults
pub mod Valid
use k8s_stack_keycloak_api_k.Base.{
  ℕ, zero, suc, Str, codes, ◌≡◌, Bool, true, false, not, ◌&&◌, ◌||◌, Option, none, some, List, [],
  ◌∷◌, ◌++◌, ◌==◌, nat_eq, str_eq, all, contains, dedup, subset, length, is_empty, leb,
  if◌then◌else◌, Result, ok, err, ◌>>=◌, ◌>>◌, require, or_raise,
}
use k8s_stack_keycloak_api_k.Sorting.{sort, str_ord}
use k8s_stack_keycloak_api_k.Regex.{Regex, cls, lit, seq, upto, fullmatch, is_alnum, is_digit}
use k8s_stack_keycloak_api_k.Permissions.{is_valid_permission}
use k8s_stack_keycloak_api_k.Json.{
  Json, Fields, get, keys, as_str, as_list, as_dict, is_text, is_number, all_texts,
}

pub data Reason : Type 0 where
  incomplete unreadable bad_json bad_fields bad_version bad_id bad_name bad_principal : Reason
  bad_client_id bad_permissions bad_verifier : Reason

-- What leaves the validator: `ManagedApiKeyConfigurationError`, for one slot or for duplicate
-- verifiers, and the `UnicodeDecodeError` of a file that is not UTF-8.
pub data Raised : Type 0 where
  slot_fault : ℕ → Reason → Raised
  duplicate_verifiers : Raised
  unicode_decode : Raised

-- `ManagedApiKey`; the slot is its index
pub record ManagedApiKey : Type 0 where
  pub slot : ℕ
  pub key_id : Str
  pub name : Str
  pub principal_client_id : Str
  pub permissions : List Str

-- `p{n}`
times : ℕ → (ℕ → Bool) → Regex
times zero p = lit []
times (suc n) p = seq (cls p) (times n p)

-- `[0-9a-f]`
abbrev pub is_hex : ℕ → Bool
is_hex c = is_digit c || (leb b'a' c && leb c b'f')

-- `[A-Za-z0-9._-]`
abbrev pub is_id_char : ℕ → Bool
is_id_char c = is_alnum c || c == b'.' || c == b'_' || c == b'-'

pub verifier_pattern : Regex
unfolding times
verifier_pattern = times 64 is_hex

-- `_KEY_ID_PATTERN`, which `_CLIENT_ID_PATTERN` repeats
pub key_id_pattern : Regex
key_id_pattern = seq (cls is_alnum) (upto 127 is_id_char)

-- `str.isspace` of one character
abbrev pub is_space : ℕ → Bool
is_space c =
    (leb 9 c && leb c 13)
    || ((leb 28 c && leb c 32)
        || (contains c (133 ∷ 160 ∷ 5760 ∷ [])
            || ((leb 8192 c && leb c 8202) || contains c (8232 ∷ 8233 ∷ 8239 ∷ 8287 ∷ 12288 ∷ []))))

lstrip : Str → Str
lstrip [] = []
lstrip (c ∷ s) = let rest = lstrip s in if is_space c then rest else c ∷ s

rstrip : Str → Str
rstrip [] = []
rstrip (c ∷ s) = let rest = rstrip s in if is_space c && is_empty rest then [] else c ∷ rest

unfoldable pub strip : Str → Str
unfolding lstrip rstrip
strip s = rstrip (lstrip s)

unfoldable pub parse_verifier : ℕ → Str → Result Raised Str
unfolding verifier_pattern strip
parse_verifier slot content = do
  let verifier = strip content
  require (fullmatch verifier_pattern verifier) (slot_fault slot bad_verifier)
  ok verifier

-- `set(d) == {…}`, as the sets of their members
abbrev pub same_set : List Str → List Str → Bool
same_set xs ys = subset xs ys && subset ys xs

abbrev pub grant_fields : List Str
grant_fields =
    codes "version" ∷ codes "id" ∷ codes "name" ∷ codes "principal" ∷ codes "permissions" ∷ []

-- the id or the name of a grant
identifier : ℕ → Reason → Json → Result Raised Str
unfolding key_id_pattern
identifier slot reason j = do
  s ← or_raise (as_str j) (slot_fault slot reason)
  require (fullmatch key_id_pattern s) (slot_fault slot reason)
  ok s

parse_principal : ℕ → Json → Result Raised Str
unfolding key_id_pattern
parse_principal slot j = do
  principal ← or_raise (as_dict j) (slot_fault slot bad_principal)
  require (same_set (keys principal) (codes "kind" ∷ codes "client_id" ∷ []))
      (slot_fault slot bad_principal)
  require (is_text (codes "service_account") (get (codes "kind") principal))
      (slot_fault slot bad_principal)
  client_id ← or_raise (as_str (get (codes "client_id") principal)) (slot_fault slot bad_principal)
  require (fullmatch key_id_pattern client_id) (slot_fault slot bad_client_id)
  ok client_id

parse_permissions : ℕ → Json → Result Raised (List Str)
parse_permissions slot j = do
  entries ← or_raise (as_list j) (slot_fault slot bad_permissions)
  permissions ← or_raise (all_texts entries) (slot_fault slot bad_permissions)
  require
      (not (is_empty permissions)
        && (all is_valid_permission permissions
            && length (dedup permissions) == length permissions))
      (slot_fault slot bad_permissions)
  ok permissions

-- `_parse_grant` behind `json.loads`; the checks come in the program's order
unfoldable pub grant_of : ℕ → Json → Result Raised ManagedApiKey
unfolding identifier parse_principal parse_permissions
grant_of slot j = do
  fields ← or_raise (as_dict j) (slot_fault slot bad_fields)
  require (same_set (keys fields) grant_fields) (slot_fault slot bad_fields)
  require (is_number 2 (get (codes "version") fields)) (slot_fault slot bad_version)
  key_id ← identifier slot bad_id (get (codes "id") fields)
  name ← identifier slot bad_name (get (codes "name") fields)
  client_id ← parse_principal slot (get (codes "principal") fields)
  permissions ← parse_permissions slot (get (codes "permissions") fields)
  ok (record {
    slot = slot;
    key_id = key_id;
    name = name;
    principal_client_id = client_id;
    permissions = sort permissions;
  })

-- `json.loads` is `loads`, with `none` for a `JSONDecodeError`
unfoldable pub parse_grant : (Str → Option Json) → ℕ → Str → Result Raised ManagedApiKey
unfolding grant_of
parse_grant loads slot content = do
  j ← or_raise (loads content) (slot_fault slot bad_json)
  grant_of slot j
