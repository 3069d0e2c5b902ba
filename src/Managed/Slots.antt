-- ===== src/Managed/Slots.antt =====
-- `ManagedApiKeyValidator`: the registered files, reloaded at every call.
pub mod Matching
pub mod Faults
use k8s_stack_keycloak_api_k.Base.{
  ℕ, zero, suc, Str, codes, ◌≡◌, Bool, true, false, not, ◌&&◌, ◌||◌, Option, none, some, List, [],
  ◌∷◌, ◌++◌, map, ◌==◌, nat_eq, str_eq, dedup, find, length, is_empty, if◌then◌else◌, Result, ok,
  err, ◌>>=◌, ◌>>◌, require,
}
use k8s_stack_keycloak_api_k.Json.{Json}
use k8s_stack_keycloak_api_k.Managed.Grant.{
  Raised, slot_fault, duplicate_verifiers, unicode_decode, incomplete, unreadable, ManagedApiKey,
  strip, parse_grant, parse_verifier,
}

-- `ManagedRegistration`
pub record ManagedRegistration : Type 0 where
  pub grant_file : Str
  pub verifier_file : Str

-- `_ManagedApiKeyVerifier`
pub record ManagedApiKeyVerifier : Type 0 where
  pub key : ManagedApiKey
  pub verifier : Str

-- `Path(file).read_text(encoding="utf-8")`: the text, an `OSError`, or a `UnicodeDecodeError`
pub data Reading : Type 0 where
  text : Str → Reading
  os_error decode_error : Reading

-- The files as they are at the call, `json.loads`, SHA-256 and `uuid.uuid5` of the URL namespace.
pub record Host : Type 0 where
  pub read_text : Str → Reading
  pub loads : Str → Option Json
  pub sha256 : Str → Str
  pub uuid5 : Str → Str

-- one of the program's slots: its index and its two files
pub record Slot : Type 0 where
  pub index : ℕ
  pub grant_file : Str
  pub verifier_file : Str

number_from : ℕ → List ManagedRegistration → List Slot
number_from n [] = []
number_from n (r ∷ rs) =
    record { index = n; grant_file = r.grant_file; verifier_file = r.verifier_file }
    ∷ number_from (suc n) rs

-- `__init__`
unfoldable pub files : List ManagedRegistration → List Slot
unfolding number_from
files registrations = number_from 1 registrations

-- `context_credential_id` names a key by this text
unfoldable pub context_name : ManagedApiKey → Str
context_name k =
    codes "keycloak-api-key-bridge/managed/" ++ (k.principal_client_id ++ (codes "/" ++ k.key_id))

keep : Option ManagedApiKeyVerifier → List ManagedApiKeyVerifier → List ManagedApiKeyVerifier
keep none vs = vs
keep (some v) vs = v ∷ vs

key_of : Option ManagedApiKeyVerifier → Option ManagedApiKey
key_of none = none
key_of (some v) = some v.key

-- `except OSError`, which a `UnicodeDecodeError` is not
text_of : ℕ → Reading → Result Raised Str
text_of slot (text s) = ok s
text_of slot os_error = err (slot_fault slot unreadable)
text_of slot decode_error = err unicode_decode

module _ (host : Host) where
  unfoldable pub context_credential_id : ManagedApiKey → Str
  unfolding context_name
  context_credential_id k = host.uuid5 (context_name k)

  read : ℕ → Str → Result Raised Str
  unfolding text_of
  read slot file = text_of slot (host.read_text file)

  -- both files have a name
  load_files : Slot → Result Raised (Option ManagedApiKeyVerifier)
  unfolding read
  load_files s = do
    grant_content ← read s.index s.grant_file
    verifier_content ← read s.index s.verifier_file
    if is_empty (strip verifier_content) then ok none else do
      key ← parse_grant host.loads s.index grant_content
      verifier ← parse_verifier s.index verifier_content
      ok (some (record { key = key; verifier = verifier }))

  unfoldable pub load_slot : Slot → Result Raised (Option ManagedApiKeyVerifier)
  unfolding load_files
  load_slot s =
      if is_empty s.grant_file && is_empty s.verifier_file
      then ok none
      else if is_empty s.grant_file || is_empty s.verifier_file
      then err (slot_fault s.index incomplete)
      else load_files s

  -- the comprehension over `self._files`, which stops at the first exception
  unfoldable pub load_all : List Slot → Result Raised (List ManagedApiKeyVerifier)
  unfolding load_slot keep
  load_all [] = ok []
  load_all (s ∷ ss) = load_slot s >>= λ loaded. load_all ss >>= λ rest. ok (keep loaded rest)

  unfoldable pub match : List Slot → Str → Result Raised (Option ManagedApiKey)
  unfolding load_all key_of
  match slots key_value = do
    verifiers ← load_all slots
    let digests = map (λ (v : ManagedApiKeyVerifier). v.verifier) verifiers
    require (length (dedup digests) == length verifiers) duplicate_verifiers
    ok (key_of (find (λ v. host.sha256 key_value == v.verifier) verifiers))

  unfoldable pub metadata : List Slot → Result Raised (List ManagedApiKey)
  unfolding load_all
  metadata slots = do
    verifiers ← load_all slots
    ok (map (λ (v : ManagedApiKeyVerifier). v.key) verifiers)
