-- ===== src/Api/Credentials.antt =====
-- `_dedicated_api_key` of controllers/api_keys.py: the secret in a request's credential header.
pub mod Format
pub mod Refusals
use k8s_stack_keycloak_api_k.Base.{
  ℕ, suc, ◌+◌, Str, codes, Bool, true, false, not, ◌&&◌, ◌||◌, Option, none, some, List, [], ◌∷◌,
  map, ◌==◌, nat_eq, str_eq, any, all, length, is_empty, leb, ltb, if◌then◌else◌, Result, ok, err,
  ◌>>=◌, ◌>>◌, require, or_raise,
}
use k8s_stack_keycloak_api_k.Regex.{Regex, cls, seq, many, fullmatch, is_letter, is_alnum}
use k8s_stack_keycloak_api_k.Api.Http.{Codec, Failure, http_error, HttpRequest, getlist}

pub data Mode : Type 0 where
  neurwerk proxy : Mode

abbrev pub header_name : Mode → Str
header_name neurwerk = codes "authorization"
header_name proxy = codes "proxy-authorization"

abbrev pub expected_scheme : Mode → Str
expected_scheme neurwerk = codes "bearer"
expected_scheme proxy = codes "basic"

abbrev pub max_authorization_header_length : ℕ
max_authorization_header_length = 8192

abbrev pub invalid_credentials : Failure
invalid_credentials = http_error 401 "Invalid authentication credentials"

-- `[A-Za-z0-9._~+/-]`
abbrev pub is_token_char : ℕ → Bool
is_token_char c =
    is_alnum c
    || (c == b'.' || (c == b'_' || (c == b'~' || (c == b'+' || (c == b'/' || c == b'-')))))

abbrev pub is_blank : ℕ → Bool
is_blank c = c == b' '

abbrev pub is_equals : ℕ → Bool
is_equals c = c == b'='

-- the longest prefix in a class, and the rest
pub span : (ℕ → Bool) → Str → Str × Str
span p [] = ([], [])
span p (c ∷ s) = let (u, v) = span p s in if p c then (c ∷ u, v) else ([], c ∷ s)

-- the second group of `_AUTHORIZATION_PATTERN`, `[A-Za-z0-9._~+/-]+=*`
pub token_pattern : Regex
token_pattern = seq (cls is_token_char) (seq (many is_token_char) (many is_equals))

-- `_AUTHORIZATION_PATTERN.fullmatch(value)` as its two groups. Letters, blanks and token characters
-- other than letters are apart, so that the split by longest runs is the only one.
unfoldable pub match_authorization : Str → Option (Str × Str)
unfolding span token_pattern
match_authorization value =
    let (scheme, rest) = span is_letter value in
    let (blanks, credential) = span is_blank rest in
    if not (is_empty scheme) && (not (is_empty blanks) && fullmatch token_pattern credential)
    then some (scheme, credential)
    else none

-- `str.lower` of ASCII letters
abbrev pub lower : Str → Str
lower [] = []
lower (c ∷ s) = (if leb b'A' c && leb c b'Z' then c + 32 else c) ∷ lower s

-- the value of the mode's header, if it is sent once and is not too long
single_value : List Str → Option Str
single_value (value ∷ []) =
    if ltb max_authorization_header_length (length value) then none else some value
single_value _ = none

-- the text before the first colon, and after it
partition_colon : Str → Str × Str
partition_colon [] = ([], [])
partition_colon (c ∷ s) =
    let (u, v) = partition_colon s in if c == b':' then ([], s) else (c ∷ u, v)

abbrev is_control : ℕ → Bool
is_control c = ltb c 32 || c == 127

module _ (codec : Codec) where
  -- the password of a Basic credential
  basic_password : Str → Result Failure Str
  unfolding partition_colon
  basic_password token = do
    decoded ← or_raise (codec.b64decode token) invalid_credentials
    user_pass ← or_raise (codec.utf8_decode decoded) invalid_credentials
    let (username, key_value) = partition_colon user_pass
    require
        (codec.b64encode decoded == token
          && (not (is_empty username)
              && (not (is_empty key_value) && not (any is_control user_pass))))
        invalid_credentials
    ok key_value

  unfoldable pub dedicated_api_key : HttpRequest → Mode → Result Failure Str
  unfolding getlist single_value match_authorization basic_password
  dedicated_api_key request mode = do
    value ← or_raise (single_value (getlist (header_name mode) request)) invalid_credentials
    groups ← or_raise (match_authorization value) invalid_credentials
    require (lower groups.0 == expected_scheme mode) invalid_credentials
    elim mode [ neurwerk ↦ ok groups.1 | proxy ↦ basic_password groups.1 ]
