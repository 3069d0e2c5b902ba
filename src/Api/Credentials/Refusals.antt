-- ===== src/Api/Credentials/Refusals.antt =====
-- Every request without a usable credential gets the same refusal.
use k8s_stack_keycloak_api_k.Base.{
  Str, ◌≡◌, refl, Bool, true, false, not, ◌&&◌, Option, none, some, ◌==◌, str_eq, any, is_empty,
  Result, ok, err, ◌>>=◌, ◌>>◌, or_raise, require,
}
use k8s_stack_keycloak_api_k.Api.Http.{Codec, Failure, HttpRequest, getlist}
use k8s_stack_keycloak_api_k.Api.Credentials.{
  Mode, neurwerk, proxy, header_name, expected_scheme, invalid_credentials, match_authorization,
  lower, single_value, partition_colon, is_control, basic_password, dedicated_api_key,
}

abbrev pub IsInvalid {ℓ} : {A : Type ℓ} → Result Failure A → Type 0
IsInvalid (ok a) = Unit
IsInvalid (err e) = e ≡ invalid_credentials

module _ {ℓ κ} {A : Type ℓ} {B : Type κ} where
  IsInvalid-or_raise :
      (o : Option A) (f : A → Result Failure B)
      → ((a : A) → IsInvalid (f a))
      → IsInvalid (or_raise o invalid_credentials >>= f)
  IsInvalid-or_raise none f h = refl
  IsInvalid-or_raise (some a) f h = h a

IsInvalid-require {ℓ} :
    {A : Type ℓ} (t : Bool) (m : Result Failure A)
    → IsInvalid m
    → IsInvalid (require t invalid_credentials >> m)
IsInvalid-require true m h = h
IsInvalid-require false m h = refl

module _ (codec : Codec) where
  basic_password-IsInvalid : (token : Str) → IsInvalid (basic_password codec token)
  unfolding basic_password
  basic_password-IsInvalid token = IsInvalid-or_raise (codec.b64decode token) _ (λ decoded.
      IsInvalid-or_raise (codec.utf8_decode decoded) _ (λ user_pass.
        IsInvalid-require
          (codec.b64encode decoded == token
            && (not (is_empty (partition_colon user_pass).0)
                && (not (is_empty (partition_colon user_pass).1)
                    && not (any is_control user_pass))))
          (ok (partition_colon user_pass).1) tt))

  pub dedicated_api_key-IsInvalid :
      (request : HttpRequest) (mode : Mode) → IsInvalid (dedicated_api_key codec request mode)
  unfolding dedicated_api_key
  dedicated_api_key-IsInvalid request mode =
      IsInvalid-or_raise (single_value (getlist (header_name mode) request)) _ (λ value.
        IsInvalid-or_raise (match_authorization value) _ (λ groups.
          IsInvalid-require (lower groups.0 == expected_scheme mode) _ (by_mode mode groups.1)))
    where
      by_mode :
          (m : Mode) (token : Str)
          → IsInvalid {A = Str}
              (elim m [ neurwerk ↦ ok token | proxy ↦ basic_password codec token ])
      by_mode neurwerk token = tt
      by_mode proxy token = basic_password-IsInvalid token
