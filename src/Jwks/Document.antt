-- ===== src/Jwks/Document.antt =====
-- What `_parse_jwks` accepts.
use k8s_stack_keycloak_api_k.Base.{
  Str, codes, ◌≡◌, ◌≢◌, ◌⊎◌, refl, ap, true, not, ◌&&◌, Option, none, some, ==_iff, List, [], ◌∷◌,
  str_eq, lookup, is_empty, arith, and-true, inl, inr, Bool-cases, ok, ◌>>◌, require, or_raise,
  Ensures, Ensures-bind, Ensures-then, Ensures-require, Ensures-ok,
}
use k8s_stack_keycloak_api_k.Json.{
  Json, Fields, null, bool, num, other_num, str, arr, obj, is_text, get, as_list, as_dict,
  as_nonempty_str,
}
use k8s_stack_keycloak_api_k.Jwks.{
  SigningKeys, no_keys_list, non_object, no_kid, incomplete, duplicate_kid, no_usable_key,
  is_signing_use, is_candidate, is_text_field, is_known, add_key, step, collect, parse_jwks,
}

-- An RS256 key for signatures, filed under its own identifier, with modulus and exponent.
pub record IsSigningKey (kid : Str) (key : Fields) : Type 0 where
  pub candidate : is_candidate key ≡ true
  pub rsa : get (codes "kty") key ≡ str (codes "RSA")
  pub rs256 : get (codes "alg") key ≡ str (codes "RS256")
  pub signs : (get (codes "use") key ≡ null) ⊎ (get (codes "use") key ≡ str (codes "sig"))
  pub named : as_nonempty_str (get (codes "kid") key) ≡ some kid
  pub modulus : is_text_field (get (codes "n") key) ≡ true
  pub exponent : is_text_field (get (codes "e") key) ≡ true

-- Every entry is such a key, and no identifier is there twice.
abbrev pub AreSigningKeys : SigningKeys → Type 0
AreSigningKeys [] = Unit
AreSigningKeys ((kid, key) ∷ keys) =
    IsSigningKey kid key × (lookup kid keys ≡ none) × AreSigningKeys keys

is_text_sound : (t : Str) (j : Json) → is_text t j ≡ true → j ≡ str t
is_text_sound t (str s) h = ap str ((==_iff s t).0 h)
is_text_sound t null h = absurd (cc h)
is_text_sound t (bool b) h = absurd (cc h)
is_text_sound t (num n) h = absurd (cc h)
is_text_sound t other_num h = absurd (cc h)
is_text_sound t (arr js) h = absurd (cc h)
is_text_sound t (obj fs) h = absurd (cc h)

is_signing_use_sound : (j : Json) → is_signing_use j ≡ true → (j ≡ null) ⊎ (j ≡ str (codes "sig"))
unfolding is_signing_use
is_signing_use_sound null h = inl refl
is_signing_use_sound (str s) h = inr (ap str ((==_iff s (codes "sig")).0 h))
is_signing_use_sound (bool b) h = absurd (cc h)
is_signing_use_sound (num n) h = absurd (cc h)
is_signing_use_sound other_num h = absurd (cc h)
is_signing_use_sound (arr js) h = absurd (cc h)
is_signing_use_sound (obj fs) h = absurd (cc h)

candidate_parts :
    (key : Fields)
    → is_candidate key ≡ true
    → (is_text (codes "RSA") (get (codes "kty") key) ≡ true)
      × (is_text (codes "RS256") (get (codes "alg") key) ≡ true)
      × (is_signing_use (get (codes "use") key) ≡ true)
unfolding is_candidate
candidate_parts key h =
    let (use_fits, rest) = and-true _ _ h in
    let (type_fits, algorithm_fits) = and-true _ _ rest in (type_fits, algorithm_fits, use_fits)

unknown : (kid : Str) (keys : SigningKeys) → not (is_known kid keys) ≡ true → lookup kid keys ≡ none
unfolding is_known
unknown kid keys h = ground arith

add_key_sound :
    (key : Fields) (keys : SigningKeys)
    → is_candidate key ≡ true
    → AreSigningKeys keys
    → Ensures AreSigningKeys (add_key key keys)
unfolding add_key
add_key_sound key keys candidate h =
    Ensures-then AreSigningKeys (or_raise (as_nonempty_str (get (codes "kid") key)) no_kid) _
      λ kid named.
        Ensures-require AreSigningKeys
          (is_text_field (get (codes "n") key) && is_text_field (get (codes "e") key)) incomplete
          (require (not (is_known kid keys)) duplicate_kid >> ok ((kid, key) ∷ keys))
          λ complete.
            Ensures-require AreSigningKeys (not (is_known kid keys)) duplicate_kid
              (ok ((kid, key) ∷ keys))
              λ new. (
                record {
                  candidate = candidate;
                  rsa =
                      is_text_sound (codes "RSA") (get (codes "kty") key)
                        (candidate_parts key candidate).0;
                  rs256 =
                      is_text_sound (codes "RS256") (get (codes "alg") key)
                        (candidate_parts key candidate).1;
                  signs =
                      is_signing_use_sound (get (codes "use") key)
                        (candidate_parts key candidate).2;
                  named = from_or_raise (as_nonempty_str (get (codes "kid") key)) named;
                  modulus = (and-true _ _ complete).0;
                  exponent = (and-true _ _ complete).1;
                },
                unknown kid keys new,
                h,
              )
  where
    from_or_raise : (o : Option Str) {kid : Str} → or_raise o no_kid ≡ ok kid → o ≡ some kid
    from_or_raise none e = cc
    from_or_raise (some x) e = cc

step_sound :
    (j : Json) (keys : SigningKeys) → AreSigningKeys keys → Ensures AreSigningKeys (step j keys)
unfolding step
step_sound j keys h = Ensures-then AreSigningKeys (or_raise (as_dict j) non_object) _ λ key _.
    elim (Bool-cases (is_candidate key)) [
      | inl candidate ↦ rw candidate (add_key_sound key keys candidate h)
      | inr other ↦ rw other h
    ]

collect_sound :
    (js : List Json) (keys : SigningKeys)
    → AreSigningKeys keys
    → Ensures AreSigningKeys (collect js keys)
unfolding collect
collect_sound [] keys h = h
collect_sound (j ∷ js) keys h =
    Ensures-bind AreSigningKeys AreSigningKeys (step j keys) (λ keys'. collect js keys')
      (step_sound j keys h) (λ keys' h'. collect_sound js keys' h')

abbrev pub Usable : SigningKeys → Type 0
Usable keys = (keys ≢ []) × AreSigningKeys keys

-- A JWKS document that is accepted gives at least one key, and only complete RS256 signing keys,
-- each under its own identifier and no identifier twice.
pub parse_jwks-Usable :
    (document : Fields) (keys : SigningKeys) → parse_jwks document ≡ ok keys → Usable keys
unfolding parse_jwks
parse_jwks-Usable document keys = Ensures-ok Usable (parse_jwks document) (
    Ensures-then Usable (or_raise (as_list (get (codes "keys") document)) no_keys_list) _
      λ raw_keys _.
        Ensures-bind AreSigningKeys Usable (collect raw_keys []) _ (collect_sound raw_keys [] tt)
          λ keys h.
            Ensures-require Usable (not (is_empty keys)) no_usable_key (ok keys)
              λ some_key. ((λ e. cc (ap (λ ks. not (is_empty ks)) e)), h))
