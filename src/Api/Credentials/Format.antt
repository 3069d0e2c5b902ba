-- ===== src/Api/Credentials/Format.antt =====
-- The split of an authorization header by longest runs is the match of its pattern.
use k8s_stack_keycloak_api_k.Base.{
  ℕ, ◌≤◌, Str, codes, ◌≡◌, ◌↔◌, refl, sym, ap, ap₂, subst, ◌∙◌, Bool, true, false, not, ◌&&◌,
  Option, some, List, [], ◌∷◌, ◌++◌, ◌==◌, ==_iff, nat_eq, str_eq, All, length, ltb, is_empty,
  Bool-cases, Option-cases, inl, inr, arith, ok,
}
use k8s_stack_keycloak_api_k.Regex.{Matches, fullmatch, is_letter}
use k8s_stack_keycloak_api_k.Regex.Laws.{fullmatch_iff}
use k8s_stack_keycloak_api_k.Api.Http.{Codec, HttpRequest, getlist}
use k8s_stack_keycloak_api_k.Api.Credentials.{
  max_authorization_header_length, is_blank, span, token_pattern, match_authorization, single_value,
  lower, neurwerk, dedicated_api_key,
}

span_sound :
    (p : ℕ → Bool) (s : Str)
    → (s ≡ (span p s).0 ++ (span p s).1) × All (λ c. p c ≡ true) (span p s).0
unfolding span
span_sound p [] = (refl, tt)
span_sound p (c ∷ s) = elim (Bool-cases (p c)) [
  | inl here ↦ let (e, h) = span_sound p s in rw here (ap (λ t. c ∷ t) e, (here, h))
  | inr stop ↦ rw stop (refl, tt)
]

span-append :
    (p : ℕ → Bool) (u : Str) (c : ℕ) (v : Str)
    → All (λ d. p d ≡ true) u
    → p c ≡ false
    → span p (u ++ c ∷ v) ≡ (u, c ∷ v)
unfolding span
span-append p [] c v h stop = rw stop refl
span-append p (d ∷ u) c v h stop = rw (h.0, span-append p u c v h.1 stop) refl

-- A header value of the pattern `([A-Za-z]+) +([A-Za-z0-9._~+/-]+=*)`, with its two groups.
pub record IsAuthorization (value scheme credential : Str) : Type 0 where
  pub blanks : Str
  pub whole : value ≡ scheme ++ (blanks ++ credential)
  pub has_scheme : is_empty scheme ≡ false
  pub letters : All (λ c. is_letter c ≡ true) scheme
  pub has_blank : is_empty blanks ≡ false
  pub all_blank : All (λ c. is_blank c ≡ true) blanks
  pub token : Matches token_pattern credential

split_at_runs :
    (scheme blanks credential : Str)
    → All (λ c. is_letter c ≡ true) scheme
    → All (λ c. is_blank c ≡ true) blanks
    → is_empty blanks ≡ false
    → Matches token_pattern credential
    → (span is_letter (scheme ++ (blanks ++ credential)) ≡ (scheme, blanks ++ credential))
      × (span is_blank (blanks ++ credential) ≡ (blanks, credential))
unfolding token_pattern
split_at_runs scheme [] credential l b has m = cc
split_at_runs scheme (c ∷ blanks) credential l b has (u, v, e, (d, e', here), rest) = (
  span-append is_letter scheme c (blanks ++ credential) l (ground (arith, b.0)),
  let starts : credential ≡ d ∷ v = e ∙ ap (λ t. t ++ v) e' in
      rw starts (span-append is_blank (c ∷ blanks) d v b (ground (arith, here))),
)

-- A header value is taken apart exactly if it matches the pattern, and into the pattern's groups.
pub match_authorization_iff :
    (value scheme credential : Str)
    → (match_authorization value ≡ some (scheme, credential))
      ↔ IsAuthorization value scheme credential
unfolding match_authorization
match_authorization_iff value scheme credential = (
  λ h. sound h,
  λ is.
      let (p, q) =
        split_at_runs scheme is.blanks credential is.letters is.all_blank is.has_blank is.token in
      rw
        (
          is.whole,
          p,
          q,
          is.has_scheme,
          is.has_blank,
          (fullmatch_iff token_pattern credential).1 is.token,
        )
        refl,
)
  where
    sound :
        match_authorization value ≡ some (scheme, credential)
        → IsAuthorization value scheme credential
    sound h =
        let a : Str × Str = span is_letter value in
        let b : Str × Str = span is_blank a.1 in
        elim (Bool-cases
          (not (is_empty a.0) && (not (is_empty b.0) && fullmatch token_pattern b.1))) [
            | inl passed ↦
                let found : ◌≡◌ {A = Option (Str × Str)} (some (a.0, b.1))
                    (some (scheme, credential)) =
                  rw (match_authorization, passed) at h in
                let p : a.0 ≡ scheme = cc in
                let q : b.1 ≡ credential = cc in
                record {
                  blanks = b.0;
                  whole =
                      (span_sound is_letter value).0
                      ∙ ap₂ (λ u v. u ++ v) p ((span_sound is_blank a.1).0 ∙ ap (λ v. b.0 ++ v) q);
                  has_scheme = sym (ap is_empty p) ∙ ground (arith, passed);
                  letters = subst (All (λ c. is_letter c ≡ true)) p (span_sound is_letter value).1;
                  has_blank = ground (arith, passed);
                  all_blank = (span_sound is_blank a.1).1;
                  token =
                      (fullmatch_iff token_pattern credential).0
                        (sym (ap (fullmatch token_pattern) q) ∙ ground (arith, passed));
                }
            | inr failed ↦ absurd (cc (rw (match_authorization, failed) at h))
          ]

single_value_iff :
    (values : List Str) (value : Str)
    → (single_value values ≡ some value)
      ↔ ((values ≡ value ∷ []) × (length value ≤ max_authorization_header_length))
unfolding single_value
single_value_iff [] value = (λ h. cc, λ h. absurd (cc h.0))
single_value_iff (v ∷ []) value =
    elim (Bool-cases (ltb max_authorization_header_length (length v))) [
      | inl long ↦ rw long (
        λ h. cc,
        λ h. let same : v ≡ value = cc h.0 in absurd (ground (arith, long, rw (← same) at h.1)),
      )
      | inr short ↦ rw short (
        λ h.
            let same : v ≡ value = cc h in
            (ap (λ x. x ∷ []) same, subst (λ x. length x ≤ 8192) same (ground (arith, short))),
        λ h. cc h.0,
      )
    ]
single_value_iff (v ∷ w ∷ values) value = (λ h. cc, λ h. absurd (cc h.0))

-- What a request must carry for the bearer token `token` to be its credential.
pub record Bears (request : HttpRequest) (token : Str) : Type 0 where
  pub value : Str
  pub scheme : Str
  pub once : getlist (codes "authorization") request ≡ value ∷ []
  pub short : length value ≤ max_authorization_header_length
  pub form : IsAuthorization value scheme token
  pub bearer : lower scheme ≡ codes "bearer"

-- In the mode for the gateway's own header a token is taken from a request exactly if the request
-- has one such header, of at most 8192 characters, which matches the pattern with the scheme bearer
-- in any case of letters and with that token.
pub dedicated_api_key_iff :
    (codec : Codec) (request : HttpRequest) (token : Str)
    → (dedicated_api_key codec request neurwerk ≡ ok token) ↔ Bears request token
unfolding dedicated_api_key
dedicated_api_key_iff codec request token = (
  λ h. elim (Option-cases (single_value (getlist (codes "authorization") request))) [
    | inl missing ↦ absurd (cc (rw (dedicated_api_key, missing) at h))
    | inr (value, one) ↦ elim (Option-cases (match_authorization value)) [
      | inl bad ↦ absurd (cc (rw (dedicated_api_key, one, bad) at h))
      | inr ((scheme, credential), good) ↦ elim (Bool-cases (lower scheme == codes "bearer")) [
        | inl bearer ↦
            let same : credential ≡ token = cc (rw (dedicated_api_key, one, good, bearer) at h) in
            let (once, short) =
              (single_value_iff (getlist (codes "authorization") request) value).0 one in
            record {
              value = value;
              scheme = scheme;
              once = once;
              short = short;
              form =
                  subst (IsAuthorization value scheme) same
                    ((match_authorization_iff value scheme credential).0 good);
              bearer = (==_iff (lower scheme) (codes "bearer")).0 bearer;
            }
        | inr other ↦ absurd (cc (rw (dedicated_api_key, one, good, other) at h))
      ]
    ]
  ],
  λ b.
      rw
        (
          (single_value_iff (getlist (codes "authorization") request) b.value).1 (b.once, b.short),
          (match_authorization_iff b.value b.scheme token).1 b.form,
          (==_iff (lower b.scheme) (codes "bearer")).1 b.bearer,
        )
        refl,
)
