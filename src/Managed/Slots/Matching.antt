-- ===== src/Managed/Slots/Matching.antt =====
-- Which presented secret a managed key answers to, and how broken or disabled slots behave.
use k8s_stack_keycloak_api_k.Base.{
  suc, Str, ◌≡◌, ◌↔◌, refl, sym, ap, ◌∙◌, true, Option, none, some, List, [], ◌∷◌, map, ◌==◌,
  ==_iff, ==_refl, nat_eq, nat_beq_iff, str_eq, contains, Distinct, dedup, dedup_of_Distinct,
  Distinct-of_length, find, length, arith, inl, inr, Bool-cases, Option-cases, Result, ok, err,
  ◌>>=◌, require,
}
use mathlib.Core.List.{Memᴰ}
use k8s_stack_keycloak_api_k.Managed.Grant.{Raised, duplicate_verifiers, ManagedApiKey}
use k8s_stack_keycloak_api_k.Managed.Slots.{
  ManagedApiKeyVerifier, Host, Slot, load_all, key_of, match,
}

abbrev digests : List ManagedApiKeyVerifier → List Str
digests vs = map (λ (v : ManagedApiKeyVerifier). v.verifier) vs

length-digests : (vs : List ManagedApiKeyVerifier) → length (digests vs) ≡ length vs
length-digests [] = refl
length-digests (v ∷ vs) = ap suc (length-digests vs)

contains-digests :
    (v : ManagedApiKeyVerifier) (vs : List ManagedApiKeyVerifier)
    → Memᴰ v vs
    → contains v.verifier (digests vs) ≡ true
contains-digests v [] m = elim m [ ]
contains-digests v (w ∷ vs) (Memᴰ.head e) = rw (← e) (rw (==_refl v.verifier) refl)
contains-digests v (w ∷ vs) (Memᴰ.tail m) = ground (arith, contains-digests v vs m)

mem_of_find :
    (digest : Str) (vs : List ManagedApiKeyVerifier) {v : ManagedApiKeyVerifier}
    → find (λ v. digest == v.verifier) vs ≡ some v
    → Memᴰ v vs × (v.verifier ≡ digest)
mem_of_find digest [] e = absurd (cc e)
mem_of_find digest (w ∷ vs) {v} e = elim (Bool-cases (digest == w.verifier)) [
  | inl here ↦
      let same : w ≡ v = cc (rw (here, find) at e) in
      (Memᴰ.head (sym same), sym ((==_iff digest v.verifier).0 (rw same at here)))
  | inr there ↦
      let (m, d) = mem_of_find digest vs {v = v} (rw (there, find) at e) in (Memᴰ.tail m, d)
]

find_of_mem :
    (digest : Str) (vs : List ManagedApiKeyVerifier) {v : ManagedApiKeyVerifier}
    → Distinct (digests vs)
    → Memᴰ v vs
    → v.verifier ≡ digest
    → find (λ v. digest == v.verifier) vs ≡ some v
find_of_mem digest [] apart m d = elim m [ ]
find_of_mem digest (w ∷ vs) {v} apart (Memᴰ.head e) d = rw (← e, d, ==_refl digest) refl
find_of_mem digest (w ∷ vs) {v} apart (Memᴰ.tail m) d = ground (
  arith,
  contains-digests v vs m,
  find_of_mem digest vs {v = v} apart.1 m d,
  ==_iff digest w.verifier,
)

-- the verifiers pass the test for duplicates exactly if they are distinct
apart_iff :
    (vs : List ManagedApiKeyVerifier)
    → ((length (dedup (digests vs)) == length vs) ≡ true) ↔ Distinct (digests vs)
apart_iff vs = (
  λ h. Distinct-of_length (digests vs) ((nat_beq_iff _ _).0 h ∙ sym (length-digests vs)),
  λ d. (nat_beq_iff _ _).1 (ap length (dedup_of_Distinct (digests vs) d) ∙ length-digests vs),
)

-- What a presented secret that matches a managed key means: every slot loaded, no two active
-- verifiers are alike, and one of them is the secret's digest.
pub record Matched (host : Host) (slots : List Slot) (secret : Str) (k : ManagedApiKey)
    : Type 0 where
  pub verifiers : List ManagedApiKeyVerifier
  pub loaded : load_all host slots ≡ ok verifiers
  pub apart : Distinct (map (λ (v : ManagedApiKeyVerifier). v.verifier) verifiers)
  pub active : ManagedApiKeyVerifier
  pub listed : Memᴰ active verifiers
  pub key : active.key ≡ k
  pub digest : active.verifier ≡ host.sha256 secret

-- A secret matches a managed key exactly if every slot loads, the active verifiers are distinct, and
-- one of them is the secret's digest and belongs to that key.
pub match_iff :
    (host : Host) (slots : List Slot) (secret : Str) (k : ManagedApiKey)
    → (match host slots secret ≡ ok (some k)) ↔ Matched host slots secret k
unfolding match key_of
match_iff host slots secret k = (
  λ h. sound (load_all host slots) refl h,
  λ m.
      rw
        (
          m.loaded,
          (apart_iff m.verifiers).1 m.apart,
          find_of_mem (host.sha256 secret) m.verifiers {v = m.active} m.apart m.listed m.digest,
        )
        (ap (λ x. ok (some x)) m.key),
)
  where
    sound :
        (r : Result Raised (List ManagedApiKeyVerifier))
        → load_all host slots ≡ r
        → (r >>= λ vs.
            require (length (dedup (digests vs)) == length vs) duplicate_verifiers >>= λ _.
            ok (key_of (find (λ v. host.sha256 secret == v.verifier) vs)))
          ≡ ok (some k)
        → Matched host slots secret k
    sound (err e) loaded h = cc
    sound (ok vs) loaded h = elim (Bool-cases (length (dedup (digests vs)) == length vs)) [
      | inl apart ↦ elim (Option-cases (find (λ v. host.sha256 secret == v.verifier) vs)) [
        | inl missed ↦
            let h' : ◌≡◌ {A = Result Raised (Option ManagedApiKey)} (ok none) (ok (some k)) =
              rw (apart, missed) at h in
            absurd (cc)
        | inr (v, found) ↦
            let h' : ◌≡◌ {A = Result Raised (Option ManagedApiKey)} (ok (some v.key))
                (ok (some k)) =
              rw (apart, found) at h in
            record {
              verifiers = vs;
              loaded = loaded;
              apart = (apart_iff vs).0 apart;
              active = v;
              listed = (mem_of_find (host.sha256 secret) vs {v = v} found).0;
              key = cc;
              digest = (mem_of_find (host.sha256 secret) vs {v = v} found).1;
            }
      ]
      | inr alike ↦ absurd (cc (rw alike at h))
    ]
