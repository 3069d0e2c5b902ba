-- ===== src/Api/Usage/Sources.antt =====
-- Where each answer of `usage_key_metadata` comes from, and that none is missing.
use k8s_stack_keycloak_api_k.Base.{
  ◌≡◌, ◌≢◌, inl, inr, refl, ap, Str, Bool, true, false, not, ◌||◌, Option, none, some, List, [],
  ◌∷◌, map, nat_eq, str_eq, pair_eq, lookup, lookup-All, contains, any, filter, All, All-mono,
  Bool-cases, Option-cases, ok, arith,
}
use k8s_stack_keycloak_api_k.Managed.Grant.{ManagedApiKey}
use k8s_stack_keycloak_api_k.Managed.Slots.{metadata}
use k8s_stack_keycloak_api_k.Database.Session.{IsClean}
use k8s_stack_keycloak_api_k.Keycloak.Exec.{Client}
use k8s_stack_keycloak_api_k.Jwks.{Cache}
use k8s_stack_keycloak_api_k.Api.Http.{Setup, App}
use k8s_stack_keycloak_api_k.Api.Returns.{Returns-continue, Returns-require, Returns-ok}
use k8s_stack_keycloak_api_k.Api.Tokens.{CurrentUser}
use k8s_stack_keycloak_api_k.Api.Usage.Gathered.{
  Source, Gathered, GatheredAfter, usage_names-Gathered,
}
use k8s_stack_keycloak_api_k.Api.Usage.Managed.{Answers, IsKnown}
use k8s_stack_keycloak_api_k.Api.Usage.{
  Kind, personal, managed, kind_eq, kind_beq_iff, UsageKeyReference, UsageKeyMetadata, Names,
  Owners, ids_of, name_key, is_managed, is_foreign, described, describe_all, usage_admin,
  usage_names, usage_key_metadata,
}

-- the reference that an answer is about
abbrev pub reference_of : UsageKeyMetadata → UsageKeyReference
reference_of m = record { id = m.id; user_id = m.user_id; kind = m.kind }

abbrev pub is_there : Option Str → Bool
is_there none = false
is_there (some name) = true

listed : Names → UsageKeyReference → Bool
listed names k = is_there (lookup (name_key k) names)

describe_all-listed :
    (names : Names) (keys : List UsageKeyReference)
    → map reference_of (describe_all names keys) ≡ filter (listed names) keys
unfolding describe_all described listed
describe_all-listed names [] = refl
describe_all-listed names (k ∷ keys) = elim (Option-cases (lookup (name_key k) names)) [
  | inl missing ↦ rw missing (describe_all-listed names keys)
  | inr (name, found) ↦ rw found (ap (λ ks. k ∷ ks) (describe_all-listed names keys))
]

describe_all-All :
    (P : (Str × (Str × Kind)) × Str → Type 0) (names : Names) (keys : List UsageKeyReference)
    → All P names
    → All (λ m. P (name_key (reference_of m), m.name)) (describe_all names keys)
unfolding describe_all described
describe_all-All P names [] h = tt
describe_all-All P names (k ∷ keys) h = elim (Option-cases (lookup (name_key k) names)) [
  | inl missing ↦ rw missing (describe_all-All P names keys h)
  | inr (name, found) ↦
      rw found (lookup-All P (name_key k) names name h found, describe_all-All P names keys h)
]

module _ (setup : Setup) (keys : List UsageKeyReference) (s : App) where
  -- What an answer is: names of requested keys that are right, and every name that there is.
  pub record Disclosed (ms : List UsageKeyMetadata) (t : App) : Type 0 where
    pub registered : List ManagedApiKey
    pub owners : Owners
    pub loaded :
        any is_managed keys ≡ true → metadata setup.host setup.managed_slots ≡ ok registered
    pub answers :
        any is_managed keys ≡ true
        → (cache : Cache) × (last : Client) × (s.cache ≡ some cache)
          × Answers setup cache.client owners last
          × (t.cache ≡ some (record cache { client = last }))
    pub known :
        any is_managed keys ≡ true
        → All (IsKnown setup registered (ids_of managed keys) owners) registered
    pub sound :
        All (λ m. Source setup keys s registered owners (name_key (reference_of m), m.name)) ms
    pub listed : UsageKeyReference → Bool
    pub in_order : map reference_of ms ≡ filter listed keys
    pub complete :
        All
          (λ k.
            (name : Str)
            → Source setup keys s registered owners (name_key k, name)
            → listed k ≡ true)
          keys

  is_there_of : (o : Option Str) → o ≢ none → is_there o ≡ true
  is_there_of none h = absurd (h refl)
  is_there_of (some name) h = refl

  Gathered-Disclosed :
      (names : Names) (t : App)
      → Gathered setup keys s names t
      → Disclosed (describe_all names keys) t
  unfolding listed
  Gathered-Disclosed names t g = record {
    registered = g.registered;
    owners = g.owners;
    loaded = g.loaded;
    answers = g.answers;
    known = g.known;
    sound = describe_all-All (Source setup keys s g.registered g.owners) names keys g.sound;
    listed = listed names;
    in_order = describe_all-listed names keys;
    complete =
        All-mono (λ k h name source. is_there_of (lookup (name_key k) names) (h name source)) keys
          g.complete;
  }

  managed_foreign :
      (user : CurrentUser) (ks : List UsageKeyReference)
      → any (is_foreign user) ks ≡ false
      → any is_managed ks ≡ false
  unfolding is_foreign is_managed
  managed_foreign user [] h = refl
  managed_foreign user (k ∷ ks) h =
      ground
        (arith, managed_foreign user ks, kind_beq_iff k.kind personal, kind_beq_iff k.kind managed)

  DisclosedAfter : List UsageKeyMetadata → App → Type 0
  DisclosedAfter ms t = Disclosed ms t × (t.session ≡ s.session)

  -- In a clean session an answer lists requested keys in the order of the request; each name is that
  -- of a row with the key's identifiers, or that of a registered key with the identity whose client's
  -- owner is the recorded user, where the owners are what the client answers if it is asked for one
  -- client after another from the state in which the request found it, the client of every requested
  -- key among them; a requested key that has such a name is
  -- not left out; and the session does not change.
  pub usage_key_metadata-Disclosed :
      (user : CurrentUser) (ms : List UsageKeyMetadata) (t : App)
      → IsClean s.session
      → usage_key_metadata setup keys user s ≡ (ok ms, t)
      → Disclosed ms t × (t.session ≡ s.session)
  unfolding usage_key_metadata DisclosedAfter
  usage_key_metadata-Disclosed user ms t clean h =
      Returns-ok DisclosedAfter (usage_key_metadata setup keys user s) {a = ms} {s = t}
        (Returns-require DisclosedAfter
          (contains usage_admin user.realm_roles || not (any (is_foreign user) keys)) _ s _
          (λ allowed.
            Returns-continue DisclosedAfter _ (usage_names setup keys is_admin s) (λ names u e.
              let (gathered, same) =
                Returns-ok (GatheredAfter setup keys s) (usage_names setup keys is_admin s)
                  {a = names} {s = u}
                  (usage_names-Gathered setup keys s is_admin clean (admin allowed)) e in
              (Gathered-Disclosed names u gathered, same))))
        h
    where
      is_admin : Bool
      is_admin = contains usage_admin user.realm_roles

      admin :
          (is_admin || not (any (is_foreign user) keys)) ≡ true
          → any is_managed keys ≡ true
          → is_admin ≡ true
      admin allowed present = elim (Bool-cases (any (is_foreign user) keys)) [
        | inl foreign ↦ ground (arith, foreign)
        | inr own ↦ absurd (cc (present, managed_foreign user keys own))
      ]
