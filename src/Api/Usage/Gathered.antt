-- ===== src/Api/Usage/Gathered.antt =====
-- What the dict `names` of `usage_key_metadata` holds: where its entries come from, and that none is
-- missing.
use k8s_stack_keycloak_api_k.Base.{
  ◌≡◌, ◌≢◌, ◌⊎◌, inl, inr, refl, sym, subst, Str, Bool, true, false, ◌&&◌, Option, none, some, List,
  [], ◌∷◌, ◌++◌, ◌==◌, nat_eq, str_eq, pair_eq, lookup, lookup-append_none, All-Memᴰ, All-Memᴰ_at,
  Memᴰ-filter, contains, any, filter, All, All-mono, All-append, All-filter, Bool-cases, Result, ok,
  err, arith,
}
use mathlib.Core.List.{Memᴰ}
use k8s_stack_keycloak_api_k.Managed.Grant.{
  ManagedApiKey, Raised, slot_fault, duplicate_verifiers, unicode_decode,
}
use k8s_stack_keycloak_api_k.Managed.Slots.{metadata}
use k8s_stack_keycloak_api_k.Database.Session.{ApiKey, IsClean}
use k8s_stack_keycloak_api_k.Database.Rows.{visible_clean}
use k8s_stack_keycloak_api_k.Keycloak.Exec.{Client, KcError}
use k8s_stack_keycloak_api_k.Keycloak.Exec as Exec
use k8s_stack_keycloak_api_k.Jwks.{Cache}
use k8s_stack_keycloak_api_k.Api.Http.{Setup, App}
use k8s_stack_keycloak_api_k.Api.Returns.{Returns, Returns-continue, Returns-ok}
use k8s_stack_keycloak_api_k.Api.Usage.Asked.{All-ids_of}
use k8s_stack_keycloak_api_k.Api.Usage.Rows.{row_key, IsRow, row_names-IsRow, row_names_there}
use k8s_stack_keycloak_api_k.Api.Usage.Managed.{
  Leaves, Leaves-mono, Answers, Named, IsKnown, Sound, Done, Done-IsKnown, name_all-Done,
}
use k8s_stack_keycloak_api_k.Api.Usage.{
  Kind, personal, managed, kind_eq, UsageKeyReference, Names, Owners, Found, name_key, ids_of,
  row_names, personal_names, no_metadata, answered, lookup_managed, managed_usage_names, is_managed,
  usage_names, name_all,
}

module _ (setup : Setup) (keys : List UsageKeyReference) (s : App) where
  -- What the names of keys come from: rows of the table, and registered keys whose clients' owners
  -- are what Keycloak answered.
  abbrev pub Source : List ManagedApiKey → Owners → (Str × (Str × Kind)) × Str → Type 0
  Source registered owners n =
      IsRow s.session.rows n ⊎ Named setup registered (ids_of managed keys) owners n

  -- the dict `names`
  pub record Gathered (names : Names) (t : App) : Type 0 where
    pub registered : List ManagedApiKey
    pub owners : Owners
    pub loaded :
        any is_managed keys ≡ true → metadata setup.host setup.managed_slots ≡ ok registered
    pub answers :
        any is_managed keys ≡ true
        → (cache : Cache) × (last : Client) × (s.cache ≡ some cache)
          × Answers setup cache.client owners last
          × (t.cache ≡ some (record cache { client = last }))
    pub known :
        any is_managed keys ≡ true
        → All (IsKnown setup registered (ids_of managed keys) owners) registered
    pub sound : All (Source registered owners) names
    pub complete :
        All
          (λ k.
            (name : Str)
            → Source registered owners (name_key k, name)
            → lookup (name_key k) names ≢ none)
          keys

  personal_names-IsRow :
      IsClean s.session → All (IsRow s.session.rows) (personal_names keys s.session)
  unfolding personal_names
  personal_names-IsRow clean = rw (visible_clean s.session clean) (
      row_names-IsRow s.session.rows
        (filter (λ r. contains (r.id, r.user_id) (ids_of personal keys)) s.session.rows) []
        (All-filter (λ r. Memᴰ r s.session.rows)
          (λ r. contains (r.id, r.user_id) (ids_of personal keys)) s.session.rows
          (All-Memᴰ s.session.rows))
        tt)

  personal_names_complete :
      IsClean s.session
      → All
          (λ k.
            (name : Str)
            → IsRow s.session.rows (name_key k, name)
            → lookup (name_key k) (personal_names keys s.session) ≢ none)
          keys
  unfolding personal_names
  personal_names_complete clean = rw (visible_clean s.session clean) (
      All-mono
        (λ k asked name (kind, (r, there, i, u, n)) missing.
          let same : row_key r ≡ name_key k = rw (i, u, kind) refl in
          row_names_there r (filter wanted s.session.rows) []
            (Memᴰ-filter wanted r s.session.rows there (rw (i, u) (asked kind)))
            (subst (λ n. lookup n (row_names (filter wanted s.session.rows) []) ≡ none) (sym same)
              missing))
        keys (All-ids_of personal keys))
    where
      wanted : ApiKey → Bool
      wanted r = contains (r.id, r.user_id) (ids_of personal keys)

  contains→any :
      (id user_id : Str) (ids : List (Str × Str))
      → contains (id, user_id) ids ≡ true
      → any (λ (r : Str × Str). r.0 == id) ids ≡ true
  contains→any id user_id [] h = absurd (cc h)
  contains→any id user_id (r ∷ ids) h = elim (Bool-cases (r == (id, user_id))) [
    | inl same ↦ ground arith
    | inr other ↦ ground (arith, contains→any id user_id ids (rw other at h))
  ]

  -- the part of the dict that `_managed_usage_names` returns
  record ManagedPart (names : Names) (t : App) : Type 0 where
    registered : List ManagedApiKey
    owners : Owners
    loaded : metadata setup.host setup.managed_slots ≡ ok registered
    answers :
        (cache : Cache) × (last : Client) × (s.cache ≡ some cache)
        × Answers setup cache.client owners last
        × (t.cache ≡ some (record cache { client = last }))
    known : All (IsKnown setup registered (ids_of managed keys) owners) registered
    sound : All (Named setup registered (ids_of managed keys) owners) names
    complete :
        All
          (λ k.
            (name : Str)
            → Named setup registered (ids_of managed keys) owners (name_key k, name)
            → lookup (name_key k) names ≢ none)
          keys

  Done→complete :
      (registered : List ManagedApiKey) (found : Found)
      → All (Done setup registered (ids_of managed keys) found) registered
      → All
          (λ k.
            (name : Str)
            → Named setup registered (ids_of managed keys) found.owners (name_key k, name)
            → lookup (name_key k) found.names ≢ none)
          keys
  Done→complete registered found all_done =
      All-mono
        (λ k asked name (kind, (key, there, same, called, owned)) missing.
          elim (All-Memᴰ_at (Done setup registered (ids_of managed keys) found) key registered
            all_done there) [
              | inl skipped ↦ cc (
                rw same at skipped,
                contains→any k.id k.user_id (ids_of managed keys) (asked kind),
              )
              | inr (owner, known, names_it) ↦
                  names_it k.user_id (cc (known, owned)) (rw same (asked kind))
                    (rw (same, ← kind) missing)
            ])
        keys (All-ids_of managed keys)

  -- the dict's part, and a session that the call left alone
  abbrev Part : Names → App → Type 0
  Part names t = ManagedPart names t × (t.session ≡ s.session)

  answered-Part :
      (registered : List ManagedApiKey)
      → metadata setup.host setup.managed_slots ≡ ok registered
      → (c : Cache) (r : Result KcError Found × Client) → s.cache ≡ some c
      → Leaves
          (λ found last.
            Sound setup registered (ids_of managed keys) c.client found last
            × All (Done setup registered (ids_of managed keys) found) registered)
          r
      → Returns Part (answered c r s)
  unfolding answered
  answered-Part registered loaded c (ok found, client) here (sound, all_done) = (
    record {
      registered = registered;
      owners = found.owners;
      loaded = loaded;
      answers = (c, client, here, sound.0, refl);
      known =
          All-mono (Done-IsKnown setup registered (ids_of managed keys) found) registered all_done;
      sound = sound.1;
      complete = Done→complete registered found all_done;
    },
    refl,
  )
  answered-Part registered loaded c (err Exec.unavailable, client) here h = tt
  answered-Part registered loaded c (err Exec.out_of_fuel, client) here h = tt

  lookup_managed-Part :
      (c : Cache) (r : Result Raised (List ManagedApiKey))
      → s.cache ≡ some c
      → metadata setup.host setup.managed_slots ≡ r
      → Returns Part (lookup_managed setup keys c r s)
  unfolding lookup_managed
  lookup_managed-Part c (ok registered) here loaded =
      answered-Part registered loaded c
        (name_all setup (ids_of managed keys) registered empty c.client) here
        (Leaves-mono (name_all setup (ids_of managed keys) registered empty c.client)
          (λ found last (sound, all_done, later). (sound, all_done))
          (name_all-Done setup registered (ids_of managed keys) c.client registered empty c.client
            (All-Memᴰ registered) (refl, tt)))
    where
      empty : Found
      empty = record { owners = []; names = [] }
  lookup_managed-Part c (err (slot_fault slot reason)) here loaded = tt
  lookup_managed-Part c (err duplicate_verifiers) here loaded = tt
  lookup_managed-Part c (err unicode_decode) here loaded = tt

  managed_usage_names-Part : Returns Part (managed_usage_names setup keys s)
  unfolding managed_usage_names
  managed_usage_names-Part = go s.cache refl
    where
      go :
          (o : Option Cache)
          → s.cache ≡ o
          → Returns Part (elim o [
            | none ↦ (err no_metadata, s)
            | some c ↦ lookup_managed setup keys c (metadata setup.host setup.managed_slots) s
          ])
      go none here = tt
      go (some c) here = lookup_managed-Part c _ here refl

  with_personal :
      IsClean s.session
      → (found : Names) (t : App) → ManagedPart found t
      → Gathered (found ++ personal_names keys s.session) t
  with_personal clean found t part = record {
    registered = part.registered;
    owners = part.owners;
    loaded = λ any_managed. part.loaded;
    answers = λ any_managed. part.answers;
    known = λ any_managed. part.known;
    sound =
        All-append (Source part.registered part.owners) found (personal_names keys s.session)
          (All-mono (λ n h. inr h) found part.sound)
          (All-mono (λ n h. inl h) (personal_names keys s.session) (personal_names-IsRow clean));
    complete = both keys (personal_names_complete clean) part.complete;
  }
    where
      both :
          (ks : List UsageKeyReference)
          → All
              (λ k.
                (name : Str)
                → IsRow s.session.rows (name_key k, name)
                → lookup (name_key k) (personal_names keys s.session) ≢ none)
              ks
          → All
              (λ k.
                (name : Str)
                → Named setup part.registered (ids_of managed keys) part.owners (name_key k, name)
                → lookup (name_key k) found ≢ none)
              ks
          → All
              (λ k.
                (name : Str)
                → Source part.registered part.owners (name_key k, name)
                → lookup (name_key k) (found ++ personal_names keys s.session) ≢ none)
              ks
      both [] h g = tt
      both (k ∷ ks) h g = (
        λ name source missing.
            let (no_managed, no_personal) =
              lookup-append_none (name_key k) found (personal_names keys s.session) missing in
            elim source [ inl row ↦ h.0 name row no_personal | inr key ↦ g.0 name key no_managed ],
        both ks h.1 g.1,
      )

  personal_only :
      IsClean s.session → any is_managed keys ≡ false → Gathered (personal_names keys s.session) s
  personal_only clean none_managed = record {
    registered = [];
    owners = [];
    loaded = λ any_managed. absurd (cc (none_managed, any_managed));
    answers = λ any_managed. absurd (cc (none_managed, any_managed));
    known = λ any_managed. tt;
    sound = All-mono (λ n h. inl h) (personal_names keys s.session) (personal_names-IsRow clean);
    complete =
        All-mono
          (λ k h name source missing. elim source [
            | inl row ↦ h name row missing
            | inr (kind, (key, there, i, n, e)) ↦ elim there [ ]
          ])
          keys (personal_names_complete clean);
  }

  -- the dict, and a session that the call left alone
  abbrev pub GatheredAfter : Names → App → Type 0
  GatheredAfter names t = Gathered names t × (t.session ≡ s.session)

  pub usage_names-Gathered :
      (is_admin : Bool)
      → IsClean s.session
      → (any is_managed keys ≡ true → is_admin ≡ true)
      → Returns GatheredAfter (usage_names setup keys is_admin s)
  unfolding usage_names
  usage_names-Gathered is_admin clean allowed =
      elim (Bool-cases (is_admin && any is_managed keys)) [
        | inl asked ↦
            rw (asked, Returns)
              (Returns-continue GatheredAfter _ (managed_usage_names setup keys s) (λ found t e.
                let (part, same) =
                  Returns-ok Part (managed_usage_names setup keys s) {a = found} {s = t}
                    managed_usage_names-Part e in
                (with_personal clean found t part, same)))
        | inr skipped ↦ rw (skipped, Returns) (personal_only clean (none_managed skipped), refl)
      ]
    where
      none_managed : (is_admin && any is_managed keys) ≡ false → any is_managed keys ≡ false
      none_managed skipped = elim (Bool-cases (any is_managed keys)) [
        | inl present ↦ absurd (cc (rw (allowed present, present) at skipped))
        | inr absent ↦ absent
      ]
