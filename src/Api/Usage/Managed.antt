-- ===== src/Api/Usage/Managed.antt =====
-- Which managed keys `_managed_usage_names` names, and whom it takes for their owners.
use k8s_stack_keycloak_api_k.Base.{
  ◌≡◌, ◌≢◌, ◌⊎◌, inl, inr, refl, subst, Str, true, false, Option, none, some, List, [], ◌∷◌, ◌==◌,
  ==_iff, ==_refl, nat_eq, str_eq, pair_eq, lookup, contains, any, All, All-mono, Bool-cases,
  Result, ok, err,
}
use mathlib.Core.List.{Memᴰ}
use k8s_stack_keycloak_api_k.Managed.Grant.{ManagedApiKey}
use k8s_stack_keycloak_api_k.Managed.Slots.{context_credential_id}
use k8s_stack_keycloak_api_k.Keycloak.Exec.{Client, KcError}
use k8s_stack_keycloak_api_k.Keycloak.Exec as Exec
use k8s_stack_keycloak_api_k.Keycloak.Requests.{get_service_account_user_id}
use k8s_stack_keycloak_api_k.Api.Http.{Setup}
use k8s_stack_keycloak_api_k.Api.Usage.{
  Kind, managed, kind_eq, Names, Owners, Found, named, owner_of, name_managed, name_all,
}

-- what the first dict has, the second has too
abbrev Extends : Found → Found → Type 0
Extends a b =
    ((client_id : Str) (owner : Option Str)
      → lookup client_id a.owners ≡ some owner
      → lookup client_id b.owners ≡ some owner)
    × ((key : Str × (Str × Kind)) → lookup key b.names ≡ none → lookup key a.names ≡ none)

Extends-trans : (a b c : Found) → Extends a b → Extends b c → Extends a c
Extends-trans a b c h k =
    (λ client_id owner e. k.0 client_id owner (h.0 client_id owner e), λ key e. h.1 key (k.1 key e))

lookup_fresh :
    (client_id j : Str) (owner : Option Str) (o : Option Str) (owners : Owners)
    → lookup j owners ≡ none
    → lookup client_id owners ≡ some o
    → lookup client_id ((j, owner) ∷ owners) ≡ some o
lookup_fresh client_id j owner o owners fresh h = elim (Bool-cases (j == client_id)) [
  | inl same ↦
      let e : lookup j owners ≡ some o = rw ((==_iff j client_id).0 same) h in
      absurd (cc (fresh, e))
  | inr other ↦ rw other h
]

-- `P` holds of what a call of the client returned and of the state that it left
abbrev pub Leaves {ℓ} : {A : Type ℓ} → (A → Client → Type 0) → Result KcError A × Client → Type 0
Leaves P (ok a, c) = P a c
Leaves P (err e, c) = Unit

Leaves-continue {ℓ κ} :
    {A : Type ℓ} {B : Type κ} (P : B → Client → Type 0) (f : A → Client → Result KcError B × Client)
    (r : Result KcError A × Client)
    → ((a : A) (c : Client) → r ≡ (ok a, c) → Leaves P (f a c))
    → Leaves P (Exec.continue f r)
Leaves-continue P f (ok a, c) k = k a c refl
Leaves-continue P f (err e, c) k = tt

Leaves-ok {ℓ} :
    {A : Type ℓ} (P : A → Client → Type 0) (r : Result KcError A × Client) {a : A} {c : Client}
    → Leaves P r
    → r ≡ (ok a, c)
    → P a c
Leaves-ok P r h e = subst (Leaves P) e h

pub Leaves-mono {ℓ} :
    {A : Type ℓ} {P Q : A → Client → Type 0} (r : Result KcError A × Client)
    → ((a : A) (c : Client) → P a c → Q a c)
    → Leaves P r
    → Leaves Q r
Leaves-mono (ok a, c) k h = k a c h
Leaves-mono (err e, c) k h = tt

module _ (setup : Setup) where
  -- The owners are the answers to one call for each client, the latest first, of which the first
  -- was made in the state `c`, each later one in the state that the one before it left, and the last
  -- one left the state `d`.
  abbrev pub Answers : Client → Owners → Client → Type 0
  Answers c [] d = d ≡ c
  Answers c ((client_id, owner) ∷ owners) d =
      (m : Client) × Answers c owners m
      × (get_service_account_user_id setup.world client_id m ≡ (ok owner, d))

  module _ (registered : List ManagedApiKey) (requested : List (Str × Str)) where
    -- An entry is a registered key under its identity and the owner of its client.
    abbrev pub Named : Owners → (Str × (Str × Kind)) × Str → Type 0
    Named owners ((id, (user_id, kind)), name) =
        (kind ≡ managed)
        × ((key : ManagedApiKey) × Memᴰ key registered
            × (context_credential_id setup.host key ≡ id)
            × (key.name ≡ name)
            × (lookup key.principal_client_id owners ≡ some (some user_id)))

    -- If the identity of a registered key is requested, the owner of its client was asked for.
    abbrev pub IsKnown : Owners → ManagedApiKey → Type 0
    IsKnown owners key =
        any (λ (r : Str × Str). r.0 == context_credential_id setup.host key) requested ≡ true
        → (owner : Option Str) × (lookup key.principal_client_id owners ≡ some owner)

    abbrev pub Sound : Client → Found → Client → Type 0
    Sound first found c = Answers first found.owners c × All (Named found.owners) found.names

    -- what is known of a registered key after its round
    abbrev pub Done : Found → ManagedApiKey → Type 0
    Done found key =
        (any (λ (r : Str × Str). r.0 == context_credential_id setup.host key) requested ≡ false)
        ⊎ ((owner : Option Str) × (lookup key.principal_client_id found.owners ≡ some owner)
            × ((user_id : Str)
                → owner ≡ some user_id
                → contains (context_credential_id setup.host key, user_id) requested ≡ true
                → lookup (context_credential_id setup.host key, (user_id, managed)) found.names
                  ≢ none))

    pub Done-IsKnown :
        (found : Found) (key : ManagedApiKey) → Done found key → IsKnown found.owners key
    Done-IsKnown found key (inl skipped) asked = absurd (cc (skipped, asked))
    Done-IsKnown found key (inr (owner, known, names_it)) asked = (owner, known)

    Done-mono : (a b : Found) (key : ManagedApiKey) → Extends a b → Done a key → Done b key
    Done-mono a b key e (inl skipped) = inl skipped
    Done-mono a b key e (inr (owner, known, all_named)) = inr (
      owner,
      e.0 key.principal_client_id owner known,
      λ user_id mine asked missing.
          all_named user_id mine asked
            (e.1 (context_credential_id setup.host key, (user_id, managed)) missing),
    )

    Named-mono :
        (before after : Owners)
        → ((j : Str) (o : Option Str) → lookup j before ≡ some o → lookup j after ≡ some o)
        → (n : (Str × (Str × Kind)) × Str) → Named before n
        → Named after n
    Named-mono before after grows ((id, (user_id, kind)), name)
          (k, (key, there, same, called, owned)) =
        (k, (key, there, same, called, grows key.principal_client_id (some user_id) owned))

    -- the owner that a round uses, with the dict and the client after it
    abbrev IsOwner : Str → Owners → Client → Option Str × Owners → Client → Type 0
    IsOwner client_id before c (owner, after) d =
        (lookup client_id after ≡ some owner)
        × ((first : Client) → Answers first before c → Answers first after d)
        × ((j : Str) (o : Option Str) → lookup j before ≡ some o → lookup j after ≡ some o)

    owner_of-IsOwner :
        (client_id : Str) (owners : Owners) (c : Client)
        → Leaves (IsOwner client_id owners c) (owner_of setup client_id owners c)
    unfolding owner_of
    owner_of-IsOwner client_id owners c = go (lookup client_id owners) refl
      where
        go :
            (o : Option (Option Str))
            → lookup client_id owners ≡ o
            → Leaves {A = Option Str × Owners} (IsOwner client_id owners c) (elim o [
              | some owner ↦ (ok (owner, owners), c)
              | none ↦
                  Exec.continue
                    (λ owner d. (ok (owner, (client_id, owner) ∷ owners), d))
                    (get_service_account_user_id setup.world client_id c)
            ])
        go (some owner) known = (known, λ first h. h, λ j o e. e)
        go none fresh =
            Leaves-continue (IsOwner client_id owners c)
              (λ owner d. (ok (owner, (client_id, owner) ∷ owners), d))
              (get_service_account_user_id setup.world client_id c)
              (λ owner d e. (
                rw (==_refl client_id) refl,
                λ first h. (c, h, e),
                λ j o k. lookup_fresh j client_id owner o owners fresh k,
              ))

    named-Sound :
        (key : ManagedApiKey) (owner : Option Str) (owners : Owners) (names : Names)
        → Memᴰ key registered
        → lookup key.principal_client_id owners ≡ some owner
        → All (Named owners) names
        → All
            (Named owners)
            (named requested (context_credential_id setup.host key) key.name owner names)
    unfolding named
    named-Sound key none owners names there known h = h
    named-Sound key (some u) owners names there known h =
        elim (Bool-cases (contains (context_credential_id setup.host key, u) requested)) [
          | inl asked ↦ rw asked ((refl, (key, there, refl, refl, known)), h)
          | inr not_asked ↦ rw not_asked h
        ]

    named-grows :
        (identity name : Str) (owner : Option Str) (names : Names) (n : Str × (Str × Kind))
        → lookup n (named requested identity name owner names) ≡ none
        → lookup n names ≡ none
    unfolding named
    named-grows identity name none names n h = h
    named-grows identity name (some u) names n h =
        elim (Bool-cases (contains (identity, u) requested)) [
          | inl asked ↦ elim (Bool-cases ((identity, (u, managed)) == n)) [
            | inl same ↦ absurd (cc (rw (asked, same) at h))
            | inr other ↦ rw (asked, other) at h
          ]
          | inr not_asked ↦ rw not_asked at h
        ]

    named_there :
        (identity name u : Str) (names : Names)
        → contains (identity, u) requested ≡ true
        → lookup (identity, (u, managed)) (named requested identity name (some u) names) ≢ none
    unfolding named
    named_there identity name u names asked missing =
        cc (rw (asked, ==_refl identity, ==_refl u) at missing)

    -- what a round keeps and adds
    abbrev AfterRound : Client → Found → ManagedApiKey → Found → Client → Type 0
    AfterRound first before key after d =
        Sound first after d × Done after key × Extends before after

    name_managed-AfterRound :
        (first : Client) (key : ManagedApiKey) (found : Found) (c : Client)
        → Memᴰ key registered
        → Sound first found c
        → Leaves (AfterRound first found key) (name_managed setup requested key found c)
    unfolding name_managed
    name_managed-AfterRound first key found c there sound =
        elim (Bool-cases (any (λ (r : Str × Str). r.0 == identity) requested)) [
          | inr skipped ↦ rw skipped (sound, inl skipped, (λ j o e. e, λ n e. e))
          | inl asked ↦ rw asked (
              Leaves-continue (AfterRound first found key) _
                (owner_of setup key.principal_client_id found.owners c)
                (λ (owner, owners) d e.
                  let (known, answers, grows) =
                    Leaves-ok (IsOwner key.principal_client_id found.owners c)
                      (owner_of setup key.principal_client_id found.owners c) {a = (owner, owners)}
                      {c = d} (owner_of-IsOwner key.principal_client_id found.owners c) e in
                  after owner owners d known answers grows))
        ]
      where
        identity : Str
        identity = context_credential_id setup.host key

        after :
            (owner : Option Str) (owners : Owners) (d : Client)
            → lookup key.principal_client_id owners ≡ some owner
            → ((start : Client) → Answers start found.owners c → Answers start owners d)
            → ((j : Str) (o : Option Str)
                → lookup j found.owners ≡ some o
                → lookup j owners ≡ some o)
            → AfterRound first found key
                (record {
                  owners = owners;
                  names = named requested identity key.name owner found.names;
                })
                d
        after owner owners d known answers grows = (
          (
            answers first sound.0,
            named-Sound key owner owners found.names there known
                (All-mono (Named-mono found.owners owners grows) found.names sound.1),
          ),
          inr (
            owner,
            known,
            λ u mine asked. rw mine (named_there identity key.name u found.names asked),
          ),
          (grows, named-grows identity key.name owner found.names),
        )

    pub name_all-Done :
        (first : Client) (keys : List ManagedApiKey) (found : Found) (c : Client)
        → All (λ key. Memᴰ key registered) keys
        → Sound first found c
        → Leaves
            (λ after d. Sound first after d × All (Done after) keys × Extends found after)
            (name_all setup requested keys found c)
    unfolding name_all
    name_all-Done first [] found c there sound = (sound, tt, (λ j o e. e, λ n e. e))
    name_all-Done first (key ∷ keys) found c there sound =
        Leaves-continue _ (name_all setup requested keys) (name_managed setup requested key found c)
          (λ next d e.
            let (fine, done, grows) =
              Leaves-ok (AfterRound first found key) (name_managed setup requested key found c)
                {a = next} {c = d} (name_managed-AfterRound first key found c there.0 sound) e in
            Leaves-mono (name_all setup requested keys next d)
              (λ after last (sound_after, all_done, later). (
                sound_after,
                (Done-mono next after key later done, all_done),
                Extends-trans found next after grows later,
              ))
              (name_all-Done first keys next d there.1 fine))
