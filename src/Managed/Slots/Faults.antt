-- ===== src/Managed/Slots/Faults.antt =====
-- A faulty slot stops every match, a blank verifier takes its slot out, and ids never collide.
use k8s_stack_keycloak_api_k.Base.{
  ℕ, Str, codes, ◌≡◌, ◌≢◌, ◌⊎◌, ◌↔◌, inl, inr, refl, subst, Bool-cases, true, false, Option, none,
  List, [], ◌∷◌, ◌++◌, nat_eq, str_eq, All, is_empty, arith, Result, ok, err, ◌>>=◌, >>=-ok,
}
use mathlib.Core.List.{Memᴰ, append_cancel_left}
use k8s_stack_keycloak_api_k.Managed.Grant.{
  Raised, Reason, slot_fault, unicode_decode, ManagedApiKey, strip, is_id_char, parse_grant,
  parse_verifier,
}
use k8s_stack_keycloak_api_k.Managed.Grant.Faults.{
  RaisesFault, then_fault, parse_grant-RaisesFault, parse_verifier-RaisesFault,
}
use k8s_stack_keycloak_api_k.Managed.Grant.Valid.{IsGrant, IsIdentifier}
use k8s_stack_keycloak_api_k.Managed.Slots.{
  ManagedApiKeyVerifier, Host, Slot, Reading, text, os_error, decode_error, text_of, read,
  load_files, load_slot, load_all, keep, match, context_name,
}

-- the slot loads, with a verifier or without
abbrev pub Loads : Host → Slot → Type 0
Loads host t = (loaded : Option ManagedApiKeyVerifier) × (load_slot host t ≡ ok loaded)

-- One of the slot's files, the first that is read and cannot be taken, is not UTF-8.
abbrev pub IsUndecodable : Host → Slot → Type 0
IsUndecodable host t =
    (is_empty t.grant_file ≡ false)
    × (is_empty t.verifier_file ≡ false)
    × ((host.read_text t.grant_file ≡ decode_error)
        ⊎ ((grant : Str) × (host.read_text t.grant_file ≡ text grant)
            × (host.read_text t.verifier_file ≡ decode_error)))

not_unicode : (n : ℕ) → (reason : Reason) × (unicode_decode ≡ slot_fault n reason) → ⊥
not_unicode n (reason, e) = cc e

module _ (host : Host) where
  load_all_fault :
      (slots : List Slot) (s : Slot) (e : Raised)
      → Memᴰ s slots
      → load_slot host s ≡ err e
      → (e' : Raised) × (load_all host slots ≡ err e')
  unfolding load_all
  load_all_fault [] s e m h = elim m [ ]
  load_all_fault (t ∷ slots) s e (Memᴰ.head p) h = (e, rw (← p, h) refl)
  load_all_fault (t ∷ slots) s e (Memᴰ.tail m) h =
      let (e', rest) = load_all_fault slots s e m h in go (load_slot host t) e' rest
    where
      go :
          (r : Result Raised (Option ManagedApiKeyVerifier)) (e' : Raised)
          → load_all host slots ≡ err e'
          → (e'' : Raised) × ((r >>= λ loaded.
                load_all host slots >>= λ rest. ok (keep loaded rest))
              ≡ err e'')
      go (ok v) e' rest = (e', rw rest refl)
      go (err x) e' rest = (x, refl)

  -- If some slot raises, every match raises the same exception, whatever secret is presented: a valid
  -- slot does not hide a broken one.
  pub match_fails_closed :
      (slots : List Slot) (s : Slot) (e : Raised)
      → Memᴰ s slots
      → load_slot host s ≡ err e
      → (e' : Raised) × ((secret : Str) → match host slots secret ≡ err e')
  unfolding match
  match_fails_closed slots s e m h =
      let (e', fault) = load_all_fault slots s e m h in (e', λ secret. rw fault refl)

  module _ (s : Slot) (grant verifier : Str) (has_grant : is_empty s.grant_file ≡ false)
      (has_verifier : is_empty s.verifier_file ≡ false)
      (grant_read : host.read_text s.grant_file ≡ text grant)
      (verifier_read : host.read_text s.verifier_file ≡ text verifier)
      (blank : is_empty (strip verifier) ≡ true) where
    load_slot_blank : load_slot host s ≡ ok none
    unfolding load_slot
    load_slot_blank =
        rw (has_grant, has_verifier)
          (unfold load_files read in rw (grant_read, verifier_read, blank) refl)

    load_all_blank :
        (before after : List Slot)
        → load_all host (before ++ s ∷ after) ≡ load_all host (before ++ after)
    unfolding load_all
    load_all_blank [] after = rw load_slot_blank (unfold keep in >>=-ok (load_all host after))
    load_all_blank (t ∷ before) after = rw (load_all_blank before after) refl

    -- A slot whose files can be read and whose verifier is blank is as if it were not registered, even
    -- if its grant is malformed.
    pub blank_verifier_disables :
        (before after : List Slot) (secret : Str)
        → match host (before ++ s ∷ after) secret ≡ match host (before ++ after) secret
    unfolding match
    blank_verifier_disables before after secret = rw (load_all_blank before after) refl

  load_all_first :
      (before after : List Slot) (slot : Slot) (e : Raised)
      → All (Loads host) before
      → load_slot host slot ≡ err e
      → load_all host (before ++ slot ∷ after) ≡ err e
  unfolding load_all
  load_all_first [] after slot e loads broken = rw broken refl
  load_all_first (t ∷ before) after slot e ((loaded, fine), loads) broken =
      rw (fine, load_all_first before after slot e loads broken) refl

  pub match_first :
      (before after : List Slot) (slot : Slot) (e : Raised) (secret : Str)
      → All (Loads host) before
      → load_slot host slot ≡ err e
      → match host (before ++ slot ∷ after) secret ≡ err e
  unfolding match
  match_first before after slot e secret loads broken =
      rw (load_all_first before after slot e loads broken) refl

  read_undecodable :
      (slot : Slot) (g v : Reading)
      → host.read_text slot.grant_file ≡ g
      → host.read_text slot.verifier_file ≡ v
      → load_files host slot ≡ err unicode_decode
      → (g ≡ decode_error) ⊎ ((grant : Str) × (g ≡ text grant) × (v ≡ decode_error))
  unfolding load_files read text_of
  read_undecodable slot decode_error v eg ev h = inl refl
  read_undecodable slot os_error v eg ev h = absurd (cc (rw eg at h))
  read_undecodable slot (text g) decode_error eg ev h = inr (g, refl, refl)
  read_undecodable slot (text g) os_error eg ev h = absurd (cc (rw (eg, ev) at h))
  read_undecodable slot (text g) (text v) eg ev h = elim (Bool-cases (is_empty (strip v))) [
    | inl blank ↦ absurd (cc (rw (eg, ev, blank) at h))
    | inr given ↦ absurd (
        not_unicode slot.index (
          subst (RaisesFault slot.index) (rw (eg, ev, given) at h) (
            then_fault slot.index (parse_grant host.loads slot.index g) _
              (parse_grant-RaisesFault slot.index host.loads g)
              (λ key.
                then_fault slot.index (parse_verifier slot.index v) _
                  (parse_verifier-RaisesFault slot.index v) (λ verifier. tt)))))
  ]

  -- The exception of a slot is `UnicodeDecodeError` exactly if one of its files is not UTF-8.
  pub load_slot-IsUndecodable :
      (slot : Slot) (e : Raised)
      → load_slot host slot ≡ err e
      → (e ≡ unicode_decode) ↔ IsUndecodable host slot
  unfolding load_slot load_files read text_of
  load_slot-IsUndecodable slot e broken = (
    λ same.
        both (Bool-cases (is_empty slot.grant_file)) (Bool-cases (is_empty slot.verifier_file))
          same,
    λ (has_grant, has_verifier, which). elim which [
      | inl grant ↦ cc (rw (has_grant, has_verifier, grant) at broken)
      | inr (content, grant, verifier) ↦
          cc (rw (has_grant, has_verifier, grant, verifier) at broken)
    ],
  )
    where
      both :
          ((is_empty slot.grant_file ≡ true) ⊎ (is_empty slot.grant_file ≡ false))
          → ((is_empty slot.verifier_file ≡ true) ⊎ (is_empty slot.verifier_file ≡ false))
          → e ≡ unicode_decode
          → IsUndecodable host slot
      both (inl g) (inl v) same = absurd (cc (rw (g, v) at broken))
      both (inl g) (inr v) same = absurd (cc (rw (g, v) at broken, same))
      both (inr g) (inl v) same = absurd (cc (rw (g, v) at broken, same))
      both (inr g) (inr v) same = (
        g,
        v,
        read_undecodable slot (host.read_text slot.grant_file) (host.read_text slot.verifier_file)
            refl refl (cc (rw (g, v) at broken, same)),
      )

-- the character that separates the client from the key id
abbrev slash : ℕ
slash = b'/'

abbrev NoSlash : Str → Type 0
NoSlash s = All (λ c. c ≢ slash) s

NoSlash-of_chars : (s : Str) → All (λ d. is_id_char d ≡ true) s → NoSlash s
NoSlash-of_chars [] h = tt
NoSlash-of_chars (c ∷ s) h = (λ e. ground arith, NoSlash-of_chars s h.1)

NoSlash-of_identifier : (s : Str) → IsIdentifier s → NoSlash s
NoSlash-of_identifier s (c, rest, e, first, short, chars) =
    rw e (λ p. ground arith, NoSlash-of_chars rest chars)

split_unique :
    (a b c d : Str) → NoSlash a → NoSlash c → a ++ slash ∷ b ≡ c ++ slash ∷ d → (a ≡ c) × (b ≡ d)
split_unique [] b [] d ha hc e = (refl, cc)
split_unique [] b (x ∷ c) d ha hc e = absurd (hc.0 (cc))
split_unique (x ∷ a) b [] d ha hc e = absurd (ha.0 (cc))
split_unique (x ∷ a) b (y ∷ c) d ha hc e =
    let (p, q) = split_unique a b c d ha.1 hc.1 (cc) in (cc, q)

-- Managed keys of accepted grants have one context name only if they have the same client and the
-- same key id.
pub context_name-injective :
    (i j : ℕ) (k l : ManagedApiKey)
    → IsGrant i k
    → IsGrant j l
    → context_name k ≡ context_name l
    → (k.principal_client_id ≡ l.principal_client_id) × (k.key_id ≡ l.key_id)
unfolding context_name codes
context_name-injective i j k l gk gl e =
    split_unique k.principal_client_id k.key_id l.principal_client_id l.key_id
      (NoSlash-of_identifier k.principal_client_id gk.client_id)
      (NoSlash-of_identifier l.principal_client_id gl.client_id)
      (append_cancel_left (codes "keycloak-api-key-bridge/managed/") _ _ e)
