-- ===== src/Managed/Grant/Valid.antt =====
-- What a grant that `_parse_grant` accepts satisfies.
use k8s_stack_keycloak_api_k.Base.{
  ℕ, ◌≤◌, Str, codes, ◌≡◌, refl, ap, ◌∙◌, true, not, ◌&&◌, Option, List, [], ◌∷◌, ◌++◌, ◌==◌,
  nat_eq, nat_beq_iff, str_eq, all, All, all→All, All-mono, dedup, Distinct, Distinct-of_length,
  length, is_empty, and-true, arith, ok, require, or_raise, Ensures, Ensures-bind, Ensures-then,
  Ensures-require, Ensures-ok,
}
use k8s_stack_keycloak_api_k.Sorting.{sort, str_ord}
use k8s_stack_keycloak_api_k.Sorting.Laws.{
  IsSortedBy, sort_by-IsSortedBy, All-sort_by, sort_by-Distinct, length-sort_by,
}
use k8s_stack_keycloak_api_k.Regex.{fullmatch, is_alnum}
use k8s_stack_keycloak_api_k.Regex.Laws.{fullmatch_iff}
use k8s_stack_keycloak_api_k.Permissions.{is_valid_permission}
use k8s_stack_keycloak_api_k.Permissions.Grammar.{IsPermission, is_valid_permission_iff}
use k8s_stack_keycloak_api_k.Json.{
  Json, get, keys, as_str, as_list, as_dict, is_text, is_number, all_texts,
}
use k8s_stack_keycloak_api_k.Managed.Grant.{
  Reason, slot_fault, bad_fields, bad_version, bad_id, bad_name, bad_principal, bad_client_id,
  bad_permissions, bad_json, ManagedApiKey, is_id_char, key_id_pattern, same_set, grant_fields,
  identifier, parse_principal, parse_permissions, grant_of, parse_grant,
}

-- 1 to 128 characters of letters, digits, dot, underscore and dash, the first a letter or a digit
abbrev pub IsIdentifier : Str → Type 0
IsIdentifier s =
    (c : ℕ) × (rest : Str) × (s ≡ c ∷ rest)
    × (is_alnum c ≡ true)
    × (length rest ≤ 127)
    × All (λ d. is_id_char d ≡ true) rest

pub record IsGrant (slot : ℕ) (k : ManagedApiKey) : Type 0 where
  pub slot_same : k.slot ≡ slot
  pub key_id : IsIdentifier k.key_id
  pub name : IsIdentifier k.name
  pub client_id : IsIdentifier k.principal_client_id
  pub some_permission : 1 ≤ length k.permissions
  pub permissions : All IsPermission k.permissions
  pub distinct : Distinct k.permissions
  pub sorted : IsSortedBy str_ord.le? k.permissions

key_id_pattern_sound : (s : Str) → fullmatch key_id_pattern s ≡ true → IsIdentifier s
unfolding key_id_pattern
key_id_pattern_sound s h =
    let (u, v, e, (c, e', here), (short, chars)) = (fullmatch_iff key_id_pattern s).0 h in
    (c, v, e ∙ ap (λ t. t ++ v) e', here, short, chars)

identifier_sound : (slot : ℕ) (r : Reason) (j : Json) → Ensures IsIdentifier (identifier slot r j)
unfolding identifier
identifier_sound slot r j =
    Ensures-then IsIdentifier (or_raise (as_str j) (slot_fault slot r)) _ λ t _.
      Ensures-require IsIdentifier (fullmatch key_id_pattern t) (slot_fault slot r) (ok t)
        (key_id_pattern_sound t)

parse_principal_sound : (slot : ℕ) (j : Json) → Ensures IsIdentifier (parse_principal slot j)
unfolding parse_principal
parse_principal_sound slot j =
    Ensures-then IsIdentifier (or_raise (as_dict j) (slot_fault slot bad_principal)) _ λ fs _.
      Ensures-then IsIdentifier
        (require (same_set (keys fs) (codes "kind" ∷ codes "client_id" ∷ []))
          (slot_fault slot bad_principal))
        _
        λ _ _.
          Ensures-then IsIdentifier
            (require (is_text (codes "service_account") (get (codes "kind") fs))
              (slot_fault slot bad_principal))
            _
            λ _ _.
              Ensures-then IsIdentifier
                (or_raise (as_str (get (codes "client_id") fs)) (slot_fault slot bad_principal)) _
                λ t _.
                  Ensures-require IsIdentifier (fullmatch key_id_pattern t)
                    (slot_fault slot bad_client_id) (ok t) (key_id_pattern_sound t)

abbrev Grants : List Str → Type 0
Grants ps = (1 ≤ length ps) × All IsPermission ps × Distinct ps

Grants-of_tests :
    (ps : List Str)
    → (not (is_empty ps) && (all is_valid_permission ps && length (dedup ps) == length ps)) ≡ true
    → Grants ps
Grants-of_tests [] h = cc
Grants-of_tests (p ∷ ps) h =
    let (valid, apart) = and-true (all is_valid_permission (p ∷ ps)) _ h in
    (
      omega arith,
      All-mono (λ q v. (is_valid_permission_iff q).0 v) (p ∷ ps)
          (all→All is_valid_permission (p ∷ ps) valid),
      Distinct-of_length (p ∷ ps) ((nat_beq_iff _ _).0 apart),
    )

parse_permissions_sound : (slot : ℕ) (j : Json) → Ensures Grants (parse_permissions slot j)
unfolding parse_permissions
parse_permissions_sound slot j =
    Ensures-then Grants (or_raise (as_list j) (slot_fault slot bad_permissions)) _ λ es _.
      Ensures-then Grants (or_raise (all_texts es) (slot_fault slot bad_permissions)) _ λ ps _.
        Ensures-require Grants _ (slot_fault slot bad_permissions) (ok ps) (Grants-of_tests ps)

sort-Grants : (ps : List Str) → Grants ps → Grants (sort ps) × IsSortedBy str_ord.le? (sort ps)
unfolding sort
sort-Grants ps (some_permission, valid, distinct) = (
  (
    omega (arith, some_permission, length-sort_by str_ord.le? ps),
    All-sort_by str_ord.le? IsPermission ps valid,
    sort_by-Distinct str_ord.le? ps distinct,
  ),
  sort_by-IsSortedBy str_ord.le? str_ord.total str_ord.trans ps,
)

grant_of-IsGrant : (slot : ℕ) (j : Json) → Ensures (IsGrant slot) (grant_of slot j)
unfolding grant_of
grant_of-IsGrant slot j =
    Ensures-then (IsGrant slot) (or_raise (as_dict j) (slot_fault slot bad_fields)) _ λ fs _.
      Ensures-then (IsGrant slot)
        (require (same_set (keys fs) grant_fields) (slot_fault slot bad_fields)) _
        λ _ _.
          Ensures-then (IsGrant slot)
            (require (is_number 2 (get (codes "version") fs)) (slot_fault slot bad_version)) _
            λ _ _.
              Ensures-bind IsIdentifier (IsGrant slot)
                (identifier slot bad_id (get (codes "id") fs)) _
                (identifier_sound slot bad_id (get (codes "id") fs))
                λ key_id is_id.
                  Ensures-bind IsIdentifier (IsGrant slot)
                    (identifier slot bad_name (get (codes "name") fs)) _
                    (identifier_sound slot bad_name (get (codes "name") fs))
                    λ name is_name.
                      Ensures-bind IsIdentifier (IsGrant slot)
                        (parse_principal slot (get (codes "principal") fs)) _
                        (parse_principal_sound slot (get (codes "principal") fs))
                        λ client is_client.
                          Ensures-bind Grants (IsGrant slot)
                            (parse_permissions slot (get (codes "permissions") fs)) _
                            (parse_permissions_sound slot (get (codes "permissions") fs))
                            λ ps grants. record {
                              slot_same = refl;
                              key_id = is_id;
                              name = is_name;
                              client_id = is_client;
                              some_permission = (sort-Grants ps grants).0.0;
                              permissions = (sort-Grants ps grants).0.1;
                              distinct = (sort-Grants ps grants).0.2;
                              sorted = (sort-Grants ps grants).1;
                            }

-- A grant file that is accepted gives a key for its slot whose id, name and client are identifiers
-- and whose permissions are at least one, valid, distinct and in order.
pub parse_grant-IsGrant :
    (loads : Str → Option Json) (slot : ℕ) (content : Str) (k : ManagedApiKey)
    → parse_grant loads slot content ≡ ok k
    → IsGrant slot k
unfolding parse_grant
parse_grant-IsGrant loads slot content k =
    Ensures-ok (IsGrant slot) (parse_grant loads slot content) (
      Ensures-then (IsGrant slot) (or_raise (loads content) (slot_fault slot bad_json)) _
        λ j _. grant_of-IsGrant slot j)
