-- ===== src/Permissions/Grammar.antt =====
-- The permission strings, described without reference to the pattern.
use k8s_stack_keycloak_api_k.Base.{
  ℕ, ◌≤◌, Str, codes, ◌≡◌, refl, ap, ◌∙◌, true, [], ◌∷◌, ◌++◌, ◌⊎◌, inl, inr, ◌↔◌, All, length,
}
use k8s_stack_keycloak_api_k.Regex.{Matches, is_alnum}
use k8s_stack_keycloak_api_k.Regex.Laws.{fullmatch_iff}
use k8s_stack_keycloak_api_k.Permissions.{
  is_resource_char, resource_id, invoke_pattern, permission_pattern, is_valid_permission,
}

-- 1 to 128 characters, the first a letter or a digit
abbrev pub IsResourceId : Str → Type 0
IsResourceId id =
    (c : ℕ) × (rest : Str) × (id ≡ c ∷ rest)
    × (is_alnum c ≡ true)
    × (length rest ≤ 127)
    × All (λ d. is_resource_char d ≡ true) rest

pub data Kind : Type 0 where
  model mcp application : Kind

abbrev pub kind_name : Kind → Str
kind_name model = codes "model"
kind_name mcp = codes "mcp"
kind_name application = codes "application"

pub data IsPermission (s : Str) : Type 0 where
  llm_invoke : s ≡ codes "llm:invoke" → IsPermission s
  invoke :
      (k : Kind) (id : Str)
      → IsResourceId id
      → s ≡ kind_name k ++ (codes ":" ++ (id ++ codes ":invoke"))
      → IsPermission s
  global_use :
      (id : Str)
      → IsResourceId id
      → s ≡ codes "provider:" ++ (id ++ codes ":global-use")
      → IsPermission s

resource_id_sound : (id : Str) → Matches resource_id id → IsResourceId id
unfolding resource_id
resource_id_sound id (u, v, e, (c, e', here), (short, chars)) =
    (c, v, e ∙ ap (λ t. t ++ v) e', here, short, chars)

resource_id_complete : (id : Str) → IsResourceId id → Matches resource_id id
unfolding resource_id
resource_id_complete id (c, rest, e, here, short, chars) =
    (c ∷ [], rest, e, (c, refl, here), (short, chars))

invoke_sound :
    (s : Str)
    → Matches invoke_pattern s
    → (k : Kind) × (id : Str) × IsResourceId id
      × (s ≡ kind_name k ++ (codes ":" ++ (id ++ codes ":invoke")))
unfolding invoke_pattern
invoke_sound s (u, v, e, kind, (colon, w, e', is_colon, (id, suffix, e'', is_id, is_suffix))) =
    let (k, is_kind) = named kind in
    (k, id, resource_id_sound id is_id, cc (e, e', e'', is_kind, is_colon, is_suffix))
  where
    named :
        (u ≡ codes "model") ⊎ ((u ≡ codes "mcp") ⊎ (u ≡ codes "application"))
        → (k : Kind) × (u ≡ kind_name k)
    named (inl p) = (model, p)
    named (inr (inl p)) = (mcp, p)
    named (inr (inr p)) = (application, p)

kind_complete :
    (k : Kind)
    → (kind_name k ≡ codes "model")
      ⊎ ((kind_name k ≡ codes "mcp") ⊎ (kind_name k ≡ codes "application"))
kind_complete model = inl refl
kind_complete mcp = inr (inl refl)
kind_complete application = inr (inr refl)

-- A text is a valid permission exactly if it is llm:invoke, or has the form kind:id:invoke with
-- kind model, mcp or application, or provider:id:global-use, where id is a resource id.
pub is_valid_permission_iff : (s : Str) → (is_valid_permission s ≡ true) ↔ IsPermission s
unfolding is_valid_permission
is_valid_permission_iff s = (
  λ h. sound ((fullmatch_iff permission_pattern s).0 h),
  λ p. (fullmatch_iff permission_pattern s).1 (complete p),
)
  where
    sound : Matches permission_pattern s → IsPermission s
    sound (inl p) = llm_invoke p
    sound (inr (inl m)) = let (k, id, is_id, e) = invoke_sound s m in invoke k id is_id e
    sound (inr (inr (u, v, e, is_prefix, (id, suffix, e', is_id, is_suffix)))) =
        global_use id (resource_id_sound id is_id) (cc (e, e', is_prefix, is_suffix))

    complete : IsPermission s → Matches permission_pattern s
    complete (llm_invoke p) = inl p
    complete (invoke k id is_id e) = inr (
        inl (
          kind_name k,
          codes ":" ++ (id ++ codes ":invoke"),
          e,
          kind_complete k,
          (
            codes ":",
            id ++ codes ":invoke",
            refl,
            refl,
            (id, codes ":invoke", refl, resource_id_complete id is_id, refl),
          ),
        ))
    complete (global_use id is_id e) = inr (
        inr (
          codes "provider:",
          id ++ codes ":global-use",
          e,
          refl,
          (id, codes ":global-use", refl, resource_id_complete id is_id, refl),
        ))
