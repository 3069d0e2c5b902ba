-- ===== src/Keycloak/Entitlements/Paging.antt =====
-- The loop over the pages of a user's groups ends, and collects every group.
use k8s_stack_keycloak_api_k.Base.{
  ℕ, zero, suc, ◌+◌, ◌*◌, ◌≤◌, ◌<◌, Str, ◌≡◌, refl, sym, ap, ◌∙◌, true, some, List, [], ◌∷◌, ◌++◌,
  length, take, drop, length-take-le, length-take-le_length, take_all, drop-drop, take_append_drop,
  length-take_of_le, length-drop, ltb, Bool-cases, Option-cases, inl, inr, arith, ok,
}
use mathlib.Core.List.{append_assoc}
use k8s_stack_keycloak_api_k.Json.{Json, as_list}
use k8s_stack_keycloak_api_k.Keycloak.Exec.{
  Client, response, groups_from, World, tick, send, read_time,
}
use k8s_stack_keycloak_api_k.Keycloak.Requests.{get_token, get_with_token, get_body, body_of}
use k8s_stack_keycloak_api_k.Keycloak.Entitlements.{
  group_path, page_paths, one_page, collect_groups,
}

page_paths-cons :
    (j : Json) (js : List Json) {paths : List Str}
    → page_paths (j ∷ js) ≡ some paths
    → (path : Str) × (rest : List Str) × (group_path j ≡ some path)
      × (page_paths js ≡ some rest)
      × (path ∷ rest ≡ paths)
unfolding page_paths
page_paths-cons j js {paths} h = elim (Option-cases (group_path j)) [
  | inl bad ↦ absurd (cc (rw (bad, page_paths) at h))
  | inr (path, good) ↦ elim (Option-cases (page_paths js)) [
    | inl bad ↦ absurd (cc (rw (page_paths, good, bad) at h))
    | inr (rest, e) ↦ (path, rest, good, e, cc (rw (page_paths, good, e) at h))
  ]
]

page_paths-take :
    (n : ℕ) (js : List Json) (paths : List Str)
    → page_paths js ≡ some paths
    → page_paths (take n js) ≡ some (take n paths)
unfolding page_paths
page_paths-take zero js paths h = refl
page_paths-take (suc n) [] paths h = let e : [] ≡ paths = cc in rw (← e) refl
page_paths-take (suc n) (j ∷ js) paths h =
    let (path, rest, good, e, same) = page_paths-cons j js h in
    rw (page_paths, good, page_paths-take n js rest e, ← same) refl

page_paths-drop :
    (n : ℕ) (js : List Json) (paths : List Str)
    → page_paths js ≡ some paths
    → page_paths (drop n js) ≡ some (drop n paths)
unfolding page_paths
page_paths-drop zero js paths h = h
page_paths-drop (suc n) [] paths h = let e : [] ≡ paths = cc in rw (← e) refl
page_paths-drop (suc n) (j ∷ js) paths h =
    let (path, rest, good, e, same) = page_paths-cons j js h in
    rw (← same) (page_paths-drop n js rest e)

length-page_paths :
    (js : List Json) (paths : List Str) → page_paths js ≡ some paths → length paths ≡ length js
unfolding page_paths
length-page_paths [] paths h = let e : [] ≡ paths = cc in rw (← e) refl
length-page_paths (j ∷ js) paths h =
    let (path, rest, good, e, same) = page_paths-cons j js h in
    rw (← same) (ap suc (length-page_paths js rest e))

-- A Keycloak that serves the memberships of a principal in pages of at most 100, as its admin
-- interface documents, to a token that stays fresh.
pub record Serves (w : World) (principal token : Str) (expiry : ℕ) (groups : List Json)
    : Type 0 where
  pub page : ℕ → Json
  pub listed : (first : ℕ) → as_list (page first) ≡ some (take 100 (drop first groups))
  pub reply :
      (n first : ℕ)
      → w.reply n (record { endpoint = groups_from principal first; bearer = some token })
        ≡ response 200 (some (page first))
  pub fresh : (n : ℕ) → ltb (w.time n + 60) expiry ≡ true

module _ (w : World) (principal token : Str) (expiry : ℕ) (groups : List Json)
    (server : Serves w principal token expiry groups) where
  one_page_served :
      (first : ℕ) (c : Client) (paths : List Str)
      → c.token ≡ some token
      → c.token_expiry ≡ expiry
      → page_paths groups ≡ some paths
      → one_page w principal first c
        ≡ (ok (take 100 (drop first groups), take 100 (drop first paths)), tick (tick c))
  unfolding one_page get_body get_with_token get_token send read_time body_of
  one_page_served first c paths has until listed =
      rw
        (
          has,
          until,
          server.fresh c.ticks,
          server.reply (suc c.ticks) first,
          server.listed first,
          page_paths-take 100 (drop first groups) (drop first paths)
              (page_paths-drop first groups paths listed),
        )
        refl

  -- the paths from `first` on, behind those that were found before
  collected :
      (fuel first : ℕ) (found : List Str) (c : Client) (paths : List Str)
      → c.token ≡ some token
      → c.token_expiry ≡ expiry
      → page_paths groups ≡ some paths
      → length (drop first groups) < 100 * fuel
      → (collect_groups w fuel principal first found c).0 ≡ ok (found ++ drop first paths)
  unfolding collect_groups
  collected zero first found c paths has until listed enough = absurd (omega arith)
  collected (suc fuel) first found c paths has until listed enough =
      let rest : List Json = drop first groups in
      let same : length (drop first paths) ≡ length rest =
        length-page_paths rest (drop first paths) (page_paths-drop first groups paths listed) in
      rw (one_page_served first c paths has until listed)
        (elim (Bool-cases (ltb (length (take 100 rest)) 100)) [
          | inl last ↦
              let few : length (drop first paths) ≤ 100 =
                ground (arith, length-take_of_le 100 rest, same, last) in
              rw last (ap (λ l. ok (found ++ l)) (take_all 100 (drop first paths) few))
          | inr more ↦
              let full : length (take 100 rest) ≡ 100 =
                ground (arith, length-take-le 100 rest, more) in
              rw (more, full)
                (collected fuel (first + 100) (found ++ take 100 (drop first paths)) (tick (tick c))
                    paths has until listed
                    (rw (← drop-drop 100 first groups) (
                      omega (
                        arith,
                        enough,
                        full,
                        length-drop 100 rest,
                        length-take-le_length 100 rest,
                      )))
                  ∙ ap ok (
                      append_assoc found (take 100 (drop first paths)) (drop (first + 100) paths)
                      ∙ ap (λ l. found ++ l)
                          (ap (λ l. take 100 (drop first paths) ++ l)
                              (sym (drop-drop 100 first paths))
                            ∙ take_append_drop 100 (drop first paths))))
        ])

  -- Against a server that pages as documented, the loop returns the paths of all memberships, in
  -- their order, if the client's token is fresh, every membership has a full path, and the fuel is
  -- more than a hundredth of their number.
  pub collect_groups_complete :
      (fuel : ℕ) (c : Client) (paths : List Str)
      → c.token ≡ some token
      → c.token_expiry ≡ expiry
      → page_paths groups ≡ some paths
      → length groups < 100 * fuel
      → (collect_groups w fuel principal 0 [] c).0 ≡ ok paths
  collect_groups_complete fuel c paths has until listed enough =
      collected fuel 0 [] c paths has until listed enough
