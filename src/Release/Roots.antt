-- ===== src/Release/Roots.antt =====
-- The editable root package of a lock file, and that there is only one.
use k8s_stack_keycloak_api_k.Base.{
  and-true, ◌≡◌, ◌≢◌, ◌↔◌, inl, inr, refl, ap, ◌∙◌, Str, codes, true, Option, none, some, List, [],
  ◌∷◌, ◌++◌, ==_iff, str_eq, All, Option-cases, Bool-cases,
}
use k8s_stack_keycloak_api_k.Json.{Json, Fields, str, get, as_dict, as_nonempty_str, is_text}
use k8s_stack_keycloak_api_k.Release.{
  is_editable, is_root, root_of, root_package, add_version, root_versions, only_version,
}

-- the editable root package of a lock file
abbrev pub IsRoot : Str → Json → Fields → Type 0
IsRoot project_name entry fields =
    (as_dict entry ≡ some fields)
    × (get (codes "name") fields ≡ str project_name)
    × ((source : Fields) × (as_dict (get (codes "source") fields) ≡ some source)
        × (get (codes "editable") source ≡ str (codes ".")))

is_text_iff : (t : Str) (j : Json) → (is_text t j ≡ true) ↔ (j ≡ str t)
is_text_iff t (str s) = (λ h. ap str ((==_iff s t).0 h), λ h. (==_iff s t).1 (cc h))
is_text_iff t Json.null = (λ h. absurd (cc h), λ h. absurd (cc h))
is_text_iff t Json.other_num = (λ h. absurd (cc h), λ h. absurd (cc h))
is_text_iff t (Json.bool b) = (λ h. absurd (cc h), λ h. absurd (cc h))
is_text_iff t (Json.num n) = (λ h. absurd (cc h), λ h. absurd (cc h))
is_text_iff t (Json.arr js) = (λ h. absurd (cc h), λ h. absurd (cc h))
is_text_iff t (Json.obj fs) = (λ h. absurd (cc h), λ h. absurd (cc h))

is_editable_iff :
    (o : Option Fields)
    → (is_editable o ≡ true)
      ↔ ((source : Fields) × (o ≡ some source) × (get (codes "editable") source ≡ str (codes ".")))
unfolding is_editable
is_editable_iff none = (λ h. absurd (cc h), λ (s, e, q). absurd (cc e))
is_editable_iff (some fields) = (
  λ h. (fields, refl, (is_text_iff (codes ".") (get (codes "editable") fields)).0 h),
  λ (s, e, q).
      let same : fields ≡ s = cc e in
      (is_text_iff (codes ".") (get (codes "editable") fields)).1
        (ap (get (codes "editable")) same ∙ q),
)

is_root_iff :
    (project_name : Str) (fields : Fields)
    → (is_root project_name fields ≡ true) ↔ (
        (get (codes "name") fields ≡ str project_name)
        × ((source : Fields) × (as_dict (get (codes "source") fields) ≡ some source)
            × (get (codes "editable") source ≡ str (codes "."))))
unfolding is_root
is_root_iff project_name fields = (
  λ h.
      let (named, editable) =
        and-true (is_text project_name (get (codes "name") fields))
          (is_editable (as_dict (get (codes "source") fields))) h in
      (
        (is_text_iff project_name (get (codes "name") fields)).0 named,
        (is_editable_iff (as_dict (get (codes "source") fields))).0 editable,
      ),
  λ (n, s).
      rw
        (
          (is_text_iff project_name (get (codes "name") fields)).1 n,
          (is_editable_iff (as_dict (get (codes "source") fields))).1 s,
        )
        refl,
)

root_of_iff :
    (project_name : Str) (o : Option Fields) (fields : Fields)
    → (root_of project_name o ≡ some fields)
      ↔ ((o ≡ some fields) × (is_root project_name fields ≡ true))
unfolding root_of
root_of_iff project_name none fields = (λ h. absurd (cc h), λ (e, r). absurd (cc e))
root_of_iff project_name (some found) fields = elim (Bool-cases (is_root project_name found)) [
  | inl root ↦ rw root (λ h. (h, let same : found ≡ fields = cc h in rw (← same) root), λ (e, r). e)
  | inr other ↦ rw other (
    λ h. absurd (cc h),
    λ (e, r).
        let same : found ≡ fields = cc e in absurd (cc (other, ap (is_root project_name) same, r)),
  )
]

root_package_iff :
    (project_name : Str) (entry : Json) (fields : Fields)
    → (root_package project_name entry ≡ some fields) ↔ IsRoot project_name entry fields
unfolding root_package
root_package_iff project_name entry fields = (
  λ h.
      let (e, r) = (root_of_iff project_name (as_dict entry) fields).0 h in
      let (n, s) = (is_root_iff project_name fields).0 r in (e, n, s),
  λ (e, n, s).
      (root_of_iff project_name (as_dict entry) fields).1
        (e, (is_root_iff project_name fields).1 (n, s)),
)

abbrev pub NotRoot : Str → Json → Type 0
NotRoot project_name entry = (fields : Fields) → IsRoot project_name entry fields → ⊥

root_versions-none :
    (project_name : Str) (entries : List Json)
    → (root_versions project_name entries ≡ []) ↔ All (NotRoot project_name) entries
unfolding root_versions add_version
root_versions-none project_name [] = (λ h. tt, λ h. refl)
root_versions-none project_name (entry ∷ entries) =
    elim (Option-cases (root_package project_name entry)) [
      | inl other ↦ rw other (
        λ h. (
          λ fields is. cc (other, (root_package_iff project_name entry fields).1 is),
          (root_versions-none project_name entries).0 h,
        ),
        λ h. (root_versions-none project_name entries).1 h.1,
      )
      | inr (fields, root) ↦ rw root (
        λ h. absurd (cc h),
        λ h. absurd (h.0 fields ((root_package_iff project_name entry fields).0 root)),
      )
    ]

-- One entry is the root package, with this version, and no other entry is.
pub record IsOnlyRoot (project_name : Str) (entries : List Json) (version : Json) : Type 0 where
  pub before : List Json
  pub entry : Json
  pub after : List Json
  pub there : entries ≡ before ++ entry ∷ after
  pub fields : Fields
  pub root : IsRoot project_name entry fields
  pub its_version : get (codes "version") fields ≡ version
  pub none_before : All (NotRoot project_name) before
  pub none_after : All (NotRoot project_name) after

pub versions_one :
    (project_name : Str) (entries : List Json) (version : Json)
    → root_versions project_name entries ≡ version ∷ []
    → IsOnlyRoot project_name entries version
unfolding root_versions add_version
versions_one project_name [] version h = absurd (cc h)
versions_one project_name (entry ∷ entries) version h =
    elim (Option-cases (root_package project_name entry)) [
      | inl other ↦
          let is = versions_one project_name entries version (rw other at h) in
          record {
            before = entry ∷ is.before;
            entry = is.entry;
            after = is.after;
            there = ap (λ es. entry ∷ es) is.there;
            fields = is.fields;
            root = is.root;
            its_version = is.its_version;
            none_before = (
              λ fields r. cc (other, (root_package_iff project_name entry fields).1 r),
              is.none_before,
            );
            none_after = is.none_after;
          }
      | inr (fields, root) ↦
          let q : get (codes "version") fields ∷ root_versions project_name entries ≡ version ∷ [] =
            rw root at h in
          record {
            before = [];
            entry = entry;
            after = entries;
            there = refl;
            fields = fields;
            root = (root_package_iff project_name entry fields).0 root;
            its_version = cc q;
            none_before = tt;
            none_after = (root_versions-none project_name entries).0 (cc q);
          }
    ]

versions-append :
    (project_name : Str) (before : List Json) (entries : List Json)
    → All (NotRoot project_name) before
    → root_versions project_name (before ++ entries) ≡ root_versions project_name entries
unfolding root_versions add_version
versions-append project_name [] entries h = refl
versions-append project_name (entry ∷ before) entries h =
    elim (Option-cases (root_package project_name entry)) [
      | inl other ↦ rw other (versions-append project_name before entries h.1)
      | inr (fields, root) ↦
          absurd (h.0 fields ((root_package_iff project_name entry fields).0 root))
    ]

pub one_version :
    (project_name : Str) (entries : List Json) (version : Json)
    → IsOnlyRoot project_name entries version
    → root_versions project_name entries ≡ version ∷ []
unfolding root_versions add_version
one_version project_name entries version is =
    ap (root_versions project_name) is.there
    ∙ versions-append project_name is.before (is.entry ∷ is.after) is.none_before
    ∙ rw
        (
          (root_package_iff project_name is.entry is.fields).1 is.root,
          is.its_version,
          (root_versions-none project_name is.after).1 is.none_after,
        )
        refl

pub as_nonempty_str_iff :
    (j : Json) (s : Str) → (as_nonempty_str j ≡ some s) ↔ ((j ≡ str s) × (s ≢ []))
as_nonempty_str_iff (str []) s = (λ h. absurd (cc h), λ (e, ne). absurd (ne (cc e)))
as_nonempty_str_iff (str (c ∷ t)) s =
    (λ h. let same : c ∷ t ≡ s = cc h in (ap str same, λ empty. cc (same, empty)), λ (e, ne). cc e)
as_nonempty_str_iff Json.null s = (λ h. absurd (cc h), λ (e, ne). absurd (cc e))
as_nonempty_str_iff Json.other_num s = (λ h. absurd (cc h), λ (e, ne). absurd (cc e))
as_nonempty_str_iff (Json.bool b) s = (λ h. absurd (cc h), λ (e, ne). absurd (cc e))
as_nonempty_str_iff (Json.num n) s = (λ h. absurd (cc h), λ (e, ne). absurd (cc e))
as_nonempty_str_iff (Json.arr js) s = (λ h. absurd (cc h), λ (e, ne). absurd (cc e))
as_nonempty_str_iff (Json.obj fs) s = (λ h. absurd (cc h), λ (e, ne). absurd (cc e))

pub only_version_iff :
    (versions : List Json) (s : Str)
    → (only_version versions ≡ some s) ↔ ((versions ≡ str s ∷ []) × (s ≢ []))
unfolding only_version
only_version_iff [] s = (λ h. absurd (cc h), λ (e, ne). absurd (cc e))
only_version_iff (version ∷ []) s = (
  λ h. let (e, ne) = (as_nonempty_str_iff version s).0 h in (ap (λ v. v ∷ []) e, ne),
  λ (e, ne). (as_nonempty_str_iff version s).1 (cc e, ne),
)
only_version_iff (version ∷ next ∷ versions) s = (λ h. absurd (cc h), λ (e, ne). absurd (cc e))
