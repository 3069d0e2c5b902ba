-- ===== src/Release/Verified.antt =====
-- Which tags the script accepts, and its exit codes.
use k8s_stack_keycloak_api_k.Base.{
  ℕ, ◌≡◌, ◌≢◌, ◌↔◌, refl, sym, ap, ◌∙◌, Str, codes, Bool, true, Option, some, List, [], ◌∷◌, ◌++◌,
  ◌==◌, ==_iff, ==_refl, str_eq, length, Result, ok, err, or_raise, bind-ok_iff, or_raise-ok_iff,
  require-ok_iff, arith,
}
use k8s_stack_keycloak_api_k.Regex.{Matches, fullmatch}
use k8s_stack_keycloak_api_k.Regex.Laws.{fullmatch_iff}
use k8s_stack_keycloak_api_k.Json.{Json, Fields, str, get, as_list, as_dict, as_nonempty_str}
use k8s_stack_keycloak_api_k.Release.Roots.{
  IsOnlyRoot, versions_one, one_version, as_nonempty_str_iff, only_version_iff,
}
use k8s_stack_keycloak_api_k.Release.{
  Sources, ReleaseError, unreadable, no_project, no_name, no_version, no_root_package, number,
  tag_pattern, load_project_metadata, root_versions, only_version, load_lock_version,
  verify_release_tag, exit_code, main,
}

-- a number of a version: zero, or digits of which the first is not zero
abbrev pub IsNumber : (ℕ → Bool) → Str → Type 0
IsNumber is_decimal s = Matches (number is_decimal) s

-- A tag of three numbers that is the project's version after `v`, in both files.
pub record IsRelease (files : Sources) (tag : Str) : Type 0 where
  pub major : Str
  pub minor : Str
  pub patch : Str
  pub numbers :
      IsNumber files.is_decimal major
      × IsNumber files.is_decimal minor
      × IsNumber files.is_decimal patch
  pub dotted : tag ≡ codes "v" ++ (major ++ (codes "." ++ (minor ++ (codes "." ++ patch))))
  pub project_document : Fields
  pub project_read : files.project_file ≡ some project_document
  pub project : Fields
  pub project_there : as_dict (get (codes "project") project_document) ≡ some project
  pub name : Str
  pub version : Str
  pub name_there : (get (codes "name") project ≡ str name) × (name ≢ [])
  pub version_there : (get (codes "version") project ≡ str version) × (version ≢ [])
  pub lock_document : Fields
  pub lock_read : files.lock_file ≡ some lock_document
  pub entries : List Json
  pub entries_there : as_list (get (codes "package") lock_document) ≡ some entries
  pub locked : IsOnlyRoot name entries (str version)
  pub tagged : tag ≡ codes "v" ++ version

-- the texts that `TAG_PATTERN` matches
abbrev Dotted : (ℕ → Bool) → Str → Type 0
Dotted is_decimal tag =
    (major : Str) × (minor : Str) × (patch : Str) × (tag
      ≡ codes "v" ++ (major ++ (codes "." ++ (minor ++ (codes "." ++ patch)))))
    × IsNumber is_decimal major
    × IsNumber is_decimal minor
    × IsNumber is_decimal patch

tag_pattern_iff :
    (is_decimal : ℕ → Bool) (tag : Str)
    → (fullmatch (tag_pattern is_decimal) tag ≡ true) ↔ Dotted is_decimal tag
unfolding tag_pattern
tag_pattern_iff is_decimal tag = (
  λ h.
      let (
        v,
        r1,
        e1,
        l1,
        (major, r2, e2, m, (dot, r3, e3, l2, (minor, r4, e4, n, (dot2, patch, e5, l3, p)))),
      ) =
        (fullmatch_iff (tag_pattern is_decimal) tag).0 h in
      (major, minor, patch, rw (e1, l1, e2, e3, l2, e4, e5, l3) refl, m, n, p),
  λ (major, minor, patch, e, m, n, p). (fullmatch_iff (tag_pattern is_decimal) tag).1 (
    _,
    _,
    e,
    refl,
    (major, _, refl, m, (_, _, refl, refl, (minor, _, refl, n, (_, patch, refl, refl, p)))),
  ),
)

-- what is read of the project, and of the lock file
abbrev HasProject : Option Fields → Str → Str → Type 0
HasProject file name version =
    (document : Fields) × (file ≡ some document)
    × ((project : Fields) × (as_dict (get (codes "project") document) ≡ some project)
        × ((get (codes "name") project ≡ str name) × (name ≢ []))
        × ((get (codes "version") project ≡ str version) × (version ≢ [])))

abbrev IsLocked : Option Fields → Str → Str → Type 0
IsLocked file name version =
    (document : Fields) × (file ≡ some document)
    × ((entries : List Json) × (as_list (get (codes "package") document) ≡ some entries)
        × IsOnlyRoot name entries (str version)
        × (version ≢ []))

load_project_iff :
    (file : Option Fields) (name version : Str)
    → (load_project_metadata file ≡ ok (name, version)) ↔ HasProject file name version
unfolding load_project_metadata
load_project_iff file name version = (
  λ h.
      let (document, read, h1) = (bind-ok_iff (or_raise file unreadable) _).0 h in
      let (project, there, h2) =
        (bind-ok_iff (or_raise (as_dict (get (codes "project") document)) no_project) _).0 h1 in
      let (n, named, h3) =
        (bind-ok_iff (or_raise (as_nonempty_str (get (codes "name") project)) no_name) _).0 h2 in
      let (v, versioned, h4) =
        (bind-ok_iff (or_raise (as_nonempty_str (get (codes "version") project)) no_version) _).0
          h3 in
      let i : n ≡ name = cc h4 in
      let j : v ≡ version = cc h4 in
      (
        document,
        (or_raise-ok_iff file unreadable document).0 read,
        (
          project,
          (or_raise-ok_iff (as_dict (get (codes "project") document)) no_project project).0 there,
          (as_nonempty_str_iff (get (codes "name") project) name).0 (
              (or_raise-ok_iff (as_nonempty_str (get (codes "name") project)) no_name n).0 named
              ∙ ap some i),
          (as_nonempty_str_iff (get (codes "version") project) version).0 (
              (or_raise-ok_iff (as_nonempty_str (get (codes "version") project)) no_version v).0
                versioned
              ∙ ap some j),
        ),
      ),
  λ (document, read, (project, there, named, versioned)).
      rw
        (
          read,
          there,
          (as_nonempty_str_iff (get (codes "name") project) name).1 named,
          (as_nonempty_str_iff (get (codes "version") project) version).1 versioned,
        )
        refl,
)

load_lock_iff :
    (file : Option Fields) (name version : Str)
    → (load_lock_version file name ≡ ok version) ↔ IsLocked file name version
unfolding load_lock_version
load_lock_iff file name version = (
  λ h.
      let (document, read, h1) = (bind-ok_iff (or_raise file unreadable) _).0 h in
      let (entries, there, h2) =
        (bind-ok_iff (or_raise (as_list (get (codes "package") document)) no_root_package) _).0
          h1 in
      let (one, ne) = (only_version_iff (root_versions name entries) version).0 (
        (or_raise-ok_iff (only_version (root_versions name entries)) no_root_package version).0
          h2) in
      (
        document,
        (or_raise-ok_iff file unreadable document).0 read,
        (
          entries,
          (or_raise-ok_iff (as_list (get (codes "package") document)) no_root_package entries).0
              there,
          versions_one name entries (str version) one,
          ne,
        ),
      ),
  λ (document, read, (entries, there, only, ne)).
      rw
        (
          read,
          there,
          (only_version_iff (root_versions name entries) version).1
              (one_version name entries (str version) only, ne),
        )
        refl,
)

IsRelease-of :
    (files : Sources) (tag name version : Str)
    → Dotted files.is_decimal tag
    → HasProject files.project_file name version
    → IsLocked files.lock_file name version
    → tag ≡ codes "v" ++ version
    → IsRelease files tag
IsRelease-of files tag name version (major, minor, patch, dotted, m, n, p)
      (document, read, (project, there, named, versioned))
      (lock, lock_read, (entries, listed, only, ne)) tagged =
    record {
      major = major;
      minor = minor;
      patch = patch;
      numbers = (m, n, p);
      dotted = dotted;
      project_document = document;
      project_read = read;
      project = project;
      project_there = there;
      name = name;
      version = version;
      name_there = named;
      version_there = versioned;
      lock_document = lock;
      lock_read = lock_read;
      entries = entries;
      entries_there = listed;
      locked = only;
      tagged = tagged;
    }

-- A tag is verified exactly if it is a release of the project, and then it is returned.
pub verify_release_tag_iff :
    (files : Sources) (tag out : Str)
    → (verify_release_tag files tag ≡ ok out) ↔ (IsRelease files tag × (out ≡ tag))
unfolding verify_release_tag
verify_release_tag_iff files tag out = (
  λ h.
      let (form, h1) = (require-ok_iff (fullmatch (tag_pattern files.is_decimal) tag) _ _).0 h in
      let ((name, version), project, h2) =
        (bind-ok_iff (load_project_metadata files.project_file) _).0 h1 in
      let (lock_version, lock, h3) =
        (bind-ok_iff (load_lock_version files.lock_file name) _).0 h2 in
      let (same, h4) = (require-ok_iff (version == lock_version) _ _).0 h3 in
      let (tagged, h5) = (require-ok_iff (tag == codes "v" ++ version) _ _).0 h4 in
      let e : tag ≡ out = cc h5 in
      let one : version ≡ lock_version = (==_iff version lock_version).0 same in
      (
        IsRelease-of files tag name version ((tag_pattern_iff files.is_decimal tag).0 form)
            ((load_project_iff files.project_file name version).0 project)
            ((load_lock_iff files.lock_file name version).0 (lock ∙ ap ok (sym one)))
            ((==_iff tag (codes "v" ++ version)).0 tagged),
        sym e,
      ),
  λ (is, e).
      rw
        (
          (tag_pattern_iff files.is_decimal tag).1
              (is.major, is.minor, is.patch, is.dotted, is.numbers.0, is.numbers.1, is.numbers.2),
          (load_project_iff files.project_file is.name is.version).1 (
            is.project_document,
            is.project_read,
            (is.project, is.project_there, is.name_there, is.version_there),
          ),
          (load_lock_iff files.lock_file is.name is.version).1 (
            is.lock_document,
            is.lock_read,
            (is.entries, is.entries_there, is.locked, is.version_there.1),
          ),
          ==_refl is.version,
          (==_iff tag (codes "v" ++ is.version)).1 is.tagged,
        )
        (ap ok (sym e)),
)

-- The script exits with zero exactly if its one argument is a release of the project, and with two
-- exactly if it has not one argument.
pub main_iff :
    (files : Sources) (arguments : List Str)
    → ((main files arguments ≡ 0) ↔ ((tag : Str) × (arguments ≡ tag ∷ []) × IsRelease files tag))
      × ((main files arguments ≡ 2) ↔ (length arguments ≢ 1))
unfolding main exit_code
main_iff files [] =
    ((λ h. absurd (omega arith), λ (tag, e, is). absurd (cc e)), (λ h one. omega arith, λ h. refl))
main_iff files (tag ∷ []) = (
  (
    λ h. (tag, refl, of_code (verify_release_tag files tag) refl h),
    λ (t, e, is).
        let same : tag ≡ t = cc e in
        rw ((verify_release_tag_iff files tag tag).1 (rw same is, refl)) refl,
  ),
  (λ h one. never_two (verify_release_tag files tag) h, λ h. absurd (h refl)),
)
  where
    of_code :
        (r : Result ReleaseError Str)
        → verify_release_tag files tag ≡ r
        → exit_code r ≡ 0
        → IsRelease files tag
    of_code (ok out) e h = ((verify_release_tag_iff files tag out).0 e).0
    of_code (err x) e h = absurd (omega arith)

    never_two : (r : Result ReleaseError Str) → exit_code r ≡ 2 → ⊥
    never_two (ok out) h = omega arith
    never_two (err x) h = omega arith
main_iff files (tag ∷ next ∷ arguments) = (
  (λ h. absurd (omega arith), λ (t, e, is). absurd (cc e)),
  (λ h one. omega (arith, one), λ h. refl),
)
