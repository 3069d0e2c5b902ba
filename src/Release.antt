-- ===== src/Release.antt =====
-- scripts/verify_release_tag.py: a release tag must agree with pyproject.toml and uv.lock.
pub mod Roots
pub mod Verified
use k8s_stack_keycloak_api_k.Base.{
  ℕ, Str, codes, Bool, true, false, ◌&&◌, Option, none, some, List, [], ◌∷◌, ◌++◌, ◌==◌, nat_eq,
  str_eq, leb, if◌then◌else◌, Result, ok, err, ◌>>=◌, ◌>>◌, require, or_raise,
}
use k8s_stack_keycloak_api_k.Regex.{Regex, cls, lit, seq, alt, many, fullmatch}
use k8s_stack_keycloak_api_k.Json.{Json, Fields, get, as_list, as_dict, as_nonempty_str, is_text}

-- What the script reads: each file as `tomllib.load` returns it, `none` where that raises an
-- `OSError`, a `TOMLDecodeError` or, for text that is not UTF-8, a `ValueError`; and which characters
-- `\d` matches.
pub record Sources : Type 0 where
  pub project_file : Option Fields
  pub lock_file : Option Fields
  pub is_decimal : ℕ → Bool

-- the exceptions that `main` catches
pub data ReleaseError : Type 0 where
  bad_tag unreadable no_project no_name no_version no_root_package : ReleaseError
  versions_differ tag_differs : ReleaseError

-- `[1-9]`
abbrev pub is_nonzero : ℕ → Bool
is_nonzero c = leb b'1' c && leb c b'9'

-- `0|[1-9]\d*`
abbrev pub number : (ℕ → Bool) → Regex
number is_decimal = alt (lit (codes "0")) (seq (cls is_nonzero) (many is_decimal))

-- `TAG_PATTERN`
unfoldable pub tag_pattern : (ℕ → Bool) → Regex
tag_pattern is_decimal = seq (lit (codes "v")) (
    seq (number is_decimal)
      (seq (lit (codes ".")) (seq (number is_decimal) (seq (lit (codes ".")) (number is_decimal)))))

unfoldable pub load_project_metadata : Option Fields → Result ReleaseError (Str × Str)
load_project_metadata file = do
  document ← or_raise file unreadable
  project ← or_raise (as_dict (get (codes "project") document)) no_project
  name ← or_raise (as_nonempty_str (get (codes "name") project)) no_name
  version ← or_raise (as_nonempty_str (get (codes "version") project)) no_version
  ok (name, version)

-- `isinstance(source, dict) and source.get("editable") == "."`
is_editable : Option Fields → Bool
is_editable none = false
is_editable (some source) = is_text (codes ".") (get (codes "editable") source)

is_root : Str → Fields → Bool
unfolding is_editable
is_root project_name fields =
    is_text project_name (get (codes "name") fields)
    && is_editable (as_dict (get (codes "source") fields))

root_of : Str → Option Fields → Option Fields
unfolding is_root
root_of project_name none = none
root_of project_name (some fields) = if is_root project_name fields then some fields else none

-- an entry of the lock file, if it is the project's editable root package
unfoldable pub root_package : Str → Json → Option Fields
unfolding root_of
root_package project_name entry = root_of project_name (as_dict entry)

add_version : Option Fields → List Json → List Json
add_version none versions = versions
add_version (some fields) versions = get (codes "version") fields ∷ versions

-- the loop that collects `versions`
unfoldable pub root_versions : Str → List Json → List Json
unfolding root_package add_version
root_versions project_name [] = []
root_versions project_name (entry ∷ packages) =
    add_version (root_package project_name entry) (root_versions project_name packages)

-- `versions[0]`, if it is alone and a text that is not empty
unfoldable pub only_version : List Json → Option Str
only_version [] = none
only_version (version ∷ []) = as_nonempty_str version
only_version (version ∷ next ∷ versions) = none

unfoldable pub load_lock_version : Option Fields → Str → Result ReleaseError Str
unfolding root_versions only_version
load_lock_version file project_name = do
  document ← or_raise file unreadable
  packages ← or_raise (as_list (get (codes "package") document)) no_root_package
  or_raise (only_version (root_versions project_name packages)) no_root_package

unfoldable pub verify_release_tag : Sources → Str → Result ReleaseError Str
unfolding tag_pattern load_project_metadata load_lock_version
verify_release_tag files tag = do
  require (fullmatch (tag_pattern files.is_decimal) tag) bad_tag
  project ← load_project_metadata files.project_file
  lock_version ← load_lock_version files.lock_file project.0
  require (project.1 == lock_version) versions_differ
  require (tag == codes "v" ++ project.1) tag_differs
  ok tag

exit_code : Result ReleaseError Str → ℕ
exit_code (ok verified) = 0
exit_code (err e) = 1

-- `main`: the exit code for the arguments of the command line
unfoldable pub main : Sources → List Str → ℕ
unfolding exit_code verify_release_tag
main files [] = 2
main files (tag ∷ []) = exit_code (verify_release_tag files tag)
main files (tag ∷ next ∷ arguments) = 2
