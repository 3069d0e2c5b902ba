-- ===== src/Json.antt =====
-- JSON values as Python holds them after decoding. A dict has each key once; `num n` is any number
-- equal to the natural number n, and `other_num` any other number.
use k8s_stack_keycloak_api_k.Base.{
  ℕ, Str, Bool, true, false, not, Option, none, some, List, [], ◌∷◌, ◌==◌, nat_eq, str_eq, is_empty,
  if◌then◌else◌,
}

mutual
  pub data Json : Type 0 where
    null other_num : Json
    bool : Bool → Json
    num : ℕ → Json
    str : Str → Json
    arr : Items → Json
    obj : Fields → Json

  pub data Items : Type 0 where
    nil : Items
    cons : Json → Items → Items

  pub data Fields : Type 0 where
    end : Fields
    field : Str → Json → Fields → Fields

abbrev pub items : Items → List Json
items nil = []
items (cons j js) = j ∷ items js

-- `d.get(key, default)`
unfoldable pub get_or : Str → Json → Fields → Json
get_or key default end = default
get_or key default (field k j fs) = if k == key then j else get_or key default fs

-- `d.get(key)`, and `d[key]` where the key is there; Python's `None` is `null`
abbrev pub get : Str → Fields → Json
get key fs = get_or key null fs

-- `set(d)`
unfoldable pub keys : Fields → List Str
keys end = []
keys (field k j fs) = k ∷ keys fs

-- `x if isinstance(x, str) else None`, and so for list and dict
abbrev pub as_str : Json → Option Str
as_str (str s) = some s
as_str _ = none

abbrev pub as_list : Json → Option (List Json)
as_list (arr js) = some (items js)
as_list _ = none

abbrev pub as_dict : Json → Option Fields
as_dict (obj fs) = some fs
as_dict _ = none

-- `isinstance(x, str) and x`
abbrev pub as_nonempty_str : Json → Option Str
as_nonempty_str (str []) = none
as_nonempty_str (str (c ∷ s)) = some (c ∷ s)
as_nonempty_str _ = none

-- `x == s` for a text `s`, and `x == n` for a number
abbrev pub is_text : Str → Json → Bool
is_text t (str s) = s == t
is_text t _ = false

abbrev pub is_number : ℕ → Json → Bool
is_number n (num m) = m == n
is_number n (bool true) = n == 1
is_number n (bool false) = n == 0
is_number n _ = false

-- `bool(x)`
unfoldable pub truthy : Json → Bool
truthy null = false
truthy other_num = true
truthy (bool b) = b
truthy (num n) = not (n == 0)
truthy (str s) = not (is_empty s)
truthy (arr nil) = false
truthy (arr (cons j js)) = true
truthy (obj end) = false
truthy (obj (field k j fs)) = true

-- All entries as texts, if every entry is one.
abbrev pub all_texts : List Json → Option (List Str)
all_texts [] = some []
all_texts (j ∷ js) = elim (as_str j) [
  | none ↦ none
  | some s ↦ elim (all_texts js) [ none ↦ none | some ss ↦ some (s ∷ ss) ]
]
