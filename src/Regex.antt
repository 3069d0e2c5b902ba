-- ===== src/Regex.antt =====
-- The regular expressions that the program's patterns use, and `re.fullmatch` as a matcher that
-- tries every way to split the text.
pub mod Laws
use k8s_stack_keycloak_api_k.Base.{
  ℕ, zero, suc, ◌≤◌, Str, ◌≡◌, Bool, true, false, ◌&&◌, ◌||◌, List, [], ◌∷◌, ◌++◌, ◌⊎◌, ◌==◌,
  nat_eq, length, All, is_empty, leb,
}

pub data Regex : Type 0 where
  -- one character of a class, `[A-Za-z0-9]`
  cls : (ℕ → Bool) → Regex
  lit : Str → Regex
  seq alt : Regex → Regex → Regex
  -- `[…]{0,n}` and `[…]*`
  upto : ℕ → (ℕ → Bool) → Regex
  many : (ℕ → Bool) → Regex

-- The texts that an expression denotes.
abbrev pub Matches : Regex → Str → Type 0
Matches (cls p) s = (c : ℕ) × (s ≡ c ∷ []) × (p c ≡ true)
Matches (lit t) s = s ≡ t
Matches (seq a b) s = (u : Str) × (v : Str) × (s ≡ u ++ v) × Matches a u × Matches b v
Matches (alt a b) s = Matches a s ⊎ Matches b s
Matches (upto n p) s = (length s ≤ n) × All (λ c. p c ≡ true) s
Matches (many p) s = All (λ c. p c ≡ true) s

run_lit : Str → Str → (Str → Bool) → Bool
run_lit [] s k = k s
run_lit (t ∷ ts) [] k = false
run_lit (t ∷ ts) (c ∷ s) k = (t == c) && run_lit ts s k

run_upto : ℕ → (ℕ → Bool) → Str → (Str → Bool) → Bool
run_upto zero p s k = k s
run_upto (suc n) p [] k = k []
run_upto (suc n) p (c ∷ s) k = k (c ∷ s) || (p c && run_upto n p s k)

run_many : (ℕ → Bool) → Str → (Str → Bool) → Bool
run_many p [] k = k []
run_many p (c ∷ s) k = k (c ∷ s) || (p c && run_many p s k)

run_cls : (ℕ → Bool) → Str → (Str → Bool) → Bool
run_cls p [] k = false
run_cls p (c ∷ s) k = p c && k s

-- `run r s k`: some prefix of `s` matches `r`, and `k` accepts the rest.
run : Regex → Str → (Str → Bool) → Bool
unfolding run_lit run_upto run_many run_cls
run (cls p) s k = run_cls p s k
run (lit t) s k = run_lit t s k
run (seq a b) s k = run a s (λ rest. run b rest k)
run (alt a b) s k = run a s k || run b s k
run (upto n p) s k = run_upto n p s k
run (many p) s k = run_many p s k

-- `re.fullmatch(r, s) is not None`
unfoldable pub fullmatch : Regex → Str → Bool
unfolding run
fullmatch r s = run r s is_empty

-- character classes
abbrev pub is_digit : ℕ → Bool
is_digit c = leb b'0' c && leb c b'9'

abbrev pub is_letter : ℕ → Bool
is_letter c = (leb b'A' c && leb c b'Z') || (leb b'a' c && leb c b'z')

-- `[A-Za-z0-9]`
abbrev pub is_alnum : ℕ → Bool
is_alnum c = is_letter c || is_digit c
