-- ===== src/Regex/Laws.antt =====
-- `fullmatch` decides the language of the expression.
use k8s_stack_keycloak_api_k.Base.{
  ℕ, zero, suc, ◌≤◌, Str, ◌≡◌, refl, sym, ap, subst, ◌∙◌, Bool, true, ◌||◌, [], ◌∷◌, ◌++◌, ◌⊎◌, ◌↔◌,
  inl, inr, ◌==◌, nat_eq, length, All, is_empty, arith, and-true, nat_beq_iff,
}
use mathlib.Core.List.{append-nil, append_assoc}
use k8s_stack_keycloak_api_k.Regex.{
  Regex, cls, lit, seq, alt, upto, many, Matches, run_lit, run_upto, run_many, run_cls, run,
  fullmatch,
}

-- some split of `s` into a match and a rest that `k` accepts
abbrev Splits : Regex → Str → (Str → Bool) → Type 0
Splits r s k = (u : Str) × (v : Str) × (s ≡ u ++ v) × Matches r u × (k v ≡ true)

or-true : (a b : Bool) → (a || b) ≡ true → (a ≡ true) ⊎ (b ≡ true)
or-true a b h = ground arith

run_lit_sound : (t s : Str) (k : Str → Bool) → run_lit t s k ≡ true → Splits (lit t) s k
unfolding run_lit
run_lit_sound [] s k h = ([], s, refl, refl, h)
run_lit_sound (t ∷ ts) [] k h = cc
run_lit_sound (t ∷ ts) (c ∷ s) k h =
    let (same, more) = and-true (t == c) (run_lit ts s k) h in
    let (u, v, e, m, acc) = run_lit_sound ts s k more in
    (c ∷ u, v, ap (◌∷◌ c) e, cc (m, (nat_beq_iff t c).0 same), acc)

run_upto_sound :
    (n : ℕ) (p : ℕ → Bool) (s : Str) (k : Str → Bool)
    → run_upto n p s k ≡ true
    → Splits (upto n p) s k
unfolding run_upto
run_upto_sound zero p s k h = ([], s, refl, (omega arith, tt), h)
run_upto_sound (suc n) p [] k h = ([], [], refl, (omega arith, tt), h)
run_upto_sound (suc n) p (c ∷ s) k h = elim (or-true (k (c ∷ s)) _ h) [
  | inl stop ↦ ([], c ∷ s, refl, (omega arith, tt), stop)
  | inr go ↦
      let (here, more) = and-true (p c) (run_upto n p s k) go in
      let (u, v, e, m, acc) = run_upto_sound n p s k more in
      (c ∷ u, v, ap (◌∷◌ c) e, (omega (arith, m.0), (here, m.1)), acc)
]

run_many_sound :
    (p : ℕ → Bool) (s : Str) (k : Str → Bool) → run_many p s k ≡ true → Splits (many p) s k
unfolding run_many
run_many_sound p [] k h = ([], [], refl, tt, h)
run_many_sound p (c ∷ s) k h = elim (or-true (k (c ∷ s)) _ h) [
  | inl stop ↦ ([], c ∷ s, refl, tt, stop)
  | inr go ↦
      let (here, more) = and-true (p c) (run_many p s k) go in
      let (u, v, e, m, acc) = run_many_sound p s k more in (c ∷ u, v, ap (◌∷◌ c) e, (here, m), acc)
]

run_cls_sound :
    (p : ℕ → Bool) (s : Str) (k : Str → Bool) → run_cls p s k ≡ true → Splits (cls p) s k
unfolding run_cls
run_cls_sound p [] k h = cc
run_cls_sound p (c ∷ s) k h =
    let (here, acc) = and-true (p c) (k s) h in (c ∷ [], s, refl, (c, refl, here), acc)

run_sound : (r : Regex) (s : Str) (k : Str → Bool) → run r s k ≡ true → Splits r s k
unfolding run
run_sound (cls p) s k h = run_cls_sound p s k h
run_sound (lit t) s k h = run_lit_sound t s k h
run_sound (seq a b) s k h =
    let (u, rest, e, ma, h') = run_sound a s (λ t. run b t k) h in
    let (v, w, e', mb, acc) = run_sound b rest k h' in
    (u ++ v, w, e ∙ ap (λ t. u ++ t) e' ∙ sym (append_assoc u v w), (u, v, refl, ma, mb), acc)
run_sound (alt a b) s k h = elim (or-true (run a s k) _ h) [
  | inl left ↦ let (u, v, e, m, acc) = run_sound a s k left in (u, v, e, inl m, acc)
  | inr right ↦ let (u, v, e, m, acc) = run_sound b s k right in (u, v, e, inr m, acc)
]
run_sound (upto n p) s k h = run_upto_sound n p s k h
run_sound (many p) s k h = run_many_sound p s k h

run_lit_complete : (t v : Str) (k : Str → Bool) → k v ≡ true → run_lit t (t ++ v) k ≡ true
unfolding run_lit
run_lit_complete [] v k acc = acc
run_lit_complete (t ∷ ts) v k acc = rw ((nat_beq_iff t t).1 refl, run_lit_complete ts v k acc) refl

run_upto_complete :
    (n : ℕ) (p : ℕ → Bool) (u v : Str) (k : Str → Bool)
    → length u ≤ n
    → All (λ c. p c ≡ true) u
    → k v ≡ true
    → run_upto n p (u ++ v) k ≡ true
unfolding run_upto
run_upto_complete zero p [] v k short h acc = acc
run_upto_complete zero p (c ∷ u) v k short h acc = absurd (omega arith)
run_upto_complete (suc n) p [] [] k short h acc = acc
run_upto_complete (suc n) p [] (c ∷ v) k short h acc = rw acc refl
run_upto_complete (suc n) p (c ∷ u) v k short h acc =
    ground (arith, run_upto_complete n p u v k (omega arith) h.1 acc)

run_many_complete :
    (p : ℕ → Bool) (u v : Str) (k : Str → Bool)
    → All (λ c. p c ≡ true) u
    → k v ≡ true
    → run_many p (u ++ v) k ≡ true
unfolding run_many
run_many_complete p [] [] k h acc = acc
run_many_complete p [] (c ∷ v) k h acc = rw acc refl
run_many_complete p (c ∷ u) v k h acc = ground (arith, run_many_complete p u v k h.1 acc)

run_complete :
    (r : Regex) (u v : Str) (k : Str → Bool) → Matches r u → k v ≡ true → run r (u ++ v) k ≡ true
unfolding run
run_complete (cls p) u v k (c, e, here) acc = rw e (unfold run_cls in rw (here, acc) refl)
run_complete (lit t) u v k m acc = rw m (run_lit_complete t v k acc)
run_complete (seq a b) u v k (x, y, e, ma, mb) acc =
    rw (e, append_assoc)
      (run_complete a x (y ++ v) (λ t. run b t k) ma (run_complete b y v k mb acc))
run_complete (alt a b) u v k (inl m) acc = rw (run_complete a u v k m acc) refl
run_complete (alt a b) u v k (inr m) acc = ground (arith, run_complete b u v k m acc)
run_complete (upto n p) u v k m acc = run_upto_complete n p u v k m.0 m.1 acc
run_complete (many p) u v k m acc = run_many_complete p u v k m acc

nil_of_is_empty : (s : Str) → is_empty s ≡ true → s ≡ []
nil_of_is_empty [] h = refl
nil_of_is_empty (c ∷ s) h = cc

-- The matcher accepts exactly the texts that the expression denotes.
pub fullmatch_iff : (r : Regex) (s : Str) → (fullmatch r s ≡ true) ↔ Matches r s
unfolding fullmatch
fullmatch_iff r s = (
  λ h.
      let (u, v, e, m, acc) = run_sound r s is_empty h in
      subst (Matches r) (sym (e ∙ ap (λ t. u ++ t) (nil_of_is_empty v acc) ∙ append-nil u)) m,
  λ m. rw (append-nil s) at (run_complete r s [] is_empty m refl),
)
