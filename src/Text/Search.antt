-- ===== src/Text/Search.antt =====
-- `strings.Cut`, `strings.LastIndex`, `strings.HasPrefix` and their kin.
use mailout_operator.Base.{
  refl, ℕ, Bool, false, ◌||◌, [], ◌∷◌, ◌++◌, Option, none, some, ◌≡◌, inl, inr, arith, ◌==◌,
  if◌then◌else◌, Option-cases,
}
use mailout_operator.Text.Equality.{Bytes}

-- Does the byte stand in the text?
unfoldable pub contains : ℕ → Bytes → Bool
contains c [] = false
contains c (x ∷ s) = x == c || contains c s

unfoldable pub cut_cons : ℕ → Option (Bytes × Bytes) → Option (Bytes × Bytes)
cut_cons x none = none
cut_cons x (some (before, after)) = some (x ∷ before, after)

-- `strings.Cut` at a one-byte separator; `none` is "not found".
unfoldable pub cut : ℕ → Bytes → Option (Bytes × Bytes)
unfolding cut_cons
cut c [] = none
cut c (x ∷ s) = if x == c then some ([], s) else cut_cons x (cut c s)

-- The text after the last `c`: `s[strings.LastIndex(s, c)+1:]`.
unfoldable pub after_last : ℕ → Bytes → Option Bytes
after_last c [] = none
after_last c (x ∷ s) = elim (after_last c s) [
  | some t ↦ some t
  | none ↦ if x == c then some s else none
]

-- `cut` splits at the first separator.
pub cut-eq_some :
    (c : ℕ) (s : Bytes) {l r : Bytes}
    → cut c s ≡ some (l, r)
    → (s ≡ l ++ (c ∷ r)) × (contains c l ≡ false)
unfolding cut contains
cut-eq_some c [] h = cc
cut-eq_some c (x ∷ s) h = elim (Option-cases (cut c s)) [
  | inl e ↦ ground arith
  | inr ((b, a), e) ↦ ground (arith, cut-eq_some c s e)
]

pub cut-append : (c : ℕ) (l r : Bytes) → contains c l ≡ false → cut c (l ++ (c ∷ r)) ≡ some (l, r)
unfolding cut contains
cut-append c [] r h = ground arith
cut-append c (x ∷ l) r h = ground (arith, cut-append c l r)

pub after_last-none : (c : ℕ) (s : Bytes) → contains c s ≡ false → after_last c s ≡ none
unfolding contains after_last
after_last-none c [] h = refl
after_last-none c (x ∷ s) h = ground (arith, after_last-none c s)

pub contains-append : (c : ℕ) (s t : Bytes) → contains c (s ++ t) ≡ (contains c s || contains c t)
unfolding contains
contains-append c [] t = refl
contains-append c (x ∷ s) t = ground (arith, contains-append c s t)
