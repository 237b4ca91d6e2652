-- ===== src/Text/Equality.antt =====
-- Texts as lists of bytes, their equality, and sets of texts (`map[string]bool`).
use mailout_operator.Base.{
  ℕ, Bool, true, false, ◌&&◌, ◌||◌, List, [], ◌∷◌, ◌≡◌, ◌↔◌, refl, arith, ◌==◌, if◌then◌else◌,
  Bool-cases, inl, inr,
}

abbrev pub Bytes : Type 0
Bytes = List ℕ

-- `s == t`
unfoldable pub same : Bytes → Bytes → Bool
same [] [] = true
same (x ∷ xs) (y ∷ ys) = x == y && same xs ys
same _ _ = false

pub same_iff : (a b : Bytes) → (same a b ≡ true) ↔ (a ≡ b)
unfolding same
same_iff (x ∷ a) (y ∷ b) = ground (arith, same_iff a b)
same_iff _ _ = ground arith

pub same_refl : (a : Bytes) → same a a ≡ true
same_refl a = (same_iff a a).1 refl

-- `set[key]`
unfoldable pub has : Bytes → List Bytes → Bool
has k [] = false
has k (x ∷ xs) = same x k || has k xs

-- `set[key] = true`: a key is held once.
unfoldable pub add : Bytes → List Bytes → List Bytes
add k s = if has k s then s else k ∷ s

-- Equal keys are found alike.
has-same : (k j : Bytes) (s : List Bytes) → k ≡ j → has k s ≡ has j s
has-same k j s e = rw e

pub has-add : (j k : Bytes) (s : List Bytes) → has j (add k s) ≡ (same k j || has j s)
unfolding has add
has-add j k s = elim (Bool-cases (has k s)) [
  | inl held ↦ ground (arith, has-same k j s, same_iff k j)
  | inr new ↦ ground arith
]
