-- ===== src/Text/Sorting.antt =====
-- `sort.Strings`: texts in byte order.
use mailout_operator.Base.{
  inr, inl, Bool-cases, All, some_of, Bool, true, false, ◌&&◌, ◌||◌, List, [], ◌∷◌, ◌≡◌, refl,
  arith, ◌==◌, ltb, if◌then◌else◌,
}
use mailout_operator.Text.Equality.{Bytes}

-- `s <= t` in byte order.
unfoldable pub at_most : Bytes → Bytes → Bool
at_most [] t = true
at_most (x ∷ s) [] = false
at_most (x ∷ s) (y ∷ t) = ltb x y || (x == y && at_most s t)

unfoldable pub insert_sorted : Bytes → List Bytes → List Bytes
unfolding at_most
insert_sorted k [] = k ∷ []
insert_sorted k (x ∷ xs) = if at_most k x then k ∷ x ∷ xs else x ∷ insert_sorted k xs

unfoldable pub sort : List Bytes → List Bytes
unfolding insert_sorted
sort [] = []
sort (x ∷ xs) = insert_sorted x (sort xs)

module _ (p : Bytes → Bool) where
  some_of-insert_sorted :
      (k : Bytes) (xs : List Bytes) → some_of p (insert_sorted k xs) ≡ (p k || some_of p xs)
  unfolding insert_sorted
  some_of-insert_sorted k [] = refl
  some_of-insert_sorted k (x ∷ xs) = ground (arith, some_of-insert_sorted k xs)

  -- Sorting keeps the elements.
  pub some_of-sort : (xs : List Bytes) → some_of p (sort xs) ≡ some_of p xs
  unfolding sort
  some_of-sort [] = refl
  some_of-sort (x ∷ xs) = ground (arith, some_of-sort xs, some_of-insert_sorted x (sort xs))

module _ (P : Bytes → Type 0) where
  All-insert_sorted : (k : Bytes) (xs : List Bytes) → P k → All P xs → All P (insert_sorted k xs)
  unfolding insert_sorted
  All-insert_sorted k [] h a = (h, tt)
  All-insert_sorted k (x ∷ xs) h a = elim (Bool-cases (at_most k x)) [
    | inl e ↦ rw e (h, a)
    | inr e ↦ rw e (a.0, All-insert_sorted k xs h a.1)
  ]

  pub All-sort : (xs : List Bytes) → All P xs → All P (sort xs)
  unfolding sort
  All-sort [] a = tt
  All-sort (x ∷ xs) a = All-insert_sorted x (sort xs) a.0 (All-sort xs a.1)
