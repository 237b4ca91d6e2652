-- ===== src/Text/Trim.antt =====
-- Trimming and lower case: both leave what they have produced as it is.
use mailout_operator.Base.{
  true, ◌++◌, ℕ, Bool, false, [], ◌∷◌, ◌≡◌, inl, inr, refl, arith, ◌==◌, Bool-cases,
}
use mailout_operator.Text.Equality.{Bytes}
use mailout_operator.Text.Search.{contains}
use mailout_operator.Text.Case.{
  lower_byte, to_lower, to_lower-to_lower, is_space, trim_left, trim_right, keep_last, trim_space,
}

is_space-lower : (c : ℕ) → is_space (lower_byte c) ≡ is_space c
unfolding is_space lower_byte
is_space-lower c = ground arith

trim_left-lower : (s : Bytes) → trim_left is_space (to_lower s) ≡ to_lower (trim_left is_space s)
unfolding trim_left to_lower
trim_left-lower [] = refl
trim_left-lower (c ∷ s) = ground (arith, is_space-lower c, trim_left-lower s)

keep_last-lower :
    (c : ℕ) (s : Bytes)
    → keep_last is_space (lower_byte c) (to_lower s) ≡ to_lower (keep_last is_space c s)
unfolding keep_last to_lower
keep_last-lower c [] = ground (arith, is_space-lower c)
keep_last-lower c (d ∷ s) = refl

trim_right-lower : (s : Bytes) → trim_right is_space (to_lower s) ≡ to_lower (trim_right is_space s)
unfolding trim_right to_lower
trim_right-lower [] = refl
trim_right-lower (c ∷ s) = rw (trim_right-lower s) (keep_last-lower c (trim_right is_space s))

-- The text is empty, or its first byte stays.
abbrev Starts : (ℕ → Bool) → Bytes → Type 0
Starts p [] = Unit
Starts p (c ∷ s) = p c ≡ false

module _ (p : ℕ → Bool) where
  trim_left-Starts : (s : Bytes) → Starts p (trim_left p s)
  unfolding trim_left
  trim_left-Starts [] = tt
  trim_left-Starts (c ∷ s) = elim (Bool-cases (p c)) [
    | inl e ↦ rw e (trim_left-Starts s)
    | inr e ↦ rw e e
  ]

  keep_last-Starts : (c : ℕ) (s : Bytes) → p c ≡ false → Starts p (keep_last p c s)
  unfolding keep_last
  keep_last-Starts c [] h = rw h h
  keep_last-Starts c (d ∷ s) h = h

  trim_right-Starts : (s : Bytes) → Starts p s → Starts p (trim_right p s)
  unfolding trim_right
  trim_right-Starts [] h = tt
  trim_right-Starts (c ∷ s) h = keep_last-Starts c (trim_right p s) h

  trim_left_clean : (s : Bytes) → Starts p s → trim_left p s ≡ s
  unfolding trim_left
  trim_left_clean [] h = refl
  trim_left_clean (c ∷ s) h = rw h

  trim_right-keep_last :
      (c : ℕ) (r : Bytes) → trim_right p r ≡ r → trim_right p (keep_last p c r) ≡ keep_last p c r
  unfolding trim_right keep_last
  trim_right-keep_last c [] h = ground arith
  trim_right-keep_last c (d ∷ s) h = rw h

  pub trim_right-trim_right : (s : Bytes) → trim_right p (trim_right p s) ≡ trim_right p s
  unfolding trim_right
  trim_right-trim_right [] = refl
  trim_right-trim_right (c ∷ s) = trim_right-keep_last c (trim_right p s) (trim_right-trim_right s)

pub trim_space-trim_space : (s : Bytes) → trim_space (trim_space s) ≡ trim_space s
unfolding trim_space
trim_space-trim_space s =
    let t = trim_left is_space s in
    rw
      (trim_left_clean is_space (trim_right is_space t)
        (trim_right-Starts is_space t (trim_left-Starts is_space s)))
      (trim_right-trim_right is_space t)

pub trim_space-to_lower : (s : Bytes) → trim_space (to_lower s) ≡ to_lower (trim_space s)
unfolding trim_space
trim_space-to_lower s = rw (trim_left-lower s) (trim_right-lower (trim_left is_space s))

-- A normalised entry is its own normal form.
pub normalize-normalize :
    (s : Bytes) → to_lower (trim_space (to_lower (trim_space s))) ≡ to_lower (trim_space s)
normalize-normalize s =
    rw (trim_space-to_lower, trim_space-trim_space) (to_lower-to_lower (trim_space s))

-- Trimming brings no byte in.
module _ (b : ℕ) (p : ℕ → Bool) where
  contains-trim_left : (s : Bytes) → contains b s ≡ false → contains b (trim_left p s) ≡ false
  unfolding trim_left contains
  contains-trim_left [] h = refl
  contains-trim_left (c ∷ s) h = ground (arith, contains-trim_left s)

  pub contains-keep_last :
      (c : ℕ) (s : Bytes)
      → (c == b) ≡ false
      → contains b s ≡ false
      → contains b (keep_last p c s) ≡ false
  unfolding keep_last contains
  contains-keep_last c [] e h = ground arith
  contains-keep_last c (d ∷ s) e h = ground arith

  pub contains-trim_right : (s : Bytes) → contains b s ≡ false → contains b (trim_right p s) ≡ false
  unfolding trim_right contains
  contains-trim_right [] h = refl
  contains-trim_right (c ∷ s) h =
      contains-keep_last c (trim_right p s) (ground arith) (contains-trim_right s (ground arith))

pub contains-trim_space :
    (b : ℕ) (s : Bytes) → contains b s ≡ false → contains b (trim_space s) ≡ false
unfolding trim_space
contains-trim_space b s h =
    contains-trim_right b is_space (trim_left is_space s) (contains-trim_left b is_space s h)

module _ (p : ℕ → Bool) where
  pub keep_last_clean : (c : ℕ) (t : Bytes) → p c ≡ false → keep_last p c t ≡ c ∷ t
  unfolding keep_last
  keep_last_clean c [] h = rw h
  keep_last_clean c (d ∷ t) h = refl

  keep_last-append :
      (x : ℕ) (s : Bytes) (c : ℕ) (t : Bytes) → keep_last p x (s ++ c ∷ t) ≡ x ∷ (s ++ c ∷ t)
  unfolding keep_last
  keep_last-append x [] c t = refl
  keep_last-append x (y ∷ s) c t = refl

  -- Up to a byte that stays, trimming on the right changes nothing.
  pub trim_right-append :
      (s : Bytes) (c : ℕ) (t : Bytes)
      → p c ≡ false
      → trim_right p (s ++ c ∷ t) ≡ s ++ c ∷ trim_right p t
  unfolding trim_right
  trim_right-append [] c t h = keep_last_clean c (trim_right p t) h
  trim_right-append (x ∷ s) c t h =
      rw (trim_right-append s c t h) (keep_last-append x s c (trim_right p t))

  pub trim_right_snoc :
      (s : Bytes) (c : ℕ) → p c ≡ true → trim_right p (s ++ c ∷ []) ≡ trim_right p s
  unfolding trim_right keep_last
  trim_right_snoc [] c h = rw h
  trim_right_snoc (x ∷ s) c h = rw (trim_right_snoc s c h)

  -- What is behind the first byte of a trimmed text is trimmed.
  pub trim_right_tail : (x : ℕ) (s : Bytes) → trim_right p (x ∷ s) ≡ x ∷ s → trim_right p s ≡ s
  unfolding trim_right keep_last
  trim_right_tail x s h = go (trim_right p s) refl
    where
      go : (r : Bytes) → trim_right p s ≡ r → trim_right p s ≡ s
      go [] e = ground arith
      go (y ∷ r) e = ground arith

  -- So is what is behind any byte of it.
  pub trim_right_suffix :
      (s : Bytes) (c : ℕ) (t : Bytes) → trim_right p (s ++ c ∷ t) ≡ s ++ c ∷ t → trim_right p t ≡ t
  trim_right_suffix [] c t h = trim_right_tail c t h
  trim_right_suffix (x ∷ s) c t h = trim_right_suffix s c t (trim_right_tail x (s ++ c ∷ t) h)
