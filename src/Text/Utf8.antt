-- ===== src/Text/Utf8.antt =====
-- UTF-8 as Go reads it, rune by rune.
use mailout_operator.Base.{
  ℕ, zero, suc, ◌-◌, ◌≤◌, Bool, true, false, ◌&&◌, [], ◌∷◌, inl, inr, arith, ◌==◌, ltb, leb,
  if◌then◌else◌, Bool-cases,
}
use mailout_operator.Text.Equality.{Bytes}

abbrev pub between : ℕ → ℕ → ℕ → Bool
between low high c = leb low c && leb c high

abbrev two : Bytes → ℕ
two [] = 0
two (b ∷ s) = if between 128 191 b then 2 else 0

abbrev three : ℕ → ℕ → Bytes → ℕ
three low high (b ∷ c ∷ s) = if between low high b && between 128 191 c then 3 else 0
three low high _ = 0

abbrev four : ℕ → ℕ → Bytes → ℕ
four low high (b ∷ c ∷ d ∷ s) =
    if between low high b && (between 128 191 c && between 128 191 d) then 4 else 0
four low high _ = 0

-- The length of the encoded rune at the front, 0 when there is none.
unfoldable pub rune_length : ℕ → Bytes → ℕ
rune_length a s =
    if ltb a 128
    then 1
    else if between 194 223 a
    then two s
    else if a == 224
    then three 160 191 s
    else if a == 237
    then three 128 159 s
    else if between 225 239 a
    then three 128 191 s
    else if a == 240
    then four 144 191 s
    else if a == 244
    then four 128 143 s
    else if between 241 243 a
    then four 128 191 s
    else 0

-- So many bytes at the front are not ASCII.
abbrev pub AreHigh : ℕ → Bytes → Type 0
AreHigh zero s = Unit
AreHigh (suc k) [] = Unit
AreHigh (suc k) (c ∷ s) = (128 ≤ c) × AreHigh k s

two-AreHigh : (s : Bytes) → AreHigh (two s - 1) s
two-AreHigh [] = tt
two-AreHigh (b ∷ s) = elim (Bool-cases (between 128 191 b)) [
  | inl y ↦ rw y (ground (arith, y), tt)
  | inr n ↦ rw n tt
]

three-AreHigh : (low high : ℕ) (s : Bytes) → 128 ≤ low → AreHigh (three low high s - 1) s
three-AreHigh low high [] h = tt
three-AreHigh low high (b ∷ []) h = tt
three-AreHigh low high (b ∷ c ∷ s) h = elim (Bool-cases (between low high b && between 128 191 c)) [
  | inl y ↦ rw y (ground (arith, y), (ground (arith, y), tt))
  | inr n ↦ rw n tt
]

four-AreHigh : (low high : ℕ) (s : Bytes) → 128 ≤ low → AreHigh (four low high s - 1) s
four-AreHigh low high [] h = tt
four-AreHigh low high (b ∷ []) h = tt
four-AreHigh low high (b ∷ c ∷ []) h = tt
four-AreHigh low high (b ∷ c ∷ d ∷ s) h =
    elim (Bool-cases (between low high b && (between 128 191 c && between 128 191 d))) [
      | inl y ↦ rw y (ground (arith, y), (ground (arith, y), (ground (arith, y), tt)))
      | inr n ↦ rw n tt
    ]

either-AreHigh :
    (test : Bool) (m n : ℕ) (s : Bytes)
    → AreHigh (m - 1) s
    → AreHigh (n - 1) s
    → AreHigh ((if test then m else n) - 1) s
either-AreHigh true m n s a b = a
either-AreHigh false m n s a b = b

-- Behind the first byte of a rune there are only bytes that are not ASCII.
pub rune_length-AreHigh : (a : ℕ) (s : Bytes) → AreHigh (rune_length a s - 1) s
unfolding rune_length
rune_length-AreHigh a s = either-AreHigh (ltb a 128) 1 _ s tt (
    either-AreHigh (between 194 223 a) (two s) _ s (two-AreHigh s) (
      either-AreHigh (a == 224) (three 160 191 s) _ s (three-AreHigh 160 191 s (omega arith)) (
        either-AreHigh (a == 237) (three 128 159 s) _ s (three-AreHigh 128 159 s (omega arith)) (
          either-AreHigh (between 225 239 a) (three 128 191 s) _ s
            (three-AreHigh 128 191 s (omega arith))
            (either-AreHigh (a == 240) (four 144 191 s) _ s (four-AreHigh 144 191 s (omega arith)) (
              either-AreHigh (a == 244) (four 128 143 s) _ s (four-AreHigh 128 143 s (omega arith))
                (either-AreHigh (between 241 243 a) (four 128 191 s) 0 s
                  (four-AreHigh 128 191 s (omega arith)) tt)))))))
