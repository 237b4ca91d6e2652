-- ===== src/Text/Case.antt =====
-- `strings.ToLower`, `strings.EqualFold`, `strings.TrimSpace`, `strings.TrimLeft`, `TrimRight`.
use mailout_operator.Base.{
  ℕ, ◌+◌, Bool, ◌&&◌, ◌||◌, [], ◌∷◌, ◌≡◌, refl, arith, ◌==◌, leb, if◌then◌else◌,
}
use mailout_operator.Text.Equality.{Bytes, same}

unfoldable pub lower_byte : ℕ → ℕ
lower_byte c = if leb b'A' c && leb c b'Z' then c + 32 else c

unfoldable pub to_lower : Bytes → Bytes
unfolding lower_byte
to_lower [] = []
to_lower (c ∷ s) = lower_byte c ∷ to_lower s

unfoldable pub equal_fold : Bytes → Bytes → Bool
equal_fold s t = same (to_lower s) (to_lower t)

unfoldable pub is_space : ℕ → Bool
is_space c = leb 9 c && leb c 13 || c == b' '

-- `strings.TrimLeftFunc`
unfoldable pub trim_left : (ℕ → Bool) → Bytes → Bytes
trim_left cut [] = []
trim_left cut (c ∷ s) = if cut c then trim_left cut s else c ∷ s

-- A byte goes before what is left of the text behind it.
unfoldable pub keep_last : (ℕ → Bool) → ℕ → Bytes → Bytes
keep_last cut c [] = if cut c then [] else c ∷ []
keep_last cut c (d ∷ s) = c ∷ d ∷ s

-- `strings.TrimRightFunc`
unfoldable pub trim_right : (ℕ → Bool) → Bytes → Bytes
unfolding keep_last
trim_right cut [] = []
trim_right cut (c ∷ s) = keep_last cut c (trim_right cut s)

unfoldable pub trim_space : Bytes → Bytes
unfolding trim_left trim_right is_space
trim_space s = trim_right is_space (trim_left is_space s)

pub to_lower-to_lower : (s : Bytes) → to_lower (to_lower s) ≡ to_lower s
unfolding to_lower
to_lower-to_lower [] = refl
to_lower-to_lower (c ∷ s) = ground (arith, to_lower-to_lower s)
