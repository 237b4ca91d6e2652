-- ===== src/Text/Order.antt =====
-- The order of strings in Go, and sorting by a text.
use mailout_operator.Base.{Bool, true, false, [], ◌∷◌, ◌≡◌, refl, arith, ltb, if◌then◌else◌}
use mailout_operator.Text.Equality.{Bytes}

-- `s < t`
unfoldable pub text_before : Bytes → Bytes → Bool
text_before [] [] = false
text_before [] (d ∷ t) = true
text_before (c ∷ s) [] = false
text_before (c ∷ s) (d ∷ t) =
    let rest = text_before s t in if ltb c d then true else if ltb d c then false else rest

pub text_before_total : (s t : Bytes) → text_before s t ≡ false → text_before t s ≡ false → s ≡ t
unfolding text_before
text_before_total [] [] h k = refl
text_before_total [] (d ∷ t) h k = cc
text_before_total (c ∷ s) [] h k = cc
text_before_total (c ∷ s) (d ∷ t) h k = ground (arith, text_before_total s t)

pub text_before_asym : (s t : Bytes) → text_before s t ≡ true → text_before t s ≡ false
unfolding text_before
text_before_asym [] [] h = cc
text_before_asym [] (d ∷ t) h = refl
text_before_asym (c ∷ s) [] h = cc
text_before_asym (c ∷ s) (d ∷ t) h = ground (arith, text_before_asym s t)

pub text_before_trans :
    (s t u : Bytes) → text_before s t ≡ true → text_before t u ≡ true → text_before s u ≡ true
unfolding text_before
text_before_trans [] [] u h k = cc
text_before_trans [] (d ∷ t) [] h k = cc
text_before_trans [] (d ∷ t) (e ∷ u) h k = refl
text_before_trans (c ∷ s) [] u h k = cc
text_before_trans (c ∷ s) (d ∷ t) [] h k = cc
text_before_trans (c ∷ s) (d ∷ t) (e ∷ u) h k = ground (arith, text_before_trans s t u)
