-- ===== src/RateLimit/Keys.antt =====
-- Counters of different accounts never share a key.
use mailout_operator.Base.{true, false, List, [], ◌∷◌, ◌++◌, ◌≡◌, refl, sym, ap, ◌∙◌, arith}
use mailout_operator.Text.{Bytes, contains, cut, cut-append, codes}
use mailout_operator.Config.{valid_username, all_safe}
use mailout_operator.RateLimit.{key}

append_left-injective {ℓ} : {A : Type ℓ} (p s t : List A) → p ++ s ≡ p ++ t → s ≡ t
append_left-injective [] s t e = e
append_left-injective (x ∷ p) s t e = append_left-injective p s t (cc)

split_colon :
    (a b s t : Bytes)
    → contains b':' a ≡ false
    → contains b':' b ≡ false
    → a ++ b':' ∷ s ≡ b ++ b':' ∷ t
    → (a ≡ b) × (s ≡ t)
split_colon a b s t ha hb e =
    let same_cut = sym (cut-append b':' a s ha) ∙ ap (cut b':') e ∙ cut-append b':' b t hb in
    ground (arith, same_cut)

all_safe-colon : (s : Bytes) → all_safe s ≡ true → contains b':' s ≡ false
unfolding all_safe contains
all_safe-colon [] h = refl
all_safe-colon (c ∷ s) h = ground (arith, all_safe-colon s)

pub valid_username-colon : (u : Bytes) → valid_username u ≡ true → contains b':' u ≡ false
unfolding valid_username
valid_username-colon u h = all_safe-colon u (ground arith)

-- On one gateway two counters with the same key are the same counter: the accounts are the same, if
-- their usernames are valid, and so are the dimension and the window.
pub key-injective :
    (gateway a b d e v w : Bytes)
    → valid_username a ≡ true
    → valid_username b ≡ true
    → contains b':' d ≡ false
    → contains b':' e ≡ false
    → key gateway a d v ≡ key gateway b e w
    → (a ≡ b) × (d ≡ e) × (v ≡ w)
unfolding key
key-injective gateway a b d e v w va vb hd he q =
    let tail : b':' ∷ (a ++ b':' ∷ (d ++ b':' ∷ v)) ≡ b':' ∷ (b ++ b':' ∷ (e ++ b':' ∷ w)) =
      append_left-injective gateway _ _ (append_left-injective (codes "mailout:") _ _ q) in
    let first =
      split_colon a b (d ++ b':' ∷ v) (e ++ b':' ∷ w) (valid_username-colon a va)
        (valid_username-colon b vb) (append_left-injective (b':' ∷ []) _ _ tail) in
    let second = split_colon d e v w hd he first.1 in (first.0, second.0, second.1)
