-- ===== src/Config/Texts.antt =====
-- What the tests of `Validate` on texts look for.
use mailout_operator.Base.{
  ℕ, suc, ◌-◌, true, [], ◌∷◌, ◌++◌, ◌≡◌, ◌↔◌, inl, inr, refl, ap, ◌∙◌, arith, Bool-cases, length,
  take, drop, length-append, zero,
}
use mailout_operator.Text.{Bytes, same_iff}
use mailout_operator.Config.{ends_with, starts_with, has_infix}

abbrev pub IsPrefix : Bytes → Bytes → Type 0
IsPrefix p s = (rest : Bytes) × (s ≡ p ++ rest)

abbrev pub IsSuffix : Bytes → Bytes → Type 0
IsSuffix p s = (front : Bytes) × (s ≡ front ++ p)

abbrev pub IsInfix : Bytes → Bytes → Type 0
IsInfix p s = (front : Bytes) × (rest : Bytes) × (s ≡ front ++ (p ++ rest))

pub starts_with-append : (p s : Bytes) → starts_with p s ≡ true → IsPrefix p s
unfolding starts_with
starts_with-append [] s h = (s, refl)
starts_with-append (x ∷ p) [] h = absurd (ground arith)
starts_with-append (x ∷ p) (y ∷ s) h =
    let (r, e) = starts_with-append p s (ground arith) in
    (r, ap (λ v. y ∷ v) e ∙ ap (λ c. c ∷ p ++ r) (ground arith))

append-starts_with : (p rest : Bytes) → starts_with p (p ++ rest) ≡ true
unfolding starts_with
append-starts_with [] rest = refl
append-starts_with (x ∷ p) rest = ground (arith, append-starts_with p rest)

pub starts_with_iff : (p s : Bytes) → (starts_with p s ≡ true) ↔ IsPrefix p s
starts_with_iff p s =
    (starts_with-append p s, λ (rest, e). ap (starts_with p) e ∙ append-starts_with p rest)

take-drop : (n : ℕ) (s : Bytes) → s ≡ take n s ++ drop n s
take-drop zero s = refl
take-drop (suc n) [] = refl
take-drop (suc n) (x ∷ s) = ap (λ v. x ∷ v) (take-drop n s)

drop-append : (xs ys : Bytes) → drop (length xs) (xs ++ ys) ≡ ys
drop-append [] ys = refl
drop-append (x ∷ xs) ys = drop-append xs ys

pub ends_with_iff : (p s : Bytes) → (ends_with p s ≡ true) ↔ IsSuffix p s
unfolding ends_with
ends_with_iff p s = (
  λ h. (
    take (length s - length p) s,
    take-drop (length s - length p) s
        ∙ ap (λ v. take (length s - length p) s ++ v) ((same_iff _ p).0 h),
  ),
  λ (front, e).
      let size : length s - length p ≡ length front =
        ap (λ v. length v - length p) e ∙ omega (arith, length-append front p) in
      (same_iff _ p).1 (ap (λ n. drop n s) size ∙ ap (drop (length front)) e ∙ drop-append front p),
)

has_infix-IsInfix : (p s : Bytes) → has_infix p s ≡ true → IsInfix p s
unfolding has_infix
has_infix-IsInfix [] [] h = ([], [], refl)
has_infix-IsInfix (x ∷ p) [] h = absurd (ground arith)
has_infix-IsInfix p (c ∷ s) h = elim (Bool-cases (starts_with p (c ∷ s))) [
  | inl y ↦ let (rest, e) = starts_with-append p (c ∷ s) y in ([], rest, e)
  | inr n ↦
      let (front, rest, e) = has_infix-IsInfix p s (ground arith) in
      (c ∷ front, rest, ap (λ v. c ∷ v) e)
]

IsInfix-has_infix : (front p rest : Bytes) → has_infix p (front ++ (p ++ rest)) ≡ true
unfolding has_infix
IsInfix-has_infix [] [] [] = refl
IsInfix-has_infix [] [] (c ∷ rest) = ground (arith, append-starts_with [] (c ∷ rest))
IsInfix-has_infix [] (x ∷ p) rest = ground (arith, append-starts_with (x ∷ p) rest)
IsInfix-has_infix (c ∷ front) p rest = ground (arith, IsInfix-has_infix front p rest)

pub has_infix_iff : (p s : Bytes) → (has_infix p s ≡ true) ↔ IsInfix p s
has_infix_iff p s =
    (has_infix-IsInfix p s, λ (front, rest, e). ap (has_infix p) e ∙ IsInfix-has_infix front p rest)
