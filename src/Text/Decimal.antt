-- ===== src/Text/Decimal.antt =====
-- `fmt.Sprintf("%d", n)` of a number that is not negative.
use mailout_operator.Base.{
  ℕ, zero, suc, ◌+◌, ◌-◌, ◌*◌, ◌/◌, ◌%◌, ◌≤◌, [], ◌∷◌, ◌++◌, ◌≡◌, inl, inr, refl, sym, ap, ◌∙◌,
  arith, ltb, if◌then◌else◌, Bool-cases,
}
use mailout_operator.Text.Equality.{Bytes}

-- The digits, on as much fuel as the number itself.
unfoldable pub digits : ℕ → ℕ → Bytes
digits zero n = (b'0' + n) ∷ []
digits (suc fuel) n =
    let rest = digits fuel (n / 10) in
    if ltb n 10 then (b'0' + n) ∷ [] else rest ++ (b'0' + n % 10) ∷ []

unfoldable pub decimal : ℕ → Bytes
unfolding digits
decimal n = digits n n

-- The number that a row of digits stands for, behind those read before.
unfoldable pub number_from : ℕ → Bytes → ℕ
number_from acc [] = acc
number_from acc (c ∷ s) = number_from (acc * 10 + (c - b'0')) s

number_from-append :
    (acc c : ℕ) (s : Bytes) → number_from acc (s ++ c ∷ []) ≡ number_from acc s * 10 + (c - b'0')
unfolding number_from
number_from-append acc c [] = refl
number_from-append acc c (d ∷ s) = number_from-append (acc * 10 + (d - b'0')) c s

-- The fuel is enough: the digits stand for the number.
number_from-digits : (fuel n : ℕ) → n ≤ fuel → number_from 0 (digits fuel n) ≡ n
unfolding digits number_from
number_from-digits zero n h = omega arith
number_from-digits (suc fuel) n h = elim (Bool-cases (ltb n 10)) [
  | inl y ↦ rw y (omega arith)
  | inr z ↦ rw z (
      number_from-append 0 (b'0' + n % 10) (digits fuel (n / 10))
      ∙ ground (arith, number_from-digits fuel (n / 10)))
]

-- Numbers are written apart.
pub decimal-injective : (m n : ℕ) → decimal m ≡ decimal n → m ≡ n
unfolding decimal
decimal-injective m n e =
    sym (number_from-digits m m (omega arith))
    ∙ ap (number_from 0) e
    ∙ number_from-digits n n (omega arith)
