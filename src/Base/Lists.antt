-- ===== src/Base/Lists.antt =====
-- Lists over the native numbers, under the library's names, and predicates on lists by recursion.
use Prim.Native.Nat.{ℕ, zero, suc, ◌+◌, ◌-◌, min}
use mathlib.Core.Path.{◌≡◌, refl}
use mathlib.Core.Logic.{◌⊎◌, inl, inr}
use mathlib.Core.Bool.{Bool, true, false, ◌||◌, ◌&&◌}
use mathlib.Core.List.{List, [], ◌∷◌, ◌++◌}
use native.Mathlib.Omega.{arith}
use mathlib.Core.Logic.{◌↔◌, ◌≢◌}
use mailout_operator.Base.Tests.{if◌then◌else◌, Bool-cases}

module _ {ℓ} {A : Type ℓ} where
  abbrev pub length : List A → ℕ
  length [] = 0
  length (x ∷ xs) = suc (length xs)

  abbrev pub take : ℕ → List A → List A
  take zero xs = []
  take (suc n) [] = []
  take (suc n) (x ∷ xs) = x ∷ take n xs

  abbrev pub drop : ℕ → List A → List A
  drop zero xs = xs
  drop (suc n) [] = []
  drop (suc n) (x ∷ xs) = drop n xs

  abbrev pub is_empty : List A → Bool
  is_empty [] = true
  is_empty (x ∷ xs) = false

  -- The elements that pass a test, in order.
  abbrev pub keep : (A → Bool) → List A → List A
  keep p [] = []
  keep p (x ∷ xs) = if p x then x ∷ keep p xs else keep p xs

  -- Does some element pass the test?
  abbrev pub some_of : (A → Bool) → List A → Bool
  some_of p [] = false
  some_of p (x ∷ xs) = p x || some_of p xs

  abbrev pub All {κ} : (A → Type κ) → List A → Type κ
  All P [] = Unit
  All P (x ∷ xs) = P x × All P xs

  abbrev pub Any : (A → Type 0) → List A → Type 0
  Any P [] = ⊥
  Any P (x ∷ xs) = P x ⊎ Any P xs

module _ {ℓ} {A : Type ℓ} where
  pub length-append : (xs ys : List A) → length (xs ++ ys) ≡ length xs + length ys
  length-append [] ys = omega arith
  length-append (x ∷ xs) ys = omega (arith, length-append xs ys)

  pub length-take : (n : ℕ) (xs : List A) → length (take n xs) ≡ min n (length xs)
  length-take zero xs = omega arith
  length-take (suc n) [] = omega arith
  length-take (suc n) (x ∷ xs) = omega (arith, length-take n xs)

  pub length-drop : (n : ℕ) (xs : List A) → length (drop n xs) ≡ length xs - n
  length-drop zero xs = omega arith
  length-drop (suc n) [] = omega arith
  length-drop (suc n) (x ∷ xs) = omega (arith, length-drop n xs)

  pub some_of-or :
      (p q : A → Bool) (xs : List A) → some_of (λ x. p x || q x) xs ≡ (some_of p xs || some_of q xs)
  some_of-or p q [] = refl
  some_of-or p q (x ∷ xs) = ground (arith, some_of-or p q xs)

  -- A test that decides a predicate decides whether some element satisfies it.
  pub some_of-Any :
      (p : A → Bool) (P : A → Type 0)
      → ((x : A) → (p x ≡ true) ↔ P x)
      → (xs : List A) → (some_of p xs ≡ true) ↔ Any P xs
  some_of-Any p P h [] = (λ e. ground arith, λ e. absurd e)
  some_of-Any p P h (x ∷ xs) =
      let ih = some_of-Any p P h xs in
      (
        λ e. elim (Bool-cases (p x)) [
          | inl yes' ↦ inl ((h x).0 yes')
          | inr no' ↦ inr (ih.0 (ground arith))
        ],
        λ e. elim e [
          | inl here ↦ ground (arith, (h x).1 here)
          | inr there ↦ ground (arith, ih.1 there)
        ],
      )

  pub some_of-keep :
      (p q : A → Bool) (xs : List A) → some_of p (keep q xs) ≡ some_of (λ x. q x && p x) xs
  some_of-keep p q [] = refl
  some_of-keep p q (x ∷ xs) = ground (arith, some_of-keep p q xs)

  -- What implies a test for each element implies it for some element.
  pub some_of_mono :
      (p q : A → Bool)
      → ((x : A) → p x ≡ true → q x ≡ true)
      → (xs : List A) → some_of p xs ≡ true
      → some_of q xs ≡ true
  some_of_mono p q h [] e = cc
  some_of_mono p q h (x ∷ xs) e = ground (arith, h x, some_of_mono p q h xs)

  pub append_cons-ne-nil : (xs : List A) (y : A) (ys : List A) → [] ≢ xs ++ y ∷ ys
  append_cons-ne-nil [] y ys e = cc
  append_cons-ne-nil (x ∷ xs) y ys e = cc

  pub All-keep : (p : A → Bool) (xs : List A) → All (λ x. p x ≡ true) (keep p xs)
  All-keep p [] = tt
  All-keep p (x ∷ xs) = elim (Bool-cases (p x)) [
    | inl e ↦ rw e (e, All-keep p xs)
    | inr e ↦ rw e (All-keep p xs)
  ]

  -- What holds throughout holds of an element that passes a test.
  pub All-Any :
      {P Q R : A → Type 0}
      → ((x : A) → P x → Q x → R x)
      → (xs : List A) → All P xs
      → Any Q xs
      → Any (λ x. Q x × R x) xs
  All-Any f [] a h = absurd h
  All-Any f (x ∷ xs) a (inl h) = inl (h, f x a.0 h)
  All-Any f (x ∷ xs) a (inr h) = inr (All-Any f xs a.1 h)

  pub Any-elim : {Q : A → Type 0} {R : Type 0} → ((x : A) → Q x → R) → (xs : List A) → Any Q xs → R
  Any-elim f [] h = absurd h
  Any-elim f (x ∷ xs) (inl h) = f x h
  Any-elim f (x ∷ xs) (inr h) = Any-elim f xs h

  pub Any-map : {P Q : A → Type 0} → ((x : A) → P x → Q x) → (xs : List A) → Any P xs → Any Q xs
  Any-map f [] h = h
  Any-map f (x ∷ xs) (inl h) = inl (f x h)
  Any-map f (x ∷ xs) (inr h) = inr (Any-map f xs h)

  pub All-map : {P Q : A → Type 0} → ((x : A) → P x → Q x) → (xs : List A) → All P xs → All Q xs
  All-map f [] a = tt
  All-map f (x ∷ xs) a = (f x a.0, All-map f xs a.1)

  pub keep_ext : (p q : A → Bool) (xs : List A) → All (λ x. p x ≡ q x) xs → keep p xs ≡ keep q xs
  keep_ext p q [] a = refl
  keep_ext p q (x ∷ xs) a = ground (arith, keep_ext p q xs a.1)

  pub All-append : (P : A → Type 0) (xs ys : List A) → All P xs → All P ys → All P (xs ++ ys)
  All-append P [] ys a b = b
  All-append P (x ∷ xs) ys a b = (a.0, All-append P xs ys a.1 b)

  pub some_of-append :
      (p : A → Bool) (xs ys : List A) → some_of p (xs ++ ys) ≡ (some_of p xs || some_of p ys)
  some_of-append p [] ys = refl
  some_of-append p (x ∷ xs) ys = ground (arith, some_of-append p xs ys)

  pub Any-append : (P : A → Type 0) (xs ys : List A) → Any P (xs ++ ys) → Any P xs ⊎ Any P ys
  Any-append P [] ys a = inr a
  Any-append P (x ∷ xs) ys (inl h) = inl (inl h)
  Any-append P (x ∷ xs) ys (inr h) = elim (Any-append P xs ys h) [
    | inl y ↦ inl (inr y)
    | inr z ↦ inr z
  ]

-- Both parts of an empty list are empty.
pub append-eq_nil {ℓ} : {A : Type ℓ} (xs ys : List A) → xs ++ ys ≡ [] → (xs ≡ []) × (ys ≡ [])
append-eq_nil [] ys e = (refl, e)
append-eq_nil (x ∷ xs) ys e = cc
