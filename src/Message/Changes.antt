-- ===== src/Message/Changes.antt =====
-- What `changeHeader` and `insertHeader` do to the values of a header name.
use mailout_operator.Base.{
  ℕ, zero, suc, ◌+◌, false, List, [], ◌∷◌, ◌≡◌, inl, inr, refl, arith, if◌then◌else◌, Bool-cases,
  is_empty,
}
use mailout_operator.Text.{Bytes, same_iff, same_refl, to_lower, equal_fold}
use mailout_operator.Message.{HeaderField, ParsedMessage, change_from, change_header}

-- The values of the fields of a name, in order.
abbrev pub values : Bytes → List HeaderField → List Bytes
values name [] = []
values name (h ∷ hs) = if equal_fold h.name name then h.value ∷ values name hs else values name hs

-- Replace the element at a position, or delete it for an empty value; past the end, append.
abbrev pub change_at : ℕ → Bytes → List Bytes → List Bytes
change_at i value [] = if is_empty value then [] else value ∷ []
change_at zero value (x ∷ xs) = if is_empty value then xs else value ∷ xs
change_at (suc i) value (x ∷ xs) = x ∷ change_at i value xs

values-change_from :
    (hs : List HeaderField) (seen i : ℕ) (name value : Bytes)
    → values name (change_from seen (seen + suc i) name value hs)
      ≡ change_at i value (values name hs)
unfolding change_from equal_fold
values-change_from [] seen i name value = ground (arith, same_refl (to_lower name))
values-change_from (h ∷ hs) seen zero name value = elim (Bool-cases (equal_fold h.name name)) [
  | inl e ↦ ground arith
  | inr e ↦ ground (arith, values-change_from hs seen zero name value)
]
values-change_from (h ∷ hs) seen (suc i) name value = elim (Bool-cases (equal_fold h.name name)) [
  | inl e ↦ ground (arith, values-change_from hs (suc seen) i name value, shift seen i)
  | inr e ↦ ground (arith, values-change_from hs seen (suc i) name value)
]
  where
    shift : (a b : ℕ) → a + suc (suc b) ≡ suc a + suc b
    shift a b = omega arith

-- `changeHeader` at a one-based index acts on the values of that name as on a list: the value
-- there is replaced, or deleted if the new one is empty; past the end the new one is appended.
pub values-change_header :
    (i : ℕ) (name value : Bytes) (m : ParsedMessage)
    → values name (change_header (suc i) name value m).headers
      ≡ change_at i value (values name m.headers)
unfolding change_header
values-change_header i name value m =
    rw (← zero_add (suc i)) (values-change_from m.headers 0 i name value)
  where
    zero_add : (n : ℕ) → 0 + n ≡ n
    zero_add n = omega arith

values-change_from_other :
    (hs : List HeaderField) (seen index : ℕ) (name value other : Bytes)
    → equal_fold name other ≡ false
    → values other (change_from seen index name value hs) ≡ values other hs
unfolding change_from equal_fold
values-change_from_other [] seen index name value other d = ground arith
values-change_from_other (h ∷ hs) seen index name value other d = ground (
  arith,
  same_iff (to_lower h.name) (to_lower name),
  same_iff (to_lower h.name) (to_lower other),
  same_iff (to_lower name) (to_lower other),
  values-change_from_other hs seen index name value other d,
  values-change_from_other hs (suc seen) index name value other d,
)

-- The values of every other name stay as they are, and so does the body.
change_header-keeps :
    (index : ℕ) (name value other : Bytes) (m : ParsedMessage)
    → equal_fold name other ≡ false
    → (values other (change_header index name value m).headers ≡ values other m.headers)
      × ((change_header index name value m).body ≡ m.body)
unfolding change_header
change_header-keeps index name value other m d =
    (values-change_from_other m.headers 0 index name value other d, refl)
