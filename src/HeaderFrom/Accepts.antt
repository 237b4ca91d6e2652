-- ===== src/HeaderFrom/Accepts.antt =====
-- When `checkHeaderFrom` lets a message pass.
use mailout_operator.Base.{
  Bool, true, false, List, [], ◌∷◌, Option, none, some, ◌≡◌, ◌↔◌, inl, inr, refl, arith,
  Option-cases, All,
}
use mailout_operator.Text.{Bytes}
use mailout_operator.Message.{HeaderField, parse_message}
use mailout_operator.Message.Changes.{values}
use mailout_operator.Policy.{SenderPolicy, allows}
use mailout_operator.HeaderFrom.{clean_name, from_name, from_values, judge, check_block}

from_values-some :
    (hs : List HeaderField) (vs : List Bytes)
    → from_values hs ≡ some vs
    → All (λ h. clean_name h ≡ true) hs × (values from_name hs ≡ vs)
unfolding from_values
from_values-some [] vs e = (tt, ground arith)
from_values-some (h ∷ hs) vs e = elim (Option-cases (from_values hs)) [
  | inl n ↦ ground arith
  | inr (ws, n) ↦
      let (clean, found) = from_values-some hs ws n in ((ground arith, clean), ground arith)
]

some-from_values :
    (hs : List HeaderField)
    → All (λ h. clean_name h ≡ true) hs
    → from_values hs ≡ some (values from_name hs)
unfolding from_values
some-from_values [] a = refl
some-from_values (h ∷ hs) a = ground (arith, some-from_values hs a.1)

-- The message passes exactly if its header block is terminated, no name in it has white space
-- before the colon, exactly one field is a From, and the policy allows its value.
pub check_block_accepts :
    (policy : SenderPolicy) (block : Bytes) (terminated : Bool)
    → (check_block policy (some (block, terminated)) ≡ none) ↔ (
        (v : Bytes) × (terminated ≡ true)
        × All (λ h. clean_name h ≡ true) (parse_message block).headers
        × (values from_name (parse_message block).headers ≡ v ∷ [])
        × (allows policy v ≡ true))
unfolding check_block
check_block_accepts policy block false = (λ e. ground arith, λ w. ground (arith, w.1))
check_block_accepts policy block true = (forth (from_values hs) refl, back)
  where
    hs : List HeaderField
    hs = (parse_message block).headers

    forth :
        (r : Option (List Bytes))
        → from_values hs ≡ r
        → judge policy (from_values hs) ≡ none
        → (v : Bytes) × (true ≡ true)
          × All (λ h. clean_name h ≡ true) hs
          × (values from_name hs ≡ v ∷ [])
          × (allows policy v ≡ true)
    forth none e j = ground arith
    forth (some []) e j = ground arith
    forth (some (v ∷ w ∷ rest)) e j = ground arith
    forth (some (v ∷ [])) e j =
        let (clean, found) = from_values-some hs (v ∷ []) e in (v, refl, clean, found, ground arith)

    back :
        (v : Bytes) × (true ≡ true)
          × All (λ h. clean_name h ≡ true) hs
          × (values from_name hs ≡ v ∷ [])
          × (allows policy v ≡ true)
        → judge policy (from_values hs) ≡ none
    back (v, t, clean, found, ok') = ground (arith, some-from_values hs clean)
