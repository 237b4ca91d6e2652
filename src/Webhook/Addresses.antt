-- ===== src/Webhook/Addresses.antt =====
-- `net.SplitHostPort` and `strconv.Atoi`, as the webhook uses them.
use mailout_operator.Base.{
  ℕ, ◌+◌, ◌-◌, ◌*◌, Bool, true, false, not, ◌&&◌, ◌||◌, [], ◌∷◌, ◌++◌, Option, none, some, ◌==◌,
  leb, if◌then◌else◌, is_empty,
}
use mailout_operator.Text.{Bytes, same, cut, contains}

-- The text before and behind the last such byte.
unfoldable pub cut_last : ℕ → Bytes → Option (Bytes × Bytes)
cut_last c [] = none
cut_last c (x ∷ s) = elim (cut_last c s) [
  | some (before, after) ↦ some (x ∷ before, after)
  | none ↦ if x == c then some ([], s) else none
]

abbrev pub starts_with_byte : ℕ → Bytes → Bool
starts_with_byte c [] = false
starts_with_byte c (x ∷ s) = x == c

abbrev pub tail : Bytes → Bytes
tail [] = []
tail (x ∷ s) = s

-- A host in brackets ends right before the last colon.
unfoldable pub split_bracketed :
    Bytes → Bytes → Bytes → Option (Bytes × Bytes) → Option (Bytes × Bytes)
unfolding contains
split_bracketed s before port none = none
split_bracketed s before port (some (inside, after)) =
    if not (same before (inside ++ b']' ∷ []))
    then none
    else if contains b'[' (tail s) || contains b']' after
    then none
    else some (tail inside, port)

unfoldable pub split_at : Bytes → Option (Bytes × Bytes) → Option (Bytes × Bytes)
unfolding split_bracketed contains
split_at s none = none
split_at s (some (before, port)) =
    if starts_with_byte b'[' s
    then split_bracketed s before port (cut b']' s)
    else if contains b':' before
    then none
    else if contains b'[' s || contains b']' s
    then none
    else some (before, port)

-- `net.SplitHostPort`; `none` is its error.
unfoldable pub split_host_port : Bytes → Option (Bytes × Bytes)
unfolding split_at cut_last
split_host_port s = split_at s (cut_last b':' s)

abbrev pub both_given : Option (Bytes × Bytes) → Bool
both_given none = false
both_given (some (host, port)) = not (is_empty host) && not (is_empty port)

unfoldable pub is_host_port : Bytes → Bool
unfolding split_host_port
is_host_port addr = both_given (split_host_port addr)

unfoldable pub all_digits : Bytes → Bool
all_digits [] = true
all_digits (c ∷ s) = leb b'0' c && leb c b'9' && all_digits s

unfoldable pub value_from : ℕ → Bytes → ℕ
value_from acc [] = acc
value_from acc (c ∷ s) = value_from (acc * 10 + (c - b'0')) s

abbrev pub in_range : ℕ → Bytes → Bool
in_range limit s = not (is_empty s) && all_digits s && leb (value_from 0 s) limit

-- Does `strconv.Atoi` accept the text, for an `int` of 64 bits?
unfoldable pub is_number : Bytes → Bool
unfolding all_digits value_from
is_number s =
    if starts_with_byte b'-' s
    then in_range 9223372036854775808 (tail s)
    else if starts_with_byte b'+' s
    then in_range 9223372036854775807 (tail s)
    else in_range 9223372036854775807 s

abbrev pub number_port : Option (Bytes × Bytes) → Bool
number_port none = false
number_port (some (host, port)) = is_number port

unfoldable pub has_number_port : Bytes → Bool
unfolding split_host_port is_number
has_number_port addr = number_port (split_host_port addr)
