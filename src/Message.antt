-- ===== src/Message.antt =====
-- internal/gateway/message.go: a message as header fields in order and a body, its wire format, and
-- the changes that a filter may ask for.
pub mod RoundTrip
pub mod Stable
pub mod Changes
mod Tests
use mailout_operator.Base.{
  ℕ, zero, suc, ◌+◌, ◌-◌, ◌*◌, ◌≤◌, ◌<◌, Bool, true, false, not, ◌&&◌, ◌||◌, List, [], ◌∷◌, ◌++◌,
  Option, none, some, ◌≡◌, ◌≢◌, ◌↔◌, ◌⊎◌, inl, inr, refl, sym, ap, subst, ◌∙◌, arith, ◌==◌, ltb,
  leb, if◌then◌else◌, Bool-cases, Option-cases, length, take, drop, is_empty, keep, All, Any,
  append-nil, append_assoc, length-append, some_of, some_of-or, some_of-Any, some_of-keep,
  some_of_mono, ==_iff,
}
use mailout_operator.Text.{Bytes, codes, to_lower, equal_fold, trim_right, cut}

pub record HeaderField : Type 0 where
  pub name : Bytes
  pub value : Bytes

pub record ParsedMessage : Type 0 where
  pub headers : List HeaderField
  pub body : Bytes

abbrev pub crlf : Bytes
crlf = b'\r' ∷ b'\n' ∷ []

-- A byte goes before the first line; a line ends behind its newline.
unfoldable pub line_cons : ℕ → List Bytes → List Bytes
line_cons c [] = (c ∷ []) ∷ []
line_cons c (line ∷ rest) = if c == b'\n' then (c ∷ []) ∷ line ∷ rest else (c ∷ line) ∷ rest

-- The lines that `ReadString('\n')` returns one by one; only the last may lack its newline.
unfoldable pub split_lines : Bytes → List Bytes
unfolding line_cons
split_lines [] = []
split_lines (c ∷ s) = line_cons c (split_lines s)

abbrev pub join : List Bytes → Bytes
join [] = []
join (line ∷ rest) = line ++ join rest

abbrev pub is_line_end : ℕ → Bool
is_line_end c = c == b'\r' || c == b'\n'

unfoldable pub starts_blank : Bytes → Bool
starts_blank [] = false
starts_blank (c ∷ s) = c == b' ' || c == b'\t'

-- `strings.TrimPrefix(value, " ")`
unfoldable pub trim_one_space : Bytes → Bytes
trim_one_space [] = []
trim_one_space (c ∷ s) = if c == b' ' then s else c ∷ s

-- A continuation line is appended to the value of the last field.
unfoldable pub fold_last : List HeaderField → Bytes → List HeaderField
fold_last [] more = []
fold_last (h ∷ []) more = record h { value = h.value ++ more } ∷ []
fold_last (h ∷ k ∷ hs) more = h ∷ fold_last (k ∷ hs) more

-- What the loop does with a line: end at a blank one, end before one that is no header, or go on.
pub data LineResult : Type 0 where
  blank : LineResult
  not_header : LineResult
  more : List HeaderField → LineResult

unfoldable pub add_field : List HeaderField → Option (Bytes × Bytes) → LineResult
add_field hs none = not_header
add_field hs (some (name, value)) =
    more (hs ++ record { name = name; value = trim_one_space value } ∷ [])

unfoldable pub parse_line : List HeaderField → Bytes → LineResult
unfolding add_field
parse_line hs line =
    let trimmed = trim_right is_line_end line in
    if is_empty trimmed
    then blank
    else if starts_blank line && not (is_empty hs)
    then more (fold_last hs (crlf ++ trimmed))
    else add_field hs (cut b':' trimmed)

unfoldable pub parse_lines : List HeaderField → List Bytes → ParsedMessage
unfolding parse_line
parse_lines hs [] = record { headers = hs; body = [] }
parse_lines hs (line ∷ rest) = elim (parse_line hs line) [
  | blank ↦ record { headers = hs; body = join rest }
  | not_header ↦ record { headers = hs; body = line ++ join rest }
  | more hs' ↦ parse_lines hs' rest
]

unfoldable pub parse_message : Bytes → ParsedMessage
unfolding parse_lines split_lines
parse_message input = parse_lines [] (split_lines input)

abbrev pub write_field : HeaderField → Bytes
write_field f = f.name ++ (b':' ∷ b' ' ∷ (f.value ++ crlf))

abbrev pub write_fields : List HeaderField → Bytes
write_fields [] = []
write_fields (f ∷ fs) = write_field f ++ write_fields fs

-- `WriteHeaders`
unfoldable pub write_headers : ParsedMessage → Bytes
write_headers m = write_fields m.headers ++ crlf

unfoldable pub bytes : ParsedMessage → Bytes
bytes m = write_fields m.headers ++ (crlf ++ m.body)

unfoldable pub add_header : Bytes → Bytes → ParsedMessage → ParsedMessage
add_header name value m = record m {
  headers = m.headers ++ record { name = name; value = value } ∷ [];
}

-- The index is one-based; 0 counts as 1, and an index past the end appends.
unfoldable pub insert_header : ℕ → Bytes → Bytes → ParsedMessage → ParsedMessage
insert_header index name value m =
    let pos = if ltb (length m.headers) (index - 1) then length m.headers else index - 1 in
    record m {
      headers = take pos m.headers ++ record { name = name; value = value } ∷ drop pos m.headers;
    }

-- The loop of `changeHeader`, from the number of fields of that name seen so far.
unfoldable pub change_from : ℕ → ℕ → Bytes → Bytes → List HeaderField → List HeaderField
change_from seen index name value [] =
    if is_empty value then [] else record { name = name; value = value } ∷ []
change_from seen index name value (h ∷ hs) =
    let skip = h ∷ change_from seen index name value hs in
    let count = h ∷ change_from (suc seen) index name value hs in
    if not (equal_fold h.name name)
    then skip
    else if not (suc seen == index)
    then count
    else if is_empty value
    then hs
    else record h { value = value } ∷ hs

unfoldable pub change_header : ℕ → Bytes → Bytes → ParsedMessage → ParsedMessage
unfolding change_from
change_header index name value m = record m { headers = change_from 0 index name value m.headers }
