-- ===== src/Message/Stable.antt =====
-- What `parseMessage` returns can be written and read back.
use mailout_operator.Base.{
  &&_left, ℕ, true, false, not, ◌&&◌, List, [], ◌∷◌, ◌++◌, some, ◌≡◌, inl, inr, refl, sym, ap,
  subst, ◌∙◌, arith, ◌==◌, Bool-cases, Option-cases, is_empty, All,
}
use mailout_operator.Text.{
  Bytes, contains, contains-append, contains-keep_last, trim_right, trim_right-trim_right,
  trim_right_suffix, trim_right_tail, keep_last, cut, cut-eq_some,
}
use mailout_operator.Message.{
  HeaderField, crlf, line_cons, split_lines, is_line_end, starts_blank, trim_one_space, fold_last,
  LineResult, blank, not_header, more, add_field, parse_line, parse_lines, parse_message, bytes,
}
use mailout_operator.Message.RoundTrip.{
  IsPiece, IsValue, plain, folded, IsField, AreFields, none_yet, then_field, fold_last_snoc,
  starts_blank-append, parse_message-bytes,
}

-- The lines of a text: no newline but the last byte.
abbrev IsLine : Bytes → Type 0
IsLine l = contains b'\n' (trim_right is_line_end l) ≡ false

line_cons-IsLine : (c : ℕ) (ls : List Bytes) → All IsLine ls → All IsLine (line_cons c ls)
unfolding line_cons trim_right keep_last contains
line_cons-IsLine c [] a = (ground arith, tt)
line_cons-IsLine c (l ∷ ls) a = elim (Bool-cases (c == b'\n')) [
  | inl e ↦ rw e (ground arith, (a.0, a.1))
  | inr e ↦ rw e (contains-keep_last b'\n' is_line_end c (trim_right is_line_end l) e a.0, a.1)
]

split_lines-IsLine : (s : Bytes) → All IsLine (split_lines s)
unfolding split_lines
split_lines-IsLine [] = tt
split_lines-IsLine (c ∷ s) = line_cons-IsLine c (split_lines s) (split_lines-IsLine s)

AreFields-fold_last :
    (hs : List HeaderField) (s : Bytes)
    → AreFields hs
    → IsPiece s
    → starts_blank s ≡ true
    → AreFields (fold_last hs (crlf ++ s))
unfolding fold_last
AreFields-fold_last hs s none_yet p b = none_yet
AreFields-fold_last ks s (then_field hs h _ before f e) p b =
    then_field hs (record h { value = h.value ++ (crlf ++ s) }) _ before
      (record {
        name_line = f.name_line;
        name_colon = f.name_colon;
        name_start = f.name_start;
        value_form = folded h.value s _ f.value_form p b refl;
      })
      (rw e (fold_last_snoc hs h (crlf ++ s)))

starts_blank-trim_right :
    (s : Bytes)
    → is_empty (trim_right is_line_end s) ≡ false
    → starts_blank (trim_right is_line_end s) ≡ starts_blank s
unfolding trim_right starts_blank keep_last
starts_blank-trim_right [] h = refl
starts_blank-trim_right (c ∷ s) h = keeps (trim_right is_line_end s) h
  where
    keeps :
        (r : Bytes)
        → is_empty (keep_last is_line_end c r) ≡ false
        → starts_blank (keep_last is_line_end c r) ≡ starts_blank (c ∷ s)
    keeps [] e = ground arith
    keeps (d ∷ r) e = refl

plain-trim_one_space : (v : Bytes) → IsPiece v → IsValue (trim_one_space v)
unfolding trim_one_space contains
plain-trim_one_space [] p = plain [] p
plain-trim_one_space (c ∷ v) p = elim (Bool-cases (c == b' ')) [
  | inl e ↦ rw e (plain v (ground arith, trim_right_tail is_line_end c v p.1))
  | inr e ↦ rw e (plain (c ∷ v) p)
]

-- The field that a line with a colon gives.
new-IsField :
    (hs : List HeaderField) (line name value : Bytes)
    → IsLine line
    → cut b':' (trim_right is_line_end line) ≡ some (name, value)
    → is_empty (trim_right is_line_end line) ≡ false
    → (is_empty hs ≡ false → starts_blank line ≡ false)
    → IsField hs (record { name = name; value = trim_one_space value })
unfolding contains
new-IsField hs line name value l c ne b =
    let s = cut-eq_some b':' (trim_right is_line_end line) c in
    let no_newline : contains b'\n' (name ++ b':' ∷ value) ≡ false = rw (← s.0) l in
    let parts = sym (contains-append b'\n' name (b':' ∷ value)) ∙ no_newline in
    record {
      name_line = ground arith;
      name_colon = s.1;
      name_start = λ e.
          sym (starts_blank-append name value)
          ∙ ap starts_blank (sym s.0)
          ∙ starts_blank-trim_right line ne
          ∙ b e;
      value_form = plain-trim_one_space value (
        ground arith,
        trim_right_suffix is_line_end name b':' value (
            subst (λ t. trim_right is_line_end t ≡ t) s.0 (trim_right-trim_right is_line_end line)),
      );
    }

parse_line-AreFields :
    (hs hs' : List HeaderField) (line : Bytes)
    → AreFields hs
    → IsLine line
    → parse_line hs line ≡ more hs'
    → AreFields hs'
unfolding parse_line add_field
parse_line-AreFields hs hs' line f l e =
    elim (Bool-cases (is_empty (trim_right is_line_end line))) [
      | inl t ↦ ground arith
      | inr t ↦ elim (Bool-cases (starts_blank line && not (is_empty hs))) [
        | inl b ↦
            let eq : fold_last hs (crlf ++ trim_right is_line_end line) ≡ hs' = ground arith in
            subst AreFields eq (
              AreFields-fold_last hs _ f (l, trim_right-trim_right is_line_end line)
                (starts_blank-trim_right line t ∙ &&_left _ _ b))
        | inr b ↦ elim (Option-cases (cut b':' (trim_right is_line_end line))) [
          | inl c ↦ ground arith
          | inr ((name, value), c) ↦
              then_field hs (record { name = name; value = trim_one_space value }) hs' f
                (new-IsField hs line name value l c t (λ q. ground arith)) (ground arith)
        ]
      ]
    ]

parse_lines-AreFields :
    (hs : List HeaderField) (ls : List Bytes)
    → AreFields hs
    → All IsLine ls
    → AreFields (parse_lines hs ls).headers
unfolding parse_lines
parse_lines-AreFields hs [] f a = f
parse_lines-AreFields hs (l ∷ ls) f a =
    go (parse_line hs l) refl (λ hs' f'. parse_lines-AreFields hs' ls f' a.1)
  where
    go :
        (r : LineResult)
        → parse_line hs l ≡ r
        → ((hs' : List HeaderField) → AreFields hs' → AreFields (parse_lines hs' ls).headers)
        → AreFields (parse_lines hs (l ∷ ls)).headers
    go blank e rec = rw (e, parse_lines) f
    go not_header e rec = rw (e, parse_lines) f
    go (more hs') e rec = rw (e, parse_lines) (rec hs' (parse_line-AreFields hs hs' l f a.0 e))

-- Whatever bytes were parsed, writing the result and parsing it again gives the same message: the
-- same fields, with their folded lines, in the same order, and the same body.
pub parse_message-bytes-parse_message :
    (input : Bytes) → parse_message (bytes (parse_message input)) ≡ parse_message input
unfolding parse_message
parse_message-bytes-parse_message input =
    parse_message-bytes (parse_message input)
      (parse_lines-AreFields [] (split_lines input) none_yet (split_lines-IsLine input))
