-- ===== src/Message/RoundTrip.antt =====
-- `Bytes` and `parseMessage`: what is written is read back.
use mailout_operator.Base.{
  append-nil, ℕ, true, false, List, [], ◌∷◌, ◌++◌, ◌≡◌, refl, sym, ap, ◌∙◌, arith, ◌==◌, is_empty,
  append_assoc,
}
use mailout_operator.Text.{
  contains-append, keep_last, trim_right-append, keep_last_clean, trim_right_snoc, Bytes, contains,
  trim_right, cut-append,
}
use mailout_operator.Message.{
  ParsedMessage, bytes, parse_message, write_fields, write_field, HeaderField, crlf, line_cons,
  split_lines, join, is_line_end, starts_blank, trim_one_space, fold_last, more, parse_line,
  parse_lines,
}

-- One line of a value: no newline in it, and no line end behind it.
abbrev pub IsPiece : Bytes → Type 0
IsPiece s = (contains b'\n' s ≡ false) × (trim_right is_line_end s ≡ s)

-- A value: one line, or several that are folded, each further one starting with a blank.
pub data IsValue : Bytes → Type 0 where
  plain : (s : Bytes) → IsPiece s → IsValue s
  folded :
      (v s w : Bytes)
      → IsValue v
      → IsPiece s
      → starts_blank s ≡ true
      → w ≡ v ++ (crlf ++ s)
      → IsValue w

pub record IsField (before : List HeaderField) (h : HeaderField) : Type 0 where
  pub name_line : contains b'\n' h.name ≡ false
  pub name_colon : contains b':' h.name ≡ false
  pub name_start : is_empty before ≡ false → starts_blank h.name ≡ false
  pub value_form : IsValue h.value

-- Fields that can be written and read back; only the first name may start with a blank.
pub data AreFields : List HeaderField → Type 0 where
  none_yet : AreFields []
  then_field :
      (hs : List HeaderField) (h : HeaderField) (ks : List HeaderField)
      → AreFields hs
      → IsField hs h
      → ks ≡ hs ++ h ∷ []
      → AreFields ks

join-split_lines : (s : Bytes) → join (split_lines s) ≡ s
unfolding split_lines
join-split_lines [] = refl
join-split_lines (c ∷ s) = join-line_cons c (split_lines s) ∙ ap (◌∷◌ c) (join-split_lines s)
  where
    join-line_cons : (c : ℕ) (ls : List Bytes) → join (line_cons c ls) ≡ c ∷ join ls
    join-line_cons c [] = refl
    join-line_cons c (l ∷ ls) = ground arith

line_cons-append :
    (c : ℕ) (l : Bytes) (ls : List Bytes)
    → (c == b'\n') ≡ false
    → line_cons c (l ∷ ls) ≡ (c ∷ l) ∷ ls
unfolding line_cons
line_cons-append c l ls h = rw h

pub split_lines-append :
    (s rest : Bytes)
    → contains b'\n' s ≡ false
    → split_lines (s ++ b'\n' ∷ rest) ≡ (s ++ b'\n' ∷ []) ∷ split_lines rest
unfolding split_lines contains
split_lines-append [] rest h = first (split_lines rest)
  where
    first : (ls : List Bytes) → line_cons b'\n' ls ≡ (b'\n' ∷ []) ∷ ls
    first [] = refl
    first (l ∷ ls) = refl
split_lines-append (c ∷ s) rest h =
    rw (split_lines-append s rest (ground arith)) (line_cons-append c _ _ (ground arith))

-- The carriage return and newline behind a piece are trimmed off.
trim_right-piece : (s : Bytes) → trim_right is_line_end (s ++ crlf) ≡ trim_right is_line_end s
trim_right-piece s =
    ap (trim_right is_line_end) (sym (append_assoc s (b'\r' ∷ []) (b'\n' ∷ [])))
    ∙ trim_right_snoc is_line_end (s ++ b'\r' ∷ []) b'\n' refl
    ∙ trim_right_snoc is_line_end s b'\r' refl

pub fold_last_snoc :
    (hs : List HeaderField) (h : HeaderField) (t : Bytes)
    → fold_last (hs ++ h ∷ []) t ≡ hs ++ record h { value = h.value ++ t } ∷ []
unfolding fold_last
fold_last_snoc [] h t = refl
fold_last_snoc (k ∷ []) h t = refl
fold_last_snoc (k ∷ l ∷ hs) h t = ap (◌∷◌ k) (fold_last_snoc (l ∷ hs) h t)

-- A line that the loop takes as a header.
parse_lines-more :
    (hs hs' : List HeaderField) (s rest : Bytes)
    → contains b'\n' s ≡ false
    → parse_line hs (s ++ b'\n' ∷ []) ≡ more hs'
    → parse_lines hs (split_lines (s ++ b'\n' ∷ rest)) ≡ parse_lines hs' (split_lines rest)
unfolding parse_lines
parse_lines-more hs hs' s rest h e = rw (split_lines-append s rest h) (rw (e, parse_lines))

trim_right_space :
    (v : Bytes) → trim_right is_line_end v ≡ v → trim_right is_line_end (b' ' ∷ v) ≡ b' ' ∷ v
unfolding trim_right
trim_right_space v h = rw h (keep_last_clean is_line_end b' ' v refl)

pub starts_blank-append :
    (name rest : Bytes) → starts_blank (name ++ b':' ∷ rest) ≡ starts_blank name
unfolding starts_blank
starts_blank-append [] rest = refl
starts_blank-append (c ∷ s) rest = refl

is_empty-append {ℓ} : {A : Type ℓ} (s : List A) (c : A) (t : List A) → is_empty (s ++ c ∷ t) ≡ false
is_empty-append [] c t = refl
is_empty-append (x ∷ s) c t = refl

trim_right-field :
    (name v : Bytes)
    → trim_right is_line_end v ≡ v
    → trim_right is_line_end (name ++ b':' ∷ b' ' ∷ (v ++ crlf)) ≡ name ++ b':' ∷ b' ' ∷ v
trim_right-field name v h =
    ap (trim_right is_line_end) (sym (append_assoc name (b':' ∷ b' ' ∷ v) crlf))
    ∙ trim_right-piece (name ++ b':' ∷ b' ' ∷ v)
    ∙ trim_right-append is_line_end name b':' (b' ' ∷ v) refl
    ∙ ap (λ t. name ++ b':' ∷ t) (trim_right_space v h)

parse_line-field :
    (hs : List HeaderField) (name v : Bytes)
    → contains b':' name ≡ false
    → (is_empty hs ≡ false → starts_blank name ≡ false)
    → trim_right is_line_end v ≡ v
    → parse_line hs (name ++ b':' ∷ b' ' ∷ (v ++ crlf))
      ≡ more (hs ++ record { name = name; value = v } ∷ [])
unfolding parse_line trim_one_space
parse_line-field hs name v c b t = rw (trim_right-field name v t) (
    ground (
      arith,
      is_empty-append name b':' (b' ' ∷ v),
      starts_blank-append name (b' ' ∷ (v ++ crlf)),
      cut-append b':' name (b' ' ∷ v) c,
    ))

parse_line-continued :
    (hs : List HeaderField) (h : HeaderField) (s : Bytes)
    → IsPiece s
    → starts_blank s ≡ true
    → parse_line (hs ++ h ∷ []) (s ++ crlf)
      ≡ more (hs ++ record h { value = h.value ++ (crlf ++ s) } ∷ [])
unfolding parse_line starts_blank
parse_line-continued hs h [] p b = cc
parse_line-continued hs h (c ∷ s) p b =
    rw (trim_right-piece (c ∷ s) ∙ p.1)
      (rw (is_empty-append hs h []) (ground (arith, fold_last_snoc hs h (crlf ++ c ∷ s))))

snoc_line : (s rest : Bytes) → s ++ (crlf ++ rest) ≡ (s ++ b'\r' ∷ []) ++ b'\n' ∷ rest
snoc_line s rest = sym (append_assoc s (b'\r' ∷ []) (b'\n' ∷ rest))

parse_lines-piece :
    (hs hs' : List HeaderField) (s rest : Bytes)
    → contains b'\n' s ≡ false
    → parse_line hs (s ++ crlf) ≡ more hs'
    → parse_lines hs (split_lines (s ++ (crlf ++ rest))) ≡ parse_lines hs' (split_lines rest)
unfolding contains
parse_lines-piece hs hs' s rest h e = rw (snoc_line s rest) (
    parse_lines-more hs hs' (s ++ b'\r' ∷ []) rest (rw contains-append (rw h))
      (rw (append_assoc s (b'\r' ∷ []) (b'\n' ∷ [])) e))

-- The text of one field, with what follows it.
abbrev field_text : Bytes → Bytes → Bytes → Bytes
field_text name v rest = name ++ (b':' ∷ b' ' ∷ (v ++ (crlf ++ rest)))

regroup_field :
    (name v rest : Bytes) → field_text name v rest ≡ (name ++ b':' ∷ b' ' ∷ v) ++ (crlf ++ rest)
regroup_field name v rest = sym (append_assoc name (b':' ∷ b' ' ∷ v) (crlf ++ rest))

regroup_folded :
    (name v s rest : Bytes)
    → field_text name (v ++ (crlf ++ s)) rest ≡ field_text name v (s ++ (crlf ++ rest))
regroup_folded name v s rest = simp append_assoc

-- Reading the text of a field adds the field.
parse_lines-field :
    (hs : List HeaderField) (name v rest : Bytes)
    → contains b'\n' name ≡ false
    → contains b':' name ≡ false
    → (is_empty hs ≡ false → starts_blank name ≡ false)
    → IsValue v
    → parse_lines hs (split_lines (field_text name v rest))
      ≡ parse_lines (hs ++ record { name = name; value = v } ∷ []) (split_lines rest)
unfolding contains
parse_lines-field hs name v rest l c b (plain _ p) = rw (regroup_field name v rest) (
    parse_lines-piece hs _ (name ++ b':' ∷ b' ' ∷ v) rest (rw contains-append (rw l p.0))
      (rw (append_assoc name (b':' ∷ b' ' ∷ v) crlf) (parse_line-field hs name v c b p.1)))
parse_lines-field hs name w rest l c b (folded v s _ vv p sb e) = rw e (
    rw (regroup_folded name v s rest) (
      parse_lines-field hs name v (s ++ (crlf ++ rest)) l c b vv
      ∙ parse_lines-piece _ _ s rest p.0
          (parse_line-continued hs (record { name = name; value = v }) s p sb)))

write_fields-append :
    (hs ks : List HeaderField) → write_fields (hs ++ ks) ≡ write_fields hs ++ write_fields ks
write_fields-append [] ks = refl
write_fields-append (h ∷ hs) ks =
    rw (write_fields-append hs ks) (sym (append_assoc (write_field h) _ _))

write_field-rest :
    (h : HeaderField) (rest : Bytes) → write_field h ++ rest ≡ field_text h.name h.value rest
write_field-rest h rest = simp append_assoc

parse_lines-fields :
    (ks : List HeaderField) (rest : Bytes)
    → AreFields ks
    → parse_lines [] (split_lines (write_fields ks ++ rest)) ≡ parse_lines ks (split_lines rest)
parse_lines-fields ks rest none_yet = refl
parse_lines-fields ks rest (then_field hs h _ before f e) = rw e (
    rw (write_fields-append hs (h ∷ [])) (
      simp (append_assoc, append-nil)
        (parse_lines-fields hs (field_text h.name h.value rest) before
          ∙ parse_lines-field hs h.name h.value rest f.name_line f.name_colon f.name_start
              f.value_form)))

parse_lines-blank :
    (hs : List HeaderField) (body : Bytes)
    → parse_lines hs (split_lines (crlf ++ body)) ≡ record { headers = hs; body = body }
unfolding parse_lines parse_line trim_right keep_last contains
parse_lines-blank hs body =
    rw (split_lines-append (b'\r' ∷ []) body refl)
      (ap (λ b. record { headers = hs; body = b }) (join-split_lines body))

-- A message with such fields is read back from its wire format, body included.
pub parse_message-bytes : (m : ParsedMessage) → AreFields m.headers → parse_message (bytes m) ≡ m
unfolding parse_message bytes
parse_message-bytes m f =
    parse_lines-fields m.headers (crlf ++ m.body) f ∙ parse_lines-blank m.headers m.body
