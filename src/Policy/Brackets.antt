-- ===== src/Policy/Brackets.antt =====
-- `bareAddress`: what a display name and angle brackets do to the answer of `allows`.
use mailout_operator.Base.{ℕ, false, [], ◌∷◌, ◌++◌, some, ◌≡◌, refl, ap, ◌∙◌, arith, if◌then◌else◌}
use mailout_operator.Text.{
  trim_right-append, contains-append, after_last-none, Bytes, contains, cut-append, after_last,
  trim_left, trim_right, is_space, trim_space, trim_space-trim_space, contains-trim_space,
  contains-trim_right,
}
use mailout_operator.Policy.{SenderPolicy, inside_brackets, bare_address, allows}

trim_left-append :
    (s : Bytes) (c : ℕ) (t : Bytes)
    → is_space c ≡ false
    → trim_left is_space (s ++ c ∷ t) ≡ trim_left is_space s ++ c ∷ t
unfolding trim_left
trim_left-append [] c t h = rw h
trim_left-append (x ∷ s) c t h = ground (arith, trim_left-append s c t h)

after_last-append :
    (c : ℕ) (s t : Bytes) → contains c t ≡ false → after_last c (s ++ c ∷ t) ≡ some t
unfolding after_last
after_last-append c [] t h = rw (after_last-none c t h) (ground arith)
after_last-append c (x ∷ s) t h = rw (after_last-append c s t h)

inside_brackets_plain : (s : Bytes) → contains b'<' s ≡ false → inside_brackets s ≡ s
unfolding inside_brackets
inside_brackets_plain s h = rw (after_last-none b'<' s h, inside_brackets)

inside_brackets-append :
    (name inner rest : Bytes)
    → contains b'<' (inner ++ b'>' ∷ rest) ≡ false
    → contains b'>' inner ≡ false
    → inside_brackets (name ++ b'<' ∷ (inner ++ b'>' ∷ rest)) ≡ inner
unfolding inside_brackets
inside_brackets-append name inner rest h k =
    rw (after_last-append b'<' name (inner ++ b'>' ∷ rest) h, inside_brackets)
      (rw (cut-append b'>' inner rest k, inside_brackets))

trim_space-brackets :
    (name inner rest : Bytes)
    → trim_space (name ++ b'<' ∷ (inner ++ b'>' ∷ rest))
      ≡ trim_left is_space name ++ b'<' ∷ (inner ++ b'>' ∷ trim_right is_space rest)
unfolding trim_space is_space
trim_space-brackets name inner rest = rw (trim_left-append name b'<' (inner ++ b'>' ∷ rest) refl) (
    trim_right-append is_space (trim_left is_space name) b'<' (inner ++ b'>' ∷ rest) refl
    ∙ ap (λ t. trim_left is_space name ++ b'<' ∷ t)
        (trim_right-append is_space inner b'>' rest refl))

bare_address_plain :
    (inner : Bytes)
    → contains b'<' inner ≡ false
    → bare_address inner ≡ (if contains b'@' (trim_space inner) then trim_space inner else [])
unfolding bare_address
bare_address_plain inner h =
    rw (inside_brackets_plain (trim_space inner) (contains-trim_space b'<' inner h))
      (rw (trim_space-trim_space inner))

bare_address-brackets :
    (name inner rest : Bytes)
    → contains b'<' inner ≡ false
    → contains b'>' inner ≡ false
    → contains b'<' rest ≡ false
    → bare_address (name ++ b'<' ∷ (inner ++ b'>' ∷ rest)) ≡ bare_address inner
unfolding bare_address contains
bare_address-brackets name inner rest h k r = rw (bare_address_plain inner h) (
    rw (trim_space-brackets name inner rest) (
      rw (
        inside_brackets-append (trim_left is_space name) inner (trim_right is_space rest)
          (rw contains-append (ground (arith, contains-trim_right b'<' is_space rest r))) k)))

-- Of a sender in angle brackets only the last bracketed address counts: whatever text stands in
-- front of it, further addresses included, the policy answers as for that address alone.
pub allows-brackets :
    (p : SenderPolicy) (name inner rest : Bytes)
    → contains b'<' inner ≡ false
    → contains b'>' inner ≡ false
    → contains b'<' rest ≡ false
    → allows p (name ++ b'<' ∷ (inner ++ b'>' ∷ rest)) ≡ allows p inner
unfolding allows
allows-brackets p name inner rest h k r = rw (bare_address-brackets name inner rest h k r)
