-- ===== src/Spool/Blocks.antt =====
-- The header block that `headerBlock` cuts off the front of a body.
use mailout_operator.Base.{
  ℕ, zero, suc, ◌+◌, true, [], ◌∷◌, ◌++◌, Option, none, some, ◌≡◌, ◌⊎◌, inl, inr, refl, sym, ap,
  subst, ◌∙◌, arith, Bool-cases, Option-cases, length, take, drop, append_assoc,
}
use mailout_operator.Text.{Bytes}
use mailout_operator.Spool.{
  Spool, sound, has_prefix, index_from, crlf_crlf, lf_lf, find_block, block_of, read_limited,
  header_block_within,
}
use mailout_operator.Spool.Refinement.{contents, read_limited-contents}

has_prefix-splits : (p s : Bytes) → has_prefix p s ≡ true → (post : Bytes) × (s ≡ p ++ post)
unfolding has_prefix
has_prefix-splits [] s h = (s, refl)
has_prefix-splits (x ∷ p) [] h = cc
has_prefix-splits (x ∷ p) (y ∷ s) h =
    let (post, e) = has_prefix-splits p s (ground arith) in (post, ground arith)

-- The text is split by an occurrence of the separator behind so many bytes.
abbrev SplitAt : ℕ → Bytes → Bytes → Type 0
SplitAt k sep s = (pre : Bytes) × (post : Bytes) × (s ≡ pre ++ (sep ++ post)) × (length pre ≡ k)

index_from-SplitAt :
    (i : ℕ) (sep s : Bytes) (j : ℕ)
    → index_from i sep s ≡ some j
    → (k : ℕ) × (j ≡ i + k) × SplitAt k sep s
unfolding index_from
index_from-SplitAt i [] [] j h = (0, ground arith, ([], [], refl, refl))
index_from-SplitAt i (x ∷ sep) [] j h = cc
index_from-SplitAt i sep (c ∷ s) j h = elim (Bool-cases (has_prefix sep (c ∷ s))) [
  | inl e ↦
      let (post, q) = has_prefix-splits sep (c ∷ s) e in (0, ground arith, ([], post, q, refl))
  | inr e ↦
      let (k, j_is, at) = index_from-SplitAt (suc i) sep s j (ground arith) in
      let (pre, post, q, l) = at in (suc k, omega arith, (c ∷ pre, post, ap (◌∷◌ c) q, omega arith))
]

take-append : (pre rest : Bytes) (k : ℕ) → take (length pre + k) (pre ++ rest) ≡ pre ++ take k rest
take-append [] rest k = rw (zero_add k)
  where
    zero_add : (n : ℕ) → 0 + n ≡ n
    zero_add n = omega arith
take-append (c ∷ pre) rest k = rw (suc_add (length pre) k) (ap (◌∷◌ c) (take-append pre rest k))
  where
    suc_add : (a b : ℕ) → suc a + b ≡ suc (a + b)
    suc_add a b = omega arith

take_front : (s t : Bytes) (k : ℕ) → length s ≡ k → take k (s ++ t) ≡ s
take_front [] t k h = rw (← h)
take_front (c ∷ s) t zero h = absurd (omega arith)
take_front (c ∷ s) t (suc k) h = ap (◌∷◌ c) (take_front s t k (omega arith))

-- The block ends in a separator, and the rest of the text stands behind it.
pub record IsFront (text block : Bytes) : Type 0 where
  pub before : Bytes
  pub rest : Bytes
  pub ends : (block ≡ before ++ crlf_crlf) ⊎ (block ≡ before ++ lf_lf)
  pub splits : text ≡ block ++ rest

IsFront-at :
    (sep text : Bytes) (i k : ℕ)
    → length sep ≡ k
    → (sep ≡ crlf_crlf) ⊎ (sep ≡ lf_lf)
    → index_from 0 sep text ≡ some i
    → IsFront text (take (i + k) text)
IsFront-at sep text i k size which found =
    let (m, i_is, at) = index_from-SplitAt 0 sep text i found in
    let (pre, post, q, l) = at in
    let cut_off : take (i + k) text ≡ pre ++ sep =
      ap (λ n. take n text) (omega arith)
      ∙ ap (take (length pre + k)) q
      ∙ take-append pre (sep ++ post) k
      ∙ ap (◌++◌ pre) (take_front sep post k size) in
    record {
      before = pre;
      rest = post;
      ends = elim which [
        | inl e ↦ inl (cut_off ∙ ap (λ t. pre ++ t) e)
        | inr e ↦ inr (cut_off ∙ ap (λ t. pre ++ t) e)
      ];
      splits = rw cut_off (q ∙ sym (append_assoc pre sep post));
    }

find_block-IsFront : (text block : Bytes) → find_block text ≡ (block, true) → IsFront text block
unfolding find_block
find_block-IsFront text block h = elim (Option-cases (index_from 0 crlf_crlf text)) [
  | inl e ↦ elim (Option-cases (index_from 0 lf_lf text)) [
    | inl f ↦ ground arith
    | inr (i, f) ↦ subst (IsFront text) (ground arith) (IsFront-at lf_lf text i 2 refl (inr refl) f)
  ]
  | inr (i, e) ↦
      subst (IsFront text) (ground arith) (IsFront-at crlf_crlf text i 4 refl (inl refl) e)
]

take-drop : (k : ℕ) (s : Bytes) → take k s ++ drop k s ≡ s
take-drop zero s = refl
take-drop (suc k) [] = refl
take-drop (suc k) (c ∷ s) = ap (◌∷◌ c) (take-drop k s)

block_of-eq :
    (r : Spool × Option Bytes) (t : Spool) (block text : Bytes)
    → r.1 ≡ some text
    → block_of r ≡ (t, some (block, true))
    → (r.0 ≡ t) × (find_block text ≡ (block, true))
unfolding block_of
block_of-eq (u, none) t block text e h = cc
block_of-eq (u, some x) t block text e h = ground arith

IsFront-take : (k : ℕ) (s block : Bytes) → IsFront (take k s) block → IsFront s block
IsFront-take k s block b = record {
  before = b.before;
  rest = b.rest ++ drop k s;
  ends = b.ends;
  splits =
      sym (take-drop k s) ∙ ap (λ t. t ++ drop k s) b.splits ∙ append_assoc block b.rest (drop k s);
}

-- A header block that is reported as terminated is the front of the body, ends in an empty line,
-- and reading it leaves the body as it was.
header_block-IsFront :
    (limit : ℕ) (s t : Spool) (block : Bytes)
    → header_block_within limit sound s ≡ (t, some (block, true))
    → IsFront (contents s) block × (contents t ≡ contents s)
unfolding header_block_within
header_block-IsFront limit s t block h =
    let (got, kept) = read_limited-contents s limit in
    let (now, found) = block_of-eq (read_limited sound s limit) t block _ got h in
    (
      IsFront-take limit (contents s) block (find_block-IsFront _ block found),
      ap contents (sym now) ∙ kept,
    )
