-- ===== src/Spool/Refinement.antt =====
-- A spool stands for the bytes written to it, wherever they are kept.
use mailout_operator.Base.{
  append_assoc, sym, List, ◌&&◌, not, inr, inl, ◌<◌, not, Bool-cases, ◌⊎◌, if◌then◌else◌, ◌∙◌, ltb,
  ℕ, zero, suc, ◌+◌, ◌≤◌, true, false, [], ◌∷◌, ◌++◌, Option, none, some, ◌≡◌, refl, ap, arith,
  length, take, drop, append-nil, length-append,
}
use mailout_operator.Text.{Bytes}
use mailout_operator.Message.{join}
use mailout_operator.Spool.{
  bytes_file, read_at, all_bytes, sound, fresh, if_written, copy, reset, reset_file, read_limited,
  read_file, copy, write_after, SpoolError, write, File, Spool, Os, spooled, write_at, overflow,
  reached, write_through,
}

abbrev pub contents_of : Bytes → Option File → Bytes
contents_of buf none = buf
contents_of buf (some f) = f.content

-- The bytes that the spool holds.
abbrev pub contents : Spool → Bytes
contents s = contents_of s.buf s.file

-- Appending goes to the end, of memory or of the file; nothing is left in memory beside a file.
abbrev pub AtEnd : Bytes → Option File → Type 0
AtEnd buf none = Unit
AtEnd buf (some f) = (f.pos ≡ length f.content) × (buf ≡ [])

pub record IsSound (s : Spool) : Type 0 where
  pub counted : s.n ≡ length (contents s)
  pub bounded : length s.buf ≤ s.threshold
  pub at_end : AtEnd s.buf s.file

take_all : (s : Bytes) → take (length s) s ≡ s
take_all [] = refl
take_all (c ∷ s) = ap (◌∷◌ c) (take_all s)

drop_beyond : (k : ℕ) (s : Bytes) → length s ≤ k → drop k s ≡ []
drop_beyond zero [] h = refl
drop_beyond zero (c ∷ s) h = absurd (omega arith)
drop_beyond (suc k) [] h = refl
drop_beyond (suc k) (c ∷ s) h = drop_beyond k s (omega arith)

write_at_end :
    (f : File) (p : Bytes) → f.pos ≡ length f.content → (write_at f p).content ≡ f.content ++ p
write_at_end f p e = rw (
  e,
  take_all f.content,
  drop_beyond (length f.content + length p) f.content (omega arith),
  append-nil,
)

write_through-IsSound :
    (os : Os) (s : Spool) (p : Bytes) (file : Option File)
    → s.file ≡ file
    → IsSound s
    → (spooled s ≡ false → s.n + length p ≤ s.threshold)
    → IsSound (write_through os s p file).0
unfolding write_through
write_through-IsSound os s p none e v h = ground (arith, length-append s.buf p)
write_through-IsSound os s p (some f) e v h =
    let q = reached os p in
    let full : f.pos ≡ length f.content = ground arith in
    ground
      (arith, length-append f.content q, ap length (write_at_end f q full), write_at_end f q full)

overflow-IsSound :
    (os : Os) (s : Spool)
    → spooled s ≡ false
    → IsSound s
    → IsSound (overflow os s).0 × (contents (overflow os s).0 ≡ contents s)
unfolding overflow
overflow-IsSound os s o v =
    ground (arith, append-nil s.buf, take_all s.buf, drop_beyond (0 + length s.buf) [])

overflow_ok : (os : Os) (s : Spool) → (overflow os s).1 ≡ none → spooled (overflow os s).0 ≡ true
unfolding overflow
overflow_ok os s h = ground arith

overflow_keeps :
    (os : Os) (s : Spool)
    → ((overflow os s).0.n ≡ s.n) × ((overflow os s).0.threshold ≡ s.threshold)
unfolding overflow
overflow_keeps os s = ground arith

-- What holds between the overflow, where one is due, and the write.
record IsReady (s : Spool) (p : Bytes) (r : Spool × Option SpoolError) : Type 0 where
  sound_now : IsSound r.0
  same_contents : contents r.0 ≡ contents s
  same_count : r.0.n ≡ s.n
  same_threshold : r.0.threshold ≡ s.threshold
  fits : r.1 ≡ none → spooled r.0 ≡ false → s.n + length p ≤ s.threshold
  placed_before :
      r.1 ≡ none → spooled r.0 ≡ true → (spooled s ≡ true) ⊎ (s.threshold < s.n + length p)

make-IsReady :
    (os : Os) (s : Spool) (p : Bytes)
    → IsSound s
    → IsReady s p
        (if not (spooled s) && ltb s.threshold (s.n + length p) then overflow os s else (s, none))
make-IsReady os s p v = elim (Bool-cases (not (spooled s) && ltb s.threshold (s.n + length p))) [
  | inl e ↦
      let moved = overflow-IsSound os s (ground arith) v in
      rw e (record {
        sound_now = moved.0;
        same_contents = moved.1;
        same_count = (overflow_keeps os s).0;
        same_threshold = (overflow_keeps os s).1;
        fits = λ o u. ground (arith, overflow_ok os s o);
        placed_before = λ o u. inr (ground arith);
      })
  | inr e ↦ rw e (record {
    sound_now = v;
    same_contents = refl;
    same_count = refl;
    same_threshold = refl;
    fits = λ o u. ground arith;
    placed_before = λ o u. inl u;
  })
]

write_after-IsSound :
    (os : Os) (s : Spool) (p : Bytes) (r : Spool × Option SpoolError)
    → IsReady s p r
    → IsSound (write_after os p r).0
unfolding write_after
write_after-IsSound os s p (t, some e) v = v.sound_now
write_after-IsSound os s p (t, none) v =
    write_through-IsSound os t p t.file refl v.sound_now
      (λ u. ground (arith, v.fits refl u, v.same_count, v.same_threshold))

write_through_ok :
    (os : Os) (s : Spool) (p : Bytes) (file : Option File)
    → s.file ≡ file
    → IsSound s
    → (write_through os s p file).1 ≡ none
    → (contents (write_through os s p file).0 ≡ contents s ++ p)
      × ((write_through os s p file).0.n ≡ s.n + length p)
      × (spooled (write_through os s p file).0 ≡ spooled s)
unfolding write_through
write_through_ok os s p none e v h = ground arith
write_through_ok os s p (some f) e v h = ground (arith, write_at_end f p (ground arith))

write_through-keeps :
    (os : Os) (s : Spool) (p : Bytes) (file : Option File)
    → (write_through os s p file).0.threshold ≡ s.threshold
unfolding write_through
write_through-keeps os s p none = refl
write_through-keeps os s p (some f) = refl

-- A write that reports no error has appended its bytes.
pub record Wrote (s : Spool) (p : Bytes) (t : Spool) : Type 0 where
  pub appended : contents t ≡ contents s ++ p
  pub counted_more : t.n ≡ s.n + length p
  pub threshold_kept : t.threshold ≡ s.threshold
  pub placed : spooled s ≡ ltb s.threshold s.n → spooled t ≡ ltb t.threshold t.n

write_after-Wrote :
    (os : Os) (s : Spool) (p : Bytes) (r : Spool × Option SpoolError)
    → IsReady s p r
    → (write_after os p r).1 ≡ none
    → Wrote s p (write_after os p r).0
unfolding write_after
write_after-Wrote os s p (t, some e) v h = cc
write_after-Wrote os s p (t, none) v h =
    let (c, n, f) = write_through_ok os t p t.file refl v.sound_now h in
    let kept = write_through-keeps os t p t.file in
    record {
      appended = c ∙ ap (λ b. b ++ p) v.same_contents;
      counted_more = n ∙ ap (λ k. k + length p) v.same_count;
      threshold_kept = kept ∙ v.same_threshold;
      placed = λ b. elim (Bool-cases (spooled t)) [
        | inl u ↦ elim (v.placed_before refl u) [
          | inl was ↦ ground (arith, v.same_count, v.same_threshold)
          | inr past ↦ ground (arith, v.same_count, v.same_threshold)
        ]
        | inr u ↦ ground (arith, v.fits refl u, v.same_count, v.same_threshold)
      ];
    }

pub write-IsSound : (os : Os) (s : Spool) (p : Bytes) → IsSound s → IsSound (write os s p).0
unfolding write
write-IsSound os s p v = write_after-IsSound os s p _ (make-IsReady os s p v)

write-Wrote :
    (os : Os) (s : Spool) (p : Bytes)
    → IsSound s
    → (write os s p).1 ≡ none
    → Wrote s p (write os s p).0
unfolding write
write-Wrote os s p v h = write_after-Wrote os s p _ (make-IsReady os s p v) h

if_written-Wrote :
    (s : Spool) (p q : Bytes) (r : Spool × Option SpoolError)
    (next : Spool → Spool × Option SpoolError)
    → IsSound r.0
    → (r.1 ≡ none → Wrote s p r.0)
    → ((t : Spool) → IsSound t → (next t).1 ≡ none → Wrote t q (next t).0)
    → (if_written r next).1 ≡ none
    → Wrote s (p ++ q) (if_written r next).0
unfolding if_written
if_written-Wrote s p q (t, some e) next v w rec h = cc
if_written-Wrote s p q (t, none) next v w rec h =
    let first = w refl in
    let rest = rec t v h in
    record {
      appended = rest.appended ∙ ap (λ b. b ++ q) first.appended ∙ append_assoc (contents s) p q;
      counted_more = omega (arith, rest.counted_more, first.counted_more, length-append p q);
      threshold_kept = rest.threshold_kept ∙ first.threshold_kept;
      placed = λ b. rest.placed (first.placed b);
    }

pub copy-Wrote :
    (os : Os) (s : Spool) (ps : List Bytes)
    → IsSound s
    → (copy os s ps).1 ≡ none
    → Wrote s (join ps) (copy os s ps).0
unfolding copy
copy-Wrote os s [] v h = record {
  appended = sym (append-nil (contents s));
  counted_more = omega arith;
  threshold_kept = refl;
  placed = λ b. b;
}
copy-Wrote os s (p ∷ ps) v h =
    if_written-Wrote s p (join ps) (write os s p) (λ t. copy os t ps) (write-IsSound os s p v)
      (write-Wrote os s p v) (λ t w. copy-Wrote os t ps w) h

if_written-IsSound :
    (r : Spool × Option SpoolError) (next : Spool → Spool × Option SpoolError)
    → IsSound r.0
    → ((t : Spool) → IsSound t → IsSound (next t).0)
    → IsSound (if_written r next).0
unfolding if_written
if_written-IsSound (t, some e) next v rec = v
if_written-IsSound (t, none) next v rec = rec t v

pub fresh-IsSound : (dir : Bytes) (threshold : ℕ) → IsSound (fresh dir threshold)
fresh-IsSound dir threshold = record { counted = refl; bounded = omega arith; at_end = tt }

-- However the calls to the file system end, what a spool keeps in memory stays within its
-- threshold, its length is that of its contents, and the next write goes to the end.
pub copy-IsSound : (os : Os) (s : Spool) (ps : List Bytes) → IsSound s → IsSound (copy os s ps).0
unfolding copy
copy-IsSound os s [] v = v
copy-IsSound os s (p ∷ ps) v =
    if_written-IsSound (write os s p) (λ t. copy os t ps) (write-IsSound os s p v)
      (λ t. copy-IsSound os t ps)

-- Chunks copied into a new spool with no error reported: the spool holds their bytes in order, its
-- length is their length, and it is on disk exactly when that is above the threshold.
pub copy-fresh :
    (os : Os) (dir : Bytes) (threshold : ℕ) (ps : List Bytes)
    → (copy os (fresh dir threshold) ps).1 ≡ none
    → (contents (copy os (fresh dir threshold) ps).0 ≡ join ps)
      × ((copy os (fresh dir threshold) ps).0.n ≡ length (join ps))
      × (spooled (copy os (fresh dir threshold) ps).0 ≡ ltb threshold (length (join ps)))
copy-fresh os dir threshold ps h =
    let w = copy-Wrote os (fresh dir threshold) ps (fresh-IsSound dir threshold) h in
    (
      w.appended,
      omega (arith, w.counted_more),
      ground (arith, w.placed (ground arith), w.counted_more, w.threshold_kept),
    )

reset_file-contents :
    (os : Os) (s : Spool) (p : Bytes) (file : Option File)
    → s.file ≡ file
    → IsSound s
    → (reset_file os s p file).1 ≡ none
    → contents (reset_file os s p file).0 ≡ p
unfolding reset_file
reset_file-contents os s p none e v h =
    let start = record s { buf = []; n = 0 } in
    let valid : IsSound start = record {
      counted = ground arith;
      bounded = omega arith;
      at_end = ground arith;
    } in
    (write-Wrote os start p valid h).appended ∙ ground arith
reset_file-contents os s p (some f) e v h =
    let start = record s { file = some (record { content = []; pos = 0 }); n = 0 } in
    let valid : IsSound start = record {
      counted = ground arith;
      bounded = v.bounded;
      at_end = ground arith;
    } in
    let done : (write os start p).1 ≡ none = ground arith in
    ground (arith, (write-Wrote os start p valid done).appended)

-- A spool that is reset to some bytes, with no error reported, holds just those.
reset-contents :
    (os : Os) (s : Spool) (p : Bytes)
    → IsSound s
    → (reset os s p).1 ≡ none
    → contents (reset os s p).0 ≡ p
unfolding reset
reset-contents os s p v h = reset_file-contents os s p s.file refl v h

-- Reading gives the contents up to the limit, and leaves them.
pub read_limited-contents :
    (s : Spool) (limit : ℕ)
    → ((read_limited sound s limit).1 ≡ some (take limit (contents s)))
      × (contents (read_limited sound s limit).0 ≡ contents s)
unfolding read_limited read_file
read_limited-contents s limit = ground arith

length-drop : (k : ℕ) (s : Bytes) → length (drop k s) ≤ length s
length-drop zero s = omega arith
length-drop (suc k) [] = omega arith
length-drop (suc k) (c ∷ s) = omega (arith, length-drop k s)

take_enough : (k : ℕ) (s : Bytes) → length s ≤ k → take k s ≡ s
take_enough zero [] h = refl
take_enough zero (c ∷ s) h = absurd (omega arith)
take_enough (suc k) [] h = refl
take_enough (suc k) (c ∷ s) h = ap (◌∷◌ c) (take_enough k s (omega arith))

-- Reading from an offset within the body gives the rest of the contents.
pub read_at-contents :
    (s : Spool) (offset : ℕ)
    → IsSound s
    → offset ≤ s.n
    → (read_at sound s offset s.n).1 ≡ some (drop offset (contents s))
unfolding read_at read_file
read_at-contents s offset v h = ground (
  arith,
  v.counted,
  take_enough s.n (drop offset (contents s))
      (omega (arith, length-drop offset (contents s), v.counted)),
)

pub all_bytes-contents : (s : Spool) → (all_bytes sound s).1 ≡ some (contents s)
unfolding all_bytes bytes_file read_limited read_file
all_bytes-contents s = by_file s.file refl
  where
    by_file :
        (file : Option File)
        → s.file ≡ file
        → (bytes_file sound s file).1 ≡ some (contents_of s.buf file)
    by_file none e = refl
    by_file (some f) e = ground (arith, take_all f.content)
