-- ===== src/Spool.antt =====
-- internal/gateway/spool.go: one message body, in memory up to a threshold and then in a file.
-- A file is its bytes and the offset that reads and writes share. What the operating system
-- answers to each call is a parameter.
pub mod Refinement
pub mod Blocks
mod Tests
use mailout_operator.Base.{
  ℕ, zero, suc, ◌+◌, ◌-◌, ◌*◌, ◌≤◌, ◌<◌, Bool, true, false, not, ◌&&◌, ◌||◌, List, [], ◌∷◌, ◌++◌,
  Option, none, some, ◌≡◌, ◌≢◌, ◌↔◌, ◌⊎◌, inl, inr, refl, sym, ap, subst, ◌∙◌, arith, ◌==◌, ltb,
  leb, if◌then◌else◌, Bool-cases, Option-cases, length, take, drop, is_empty, keep, All, Any,
  append-nil, append_assoc, length-append, some_of, some_of-or, some_of-Any, some_of-keep,
  some_of_mono, ==_iff,
}
use mailout_operator.Text.{Bytes, codes}

pub record File : Type 0 where
  pub content : Bytes
  pub pos : ℕ

-- `dir` is kept for the calls that create a file; it decides nothing else here.
pub record Spool : Type 0 where
  pub dir : Bytes
  pub threshold : ℕ
  pub buf : Bytes
  pub file : Option File
  pub n : ℕ

-- The answers to the calls of one operation. A write that fails has written some bytes, of which
-- `written` says how many; `none` is a write that succeeds.
pub record Os : Type 0 where
  pub creates : Bool
  pub removes : Bool
  pub moves : Bool
  pub written : Option ℕ
  pub seeks : Bool
  pub truncates : Bool
  pub reads : Bool

-- Every call succeeds.
abbrev pub sound : Os
sound = record {
  creates = true;
  removes = true;
  moves = true;
  written = none;
  seeks = true;
  truncates = true;
  reads = true;
}

pub data SpoolError : Type 0 where
  spool_to unlink move write_failed rewind seek_failed truncate read_failed : SpoolError

abbrev pub fresh : Bytes → ℕ → Spool
fresh dir threshold = record { dir = dir; threshold = threshold; buf = []; file = none; n = 0 }

-- `sibling`
abbrev pub sibling : Spool → Spool
sibling s = fresh s.dir s.threshold

abbrev pub spooled : Spool → Bool
spooled s = elim s.file [ none ↦ false | some f ↦ true ]

-- What a write at the offset leaves in a file.
abbrev pub write_at : File → Bytes → File
write_at f p = record {
  content = take f.pos f.content ++ (p ++ drop (f.pos + length p) f.content);
  pos = f.pos + length p;
}

-- Move what is buffered to a new file.
unfoldable pub overflow : Os → Spool → Spool × Option SpoolError
overflow os s =
    if not os.creates
    then (s, some spool_to)
    else if not os.removes
    then (s, some unlink)
    else if not os.moves
    then (s, some move)
    else (
      record s { buf = []; file = some (write_at (record { content = []; pos = 0 }) s.buf) },
      none,
    )

-- The part of a write that reaches its target.
abbrev pub reached : Os → Bytes → Bytes
reached os p = elim os.written [ none ↦ p | some k ↦ take k p ]

-- The write itself; a write to memory does not fail.
unfoldable pub write_through : Os → Spool → Bytes → Option File → Spool × Option SpoolError
write_through os s p none = (record s { buf = s.buf ++ p; n = s.n + length p }, none)
write_through os s p (some f) = (
  record s { file = some (write_at f (reached os p)); n = s.n + length (reached os p) },
  elim os.written [ none ↦ none | some k ↦ some write_failed ],
)

-- The write behind the overflow, unless that has failed.
unfoldable pub write_after : Os → Bytes → Spool × Option SpoolError → Spool × Option SpoolError
unfolding write_through
write_after os p (s, some e) = (s, some e)
write_after os p (s, none) = write_through os s p s.file

-- `Write`, with the bytes that it was asked to write.
unfoldable pub write : Os → Spool → Bytes → Spool × Option SpoolError
unfolding overflow write_after
write os s p =
    write_after os p
      (if not (spooled s) && ltb s.threshold (s.n + length p) then overflow os s else (s, none))

-- Go on behind a write, unless it has failed.
unfoldable pub if_written :
    Spool × Option SpoolError → (Spool → Spool × Option SpoolError) → Spool × Option SpoolError
if_written (s, some e) next = (s, some e)
if_written (s, none) next = next s

-- `io.Copy` into a spool: chunk by chunk, up to the first error.
unfoldable pub copy : Os → Spool → List Bytes → Spool × Option SpoolError
unfolding write if_written
copy os s [] = (s, none)
copy os s (p ∷ ps) = if_written (write os s p) (λ t. copy os t ps)

abbrev pub len : Spool → ℕ
len s = s.n

-- `ReaderAt` and a read of at most `limit` bytes of what it returns. The read moves the offset.
unfoldable pub read_file : Os → Spool → ℕ → ℕ → Option File → Spool × Option Bytes
read_file os s offset limit none = (s, some (take limit (drop offset s.buf)))
read_file os s offset limit (some f) =
    if not os.seeks
    then (s, none)
    else let got = take limit (drop offset f.content) in
      (
        record s { file = some (record f { pos = offset + length got }) },
        if os.reads then some got else none,
      )

unfoldable pub read_at : Os → Spool → ℕ → ℕ → Spool × Option Bytes
unfolding read_file
read_at os s offset limit = read_file os s (if ltb s.n offset then s.n else offset) limit s.file

-- `Reader`, read up to a limit.
unfoldable pub read_limited : Os → Spool → ℕ → Spool × Option Bytes
unfolding read_file
read_limited os s limit = read_file os s 0 limit s.file

-- `Bytes`: the whole body.
unfoldable pub bytes_file : Os → Spool → Option File → Spool × Option Bytes
unfolding read_limited
bytes_file os s none = (s, some s.buf)
bytes_file os s (some f) = read_limited os s (length f.content)

unfoldable pub all_bytes : Os → Spool → Spool × Option Bytes
unfolding bytes_file
all_bytes os s = bytes_file os s s.file

-- `Reset`: replace the body, keeping the same storage.
unfoldable pub reset_file : Os → Spool → Bytes → Option File → Spool × Option SpoolError
unfolding write
reset_file os s p none = write os (record s { buf = []; n = 0 }) p
reset_file os s p (some f) =
    if not os.truncates
    then (s, some truncate)
    else if not os.seeks
    then (record s { file = some (record { content = []; pos = f.pos }) }, some rewind)
    else write os (record s { file = some (record { content = []; pos = 0 }); n = 0 }) p

unfoldable pub reset : Os → Spool → Bytes → Spool × Option SpoolError
unfolding reset_file
reset os s p = reset_file os s p s.file

abbrev pub close : Spool → Spool
close s = record s { buf = []; file = none }

-- Is the text at the front of the other?
unfoldable pub has_prefix : Bytes → Bytes → Bool
has_prefix [] s = true
has_prefix (x ∷ p) [] = false
has_prefix (x ∷ p) (y ∷ s) = x == y && has_prefix p s

-- `bytes.Index(block, sep)`
unfoldable pub index_from : ℕ → Bytes → Bytes → Option ℕ
unfolding has_prefix
index_from i sep [] = if is_empty sep then some i else none
index_from i sep (c ∷ s) =
    let rest = index_from (suc i) sep s in if has_prefix sep (c ∷ s) then some i else rest

abbrev pub crlf_crlf : Bytes
crlf_crlf = codes "\r\n\r\n"

abbrev pub lf_lf : Bytes
lf_lf = codes "\n\n"

-- The first separator that occurs ends the block: CRLF CRLF is looked for before LF LF.
unfoldable pub find_block : Bytes → Bytes × Bool
unfolding index_from
find_block block = elim (index_from 0 crlf_crlf block) [
  | some i ↦ (take (i + 4) block, true)
  | none ↦ elim (index_from 0 lf_lf block) [
    | some i ↦ (take (i + 2) block, true)
    | none ↦ (block, false)
  ]
]

abbrev pub max_header_bytes : ℕ
max_header_bytes = 1024 * 1024

-- `headerBlock`, over the bound on what it reads; `none` is a failed read.
unfoldable pub block_of : Spool × Option Bytes → Spool × Option (Bytes × Bool)
unfolding find_block
block_of (s, none) = (s, none)
block_of (s, some block) = (s, some (find_block block))

unfoldable pub header_block_within : ℕ → Os → Spool → Spool × Option (Bytes × Bool)
unfolding block_of read_limited
header_block_within limit os s = block_of (read_limited os s limit)

unfoldable pub header_block : Os → Spool → Spool × Option (Bytes × Bool)
unfolding header_block_within
header_block os s = header_block_within max_header_bytes os s
