-- ===== src/Milter/Rewriting.antt =====
-- `rewriteBody`: what a message is after a filter has changed it.
use mailout_operator.Base.{
  ℕ, ◌≤◌, List, [], ◌∷◌, ◌++◌, Option, none, some, ◌≡◌, refl, sym, ap, ◌∙◌, arith, drop,
  append_assoc,
}
use mailout_operator.Text.{Bytes}
use mailout_operator.Message.{
  HeaderField, ParsedMessage, join, crlf, write_field, write_fields, write_headers,
}
use mailout_operator.Spool.{Spool, Os, sound, SpoolError, sibling, copy}
use mailout_operator.Spool.Refinement.{
  contents, IsSound, copy-Wrote, copy-IsSound, fresh-IsSound, read_at-contents, all_bytes-contents,
}
use mailout_operator.Envelope.{Envelope}
use mailout_operator.Milter.{header_pieces, source_of, finish_copy, copy_source, rewrite_body}

join-header_pieces : (hs : List HeaderField) → join (header_pieces hs) ≡ write_fields hs ++ crlf
join-header_pieces [] = refl
join-header_pieces (h ∷ hs) =
    rw (join-header_pieces hs) (sym (append_assoc (write_field h) (write_fields hs) crlf))

-- The body that follows the new header block.
abbrev pub body_source : Envelope → ℕ → Option Spool → Bytes
body_source msg header_len none = drop header_len (contents msg.body)
body_source msg header_len (some r) = contents r

source_of-body_source :
    (msg : Envelope) (header_len : ℕ) (replacement : Option Spool)
    → IsSound msg.body
    → header_len ≤ msg.body.n
    → source_of sound msg header_len replacement ≡ some (body_source msg header_len replacement)
unfolding source_of
source_of-body_source msg header_len none v h = read_at-contents msg.body header_len v h
source_of-body_source msg header_len (some r) v h = all_bytes-contents r

module _ (pieces : Bytes → List Bytes) (whole : (b : Bytes) → join (pieces b) ≡ b) where
  copy_source_ok :
      (os : Os) (msg : Envelope) (source head : Bytes) (r : Spool × Option SpoolError)
      → IsSound r.0
      → (r.1 ≡ none → contents r.0 ≡ head)
      → (copy_source pieces os msg (some source) r).1 ≡ none
      → (contents (copy_source pieces os msg (some source) r).0.body ≡ head ++ source)
        × IsSound (copy_source pieces os msg (some source) r).0.body
  unfolding copy_source
  copy_source_ok os msg source head (out, some e) v c h = absurd (ground arith)
  copy_source_ok os msg source head (out, none) v c h =
      finished (copy os out (pieces source)) (copy-IsSound os out (pieces source) v)
        (λ q.
          (copy-Wrote os out (pieces source) v q).appended
          ∙ rw (whole source) (ap (λ b. b ++ source) (c refl)))
        h
    where
      finished :
          (t : Spool × Option SpoolError)
          → IsSound t.0
          → (t.1 ≡ none → contents t.0 ≡ head ++ source)
          → (finish_copy msg t).1 ≡ none
          → (contents (finish_copy msg t).0.body ≡ head ++ source)
            × IsSound (finish_copy msg t).0.body
      finished (t, some e) w d k = absurd (ground arith)
      finished (t, none) w d k = (d refl, w)

  -- A rewrite that reports no error, with reads that succeed: the new body is the header block that
  -- is written for the fields, then the replacement, or the old body behind the old header block.
  pub rewrite_body-contents :
      (os : Os) (msg : Envelope) (parsed : ParsedMessage) (header_len : ℕ)
      (replacement : Option Spool)
      → IsSound msg.body
      → header_len ≤ msg.body.n
      → (rewrite_body pieces sound os msg parsed header_len replacement).1 ≡ none
      → (contents (rewrite_body pieces sound os msg parsed header_len replacement).0.body
          ≡ write_headers parsed ++ body_source msg header_len replacement)
        × IsSound (rewrite_body pieces sound os msg parsed header_len replacement).0.body
  unfolding rewrite_body write_headers
  rewrite_body-contents os msg parsed header_len replacement v l =
      let start = sibling msg.body in
      let valid = fresh-IsSound msg.body.dir msg.body.threshold in
      let ps = header_pieces parsed.headers in
      rw (source_of-body_source msg header_len replacement v l) (
        copy_source_ok os msg (body_source msg header_len replacement)
          (write_fields parsed.headers ++ crlf) (copy os start ps) (copy-IsSound os start ps valid)
          (λ q. (copy-Wrote os start ps valid q).appended ∙ join-header_pieces parsed.headers))
