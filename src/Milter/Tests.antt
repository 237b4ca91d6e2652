-- ===== src/Milter/Tests.antt =====
-- Runs of the filters, and their theorems at concrete inputs.
use mailout_operator.Base.{
  true, false, List, [], ◌∷◌, ◌++◌, none, some, ◌≡◌, ◌↔◌, refl, arith, append-nil,
}
use mailout_operator.Text.{Bytes, codes}
use mailout_operator.Message.{ParsedMessage, write_headers}
use mailout_operator.Spool.{
  sound, fresh, copy, write, overflow, write_through, write_after, if_written, read_at, read_file,
}
use mailout_operator.Spool.Refinement.{contents, IsSound, fresh-IsSound, copy-IsSound}
use mailout_operator.Envelope.{Envelope}
use mailout_operator.Milter.{Filter, malfunction, passed, run, rewrite_body, source_of, copy_source}
use mailout_operator.Milter.Chain.{Passes, run-passed_iff}
use mailout_operator.Milter.Rewriting.{body_source, rewrite_body-contents}

abbrev letter : Envelope
letter = record {
  from = codes "a@example.com";
  to = codes "b@example.net" ∷ [];
  body = (copy sound (fresh [] 100) (codes "X: 1\r\n\r\nHi" ∷ [])).0;
  account = codes "shop";
}

-- One filter is away, and the next redirects.
abbrev filters : List Filter
filters =
    record { name = codes "spam"; fail_open = true; apply = λ m. (m, some malfunction) }
    ∷ record {
      name = codes "redirect";
      fail_open = false;
      apply = λ m. (record m { to = codes "c@example.net" ∷ [] }, none);
    }
    ∷ []

run-passed_iff_example :
    (run filters letter ≡ passed (record letter { to = codes "c@example.net" ∷ [] }))
    ↔ Passes filters letter (record letter { to = codes "c@example.net" ∷ [] })
run-passed_iff_example =
    run-passed_iff filters letter (record letter { to = codes "c@example.net" ∷ [] })

abbrev at_once : Bytes → List Bytes
at_once b = b ∷ []

abbrev changed : ParsedMessage
changed = record { headers = record { name = codes "Y"; value = codes "2" } ∷ []; body = [] }

rewrite_body-contents_example :
    (contents (rewrite_body at_once sound sound letter changed 8 none).0.body
      ≡ write_headers changed ++ body_source letter 8 none)
    × IsSound (rewrite_body at_once sound sound letter changed 8 none).0.body
unfolding rewrite_body source_of copy_source copy write overflow write_through write_after
    if_written read_at read_file
rewrite_body-contents_example =
    rewrite_body-contents at_once (λ b. append-nil b) sound letter changed 8 none
      (copy-IsSound sound (fresh [] 100) (codes "X: 1\r\n\r\nHi" ∷ []) (fresh-IsSound [] 100))
      (omega arith) refl
