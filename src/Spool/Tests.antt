-- ===== src/Spool/Tests.antt =====
-- Runs of the body spool, and its theorems at concrete inputs.
use mailout_operator.Base.{List, [], ◌∷◌, some, ◌≡◌, refl, ltb, length}
use mailout_operator.Text.{Bytes, codes}
use mailout_operator.Message.{join}
use mailout_operator.Spool.{
  Spool, Os, sound, fresh, spooled, copy, write, overflow, write_through, write_after, if_written,
}
use mailout_operator.Spool.Refinement.{contents, IsSound, fresh-IsSound, copy-IsSound, copy-fresh}

-- The disk is full after two bytes.
abbrev full_disk : Os
full_disk = record sound { written = some 2 }

abbrev chunks : List Bytes
chunks = codes "From: a\r\n" ∷ codes "\r\nHi" ∷ []

abbrev letter : Spool
letter = (copy sound (fresh [] 100) chunks).0

copy-IsSound_example : IsSound (copy full_disk (fresh [] 10) chunks).0
copy-IsSound_example = copy-IsSound full_disk (fresh [] 10) chunks (fresh-IsSound [] 10)

copy-fresh_example :
    (contents (copy sound (fresh [] 10) chunks).0 ≡ join chunks)
    × ((copy sound (fresh [] 10) chunks).0.n ≡ length (join chunks))
    × (spooled (copy sound (fresh [] 10) chunks).0 ≡ ltb 10 (length (join chunks)))
unfolding copy write overflow write_through write_after if_written
copy-fresh_example = copy-fresh sound [] 10 chunks refl
