-- ===== src/Session/ReceivedTests.antt =====
-- The theorem on the Received header at a concrete input: a name that holds a line break.
use mailout_operator.Base.{[], ◌∷◌, ◌++◌, ◌≡◌, refl}
use mailout_operator.Text.{codes, contains}
use mailout_operator.Message.{split_lines}
use mailout_operator.Session.Received.{
  header_safe, from_line, by_line, date_line, received_header, received_header-split_lines,
}

-- The line break and the byte that starts no rune are replaced.
header_safe-break :
    header_safe (97 ∷ 13 ∷ 10 ∷ 195 ∷ 169 ∷ 195 ∷ [])
    ≡ 97 ∷ 63 ∷ 63 ∷ 195 ∷ 169 ∷ 239 ∷ 191 ∷ 189 ∷ []
unfolding header_safe
header_safe-break = refl

received_header-split_lines_example :
    split_lines (
      received_header
        (codes "a\r\nBcc: b")
        (codes "::1")
        (codes "mx")
        (codes "blue.app")
        (codes "now")
      ++ codes "From: c")
    ≡ (from_line (codes "a\r\nBcc: b") (codes "::1") ++ b'\n' ∷ [])
      ∷ (by_line (codes "mx") (codes "blue.app") ++ b'\n' ∷ [])
      ∷ (date_line (codes "now") ++ b'\n' ∷ [])
      ∷ split_lines (codes "From: c")
unfolding contains
received_header-split_lines_example =
    received_header-split_lines (codes "a\r\nBcc: b") (codes "::1") (codes "mx") (codes "blue.app")
      (codes "now") (codes "From: c") refl
