-- ===== src/Message/Tests.antt =====
-- Runs of the message headers, and their theorems at concrete inputs.
use mailout_operator.Base.{[], ◌∷◌, ◌≡◌}
use mailout_operator.Text.{Bytes, codes}
use mailout_operator.Message.{ParsedMessage, parse_message, bytes, change_header}
use mailout_operator.Message.Changes.{values, change_at, values-change_header}
use mailout_operator.Message.Stable.{parse_message-bytes-parse_message}

abbrev letter : ParsedMessage
letter = record {
  headers =
      record { name = codes "From"; value = codes "a@b.test" }
      ∷ record { name = codes "X-Tag"; value = codes "one" }
      ∷ record { name = codes "x-tag"; value = codes "two" }
      ∷ [];
  body = codes "Hi";
}

abbrev wire : Bytes
wire = codes "From: a@b.test\nX-Tag:one\n folded\n\nHi\n"

values-change_header_example :
    values (codes "X-TAG") (change_header 2 (codes "X-TAG") (codes "three") letter).headers
    ≡ change_at 1 (codes "three") (values (codes "X-TAG") letter.headers)
values-change_header_example = values-change_header 1 (codes "X-TAG") (codes "three") letter

parse_message-bytes-parse_message_example :
    parse_message (bytes (parse_message wire)) ≡ parse_message wire
parse_message-bytes-parse_message_example = parse_message-bytes-parse_message wire
