-- ===== src/HeaderFrom.antt =====
-- internal/gateway/server.go, `checkHeaderFrom` and the refusals it answers with.
pub mod Accepts
mod Tests
use mailout_operator.Base.{
  ℕ, zero, suc, ◌+◌, ◌-◌, ◌*◌, ◌≤◌, ◌<◌, Bool, true, false, not, ◌&&◌, ◌||◌, List, [], ◌∷◌, ◌++◌,
  Option, none, some, ◌≡◌, ◌≢◌, ◌↔◌, ◌⊎◌, inl, inr, refl, sym, ap, subst, ◌∙◌, arith, ◌==◌, ltb,
  leb, if◌then◌else◌, Bool-cases, Option-cases, length, take, drop, is_empty, keep, All, Any,
  append-nil, append_assoc, length-append, some_of, some_of-or, some_of-Any, some_of-keep,
  some_of_mono, ==_iff,
}
use mailout_operator.Text.{Bytes, codes, same, equal_fold, trim_right, trim_space}
use mailout_operator.Smtp.{SmtpError}
use mailout_operator.Message.{HeaderField, parse_message}
use mailout_operator.Spool.{Spool, Os, header_block}
use mailout_operator.Policy.{SenderPolicy, allows}

abbrev pub err_spool_failed : SmtpError
err_spool_failed = record {
  code = 451;
  enhanced = (4, 3, 0);
  message = codes "Unable to buffer the message, try again later";
}

abbrev pub err_malformed_headers : Bytes → SmtpError
err_malformed_headers why = record {
  code = 550;
  enhanced = (5, 6, 0);
  message = codes "Malformed message headers: " ++ why;
}

abbrev pub err_sender_not_allowed : Bytes → SmtpError
err_sender_not_allowed address = record {
  code = 550;
  enhanced = (5, 7, 1);
  message = codes "Sender " ++ (address ++ codes " is not allowed for this account");
}

abbrev pub is_blank : ℕ → Bool
is_blank c = c == b' ' || c == b'\t'

-- No white space stands before the colon.
unfoldable pub clean_name : HeaderField → Bool
clean_name h = same h.name (trim_right is_blank h.name)

abbrev pub from_name : Bytes
from_name = codes "From"

unfoldable pub add_from : HeaderField → Option (List Bytes) → Option (List Bytes)
add_from h none = none
add_from h (some found) = if equal_fold h.name from_name then some (h.value ∷ found) else some found

-- The loop over the fields; `none` is the return at a name that is not clean.
unfoldable pub from_values : List HeaderField → Option (List Bytes)
unfolding clean_name add_from
from_values [] = some []
from_values (h ∷ hs) =
    let rest = from_values hs in if not (clean_name h) then none else add_from h rest

-- The switch on the number of From fields; `none` is acceptance.
unfoldable pub judge : SenderPolicy → Option (List Bytes) → Option SmtpError
judge policy none = some (err_malformed_headers (codes "whitespace before a header's colon"))
judge policy (some []) = some (err_malformed_headers (codes "no From header"))
judge policy (some (v ∷ [])) =
    if allows policy v then none else some (err_sender_not_allowed (trim_space v))
judge policy (some (v ∷ w ∷ rest)) =
    some (err_malformed_headers (codes "more than one From header"))

unfoldable pub check_block : SenderPolicy → Option (Bytes × Bool) → Option SmtpError
unfolding judge from_values
check_block policy none = some err_spool_failed
check_block policy (some (block, false)) =
    some (err_malformed_headers (codes "no end of header block found"))
check_block policy (some (block, true)) = judge policy (from_values (parse_message block).headers)

unfoldable pub check_header_from : Os → Spool → SenderPolicy → Spool × Option SmtpError
unfolding check_block
check_header_from os body policy =
    let (body', block) = header_block os body in (body', check_block policy block)
