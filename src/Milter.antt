-- ===== src/Milter.antt =====
-- internal/gateway/milter.go: the filters that a message passes through, in order. The milter
-- client is a parameter: what it answers to each command. Calls to the operating system are
-- answered by one `Os` for each spool that is written or read.
pub mod Chain
pub mod Rewriting
mod Tests
use mailout_operator.Base.{
  ℕ, zero, suc, ◌+◌, ◌-◌, ◌*◌, ◌≤◌, ◌<◌, Bool, true, false, not, ◌&&◌, ◌||◌, List, [], ◌∷◌, ◌++◌,
  Option, none, some, ◌≡◌, ◌≢◌, ◌↔◌, ◌⊎◌, inl, inr, refl, sym, ap, subst, ◌∙◌, arith, ◌==◌, ltb,
  leb, if◌then◌else◌, Bool-cases, Option-cases, length, take, drop, is_empty, keep, All, Any,
  append-nil, append_assoc, length-append, some_of, some_of-or, some_of-Any, some_of-keep,
  some_of_mono, ==_iff,
}
use mailout_operator.Text.{Bytes, codes, equal_fold, trim_space, cut}
use mailout_operator.Smtp.{SmtpError}
use mailout_operator.Message.{
  HeaderField, ParsedMessage, parse_message, write_field, crlf, add_header, insert_header,
  change_header,
}
use mailout_operator.Spool.{
  Spool, Os, SpoolError, sibling, copy, write, read_at, all_bytes, header_block,
}
use mailout_operator.Envelope.{Envelope}

-- What the client says of a verdict: is it a refusal, is it a discard, and the refusal's code and
-- text.
pub record Action : Type 0 where
  pub stop_processing : Bool
  pub is_discard : Bool
  pub smtp_code : ℕ
  pub smtp_reply : Bytes

pub data ModifyAction : Type 0 where
  act_add_header : Bytes → Bytes → ModifyAction
  act_insert_header act_change_header : ℕ → Bytes → Bytes → ModifyAction
  act_replace_body act_change_from act_add_rcpt act_del_rcpt act_quarantine : Bytes → ModifyAction
  act_unknown : ModifyAction

-- What an operation of the filter stage ends in, other than going on.
pub data Failure : Type 0 where
  refused : SmtpError → Failure
  discarded : Failure
  malfunction : Failure

-- The text behind a status code of three characters; `strings.SplitN(message, " ", 2)`.
unfoldable pub reply_text : Bytes → Bytes
reply_text message = elim (cut b' ' message) [
  | none ↦ message
  | some (first, rest) ↦ if length first == 3 then rest else message
]

unfoldable pub smtp_error_from_action : Action → SmtpError
unfolding reply_text
smtp_error_from_action act =
    let code = if ltb act.smtp_code 400 then 550 else act.smtp_code in
    let trimmed = trim_space act.smtp_reply in
    record {
      code = code;
      enhanced = if ltb code 500 then (4, 7, 1) else (5, 7, 1);
      message = reply_text (if is_empty trimmed then codes "Rejected by filter" else trimmed);
    }

-- An answer of the client: an error, or an action if there is one.
pub data Reply : Type 0 where
  failed : Reply
  answered : Option Action → Reply

-- `check`; `none` means continue.
unfoldable pub check : Reply → Option Failure
unfolding smtp_error_from_action
check failed = some malfunction
check (answered none) = none
check (answered (some act)) =
    if act.stop_processing
    then some (refused (smtp_error_from_action act))
    else if act.is_discard
    then some discarded
    else none

pub data Command : Type 0 where
  connect helo data_start header_end : Command
  mail rcpt : Bytes → Command
  header_field : Bytes → Bytes → Command

pub data FinalReply : Type 0 where
  send_failed : FinalReply
  verdict : List ModifyAction → Option Action → FinalReply

pub record MilterClient : Type 1 where
  pub State : Type 0
  pub open_session : Option State
  pub talk : State → Command → State × Reply
  pub send_body : State → Bytes → FinalReply

abbrev unbracket_right : Bytes → Bytes
unbracket_right [] = []
unbracket_right (c ∷ []) = if c == b'>' then [] else c ∷ []
unbracket_right (c ∷ d ∷ s) = c ∷ unbracket_right (d ∷ s)

abbrev unbracket_left : Bytes → Bytes
unbracket_left [] = []
unbracket_left (c ∷ s) = if c == b'<' then s else c ∷ s

unfoldable pub unbracket : Bytes → Bytes
unbracket addr = unbracket_right (unbracket_left addr)

unfoldable pub remove_recipient : List Bytes → Bytes → List Bytes
remove_recipient list addr = keep (λ r. not (equal_fold r addr)) list

abbrev pub err_quarantined : Bytes → SmtpError
err_quarantined filter_name = record {
  code = 554;
  enhanced = (5, 7, 1);
  message = codes "Message quarantined by " ++ filter_name;
}

abbrev pub err_no_recipients_left : SmtpError
err_no_recipients_left = record {
  code = 554;
  enhanced = (5, 7, 1);
  message = codes "All recipients removed by filters";
}

-- What the loop of `applyModifications` has gathered.
pub record Pending : Type 0 where
  pub message : Envelope
  pub parsed : ParsedMessage
  pub changed : Bool
  pub replacement : Option Spool

abbrev change_parsed : ParsedMessage → Pending → Pending
change_parsed m p = record p { parsed = m; changed = true }

abbrev pub replacement_of : Pending → Spool
replacement_of p = elim p.replacement [ none ↦ sibling p.message.body | some r ↦ r ]

abbrev after_write : Pending → Spool × Option SpoolError → Pending × Option Failure
after_write p (r, none) = (record p { replacement = some r }, none)
after_write p (r, some e) = (record p { replacement = some r }, some malfunction)

-- One modification, and the error that ends the loop. The message is changed in place, so it comes
-- back with an error too.
unfoldable pub apply_one : Os → Bytes → Pending → ModifyAction → Pending × Option Failure
unfolding unbracket remove_recipient
apply_one os filter_name p (act_add_header n v) = (change_parsed (add_header n v p.parsed) p, none)
apply_one os filter_name p (act_insert_header i n v) =
    (change_parsed (insert_header i n v p.parsed) p, none)
apply_one os filter_name p (act_change_header i n v) =
    (change_parsed (change_header i n v p.parsed) p, none)
apply_one os filter_name p (act_replace_body chunk) =
    after_write p (write os (replacement_of p) chunk)
apply_one os filter_name p (act_change_from a) =
    let m = p.message in (record p { message = record m { from = unbracket a } }, none)
apply_one os filter_name p (act_add_rcpt a) =
    let m = p.message in (record p { message = record m { to = m.to ++ unbracket a ∷ [] } }, none)
apply_one os filter_name p (act_del_rcpt a) =
    let m = p.message in
    (record p { message = record m { to = remove_recipient m.to (unbracket a) } }, none)
apply_one os filter_name p (act_quarantine reason) =
    (p, some (refused (err_quarantined filter_name)))
apply_one os filter_name p act_unknown = (p, none)

unfoldable pub if_applied :
    Pending × Option Failure → (Pending → Pending × Option Failure) → Pending × Option Failure
if_applied (p, some e) next = (p, some e)
if_applied (p, none) next = next p

unfoldable pub apply_all : Os → Bytes → Pending → List ModifyAction → Pending × Option Failure
unfolding apply_one if_applied
apply_all os filter_name p [] = (p, none)
apply_all os filter_name p (a ∷ as') =
    if_applied (apply_one os filter_name p a) (λ q. apply_all os filter_name q as')

abbrev pub header_pieces : List HeaderField → List Bytes
header_pieces [] = crlf ∷ []
header_pieces (h ∷ hs) = write_field h ∷ header_pieces hs

-- The source of the new body: the replacement, or the old body behind its header block.
unfoldable pub source_of : Os → Envelope → ℕ → Option Spool → Option Bytes
source_of os msg header_len (some r) = (all_bytes os r).1
source_of os msg header_len none = (read_at os msg.body header_len msg.body.n).1

abbrev pub has_replacement : Option Spool → Bool
has_replacement none = false
has_replacement (some r) = true

abbrev pub require_recipients : Envelope × Option Failure → Envelope × Option Failure
require_recipients (m, some e) = (m, some e)
require_recipients (m, none) =
    if is_empty m.to then (m, some (refused err_no_recipients_left)) else (m, none)

abbrev pub finish_copy : Envelope → Spool × Option SpoolError → Envelope × Option Failure
finish_copy msg (out, none) = (record msg { body = out }, none)
finish_copy msg (out, some e) = (msg, some malfunction)

-- A row of commands to the filter, up to the first answer that is not "continue".
module _ (client : MilterClient) where
  unfoldable pub if_continued :
      client.State × Reply
      → (client.State → client.State × Option Failure)
      → client.State × Option Failure
  unfolding check
  if_continued (st, reply) next = elim (check reply) [ some f ↦ (st, some f) | none ↦ next st ]

  unfoldable pub run_commands : client.State → List Command → client.State × Option Failure
  unfolding if_continued
  run_commands st [] = (st, none)
  run_commands st (c ∷ cs) = if_continued (client.talk st c) (λ st'. run_commands st' cs)

abbrev pub rcpt_commands : List Bytes → List Command
rcpt_commands [] = []
rcpt_commands (r ∷ rs) = rcpt r ∷ rcpt_commands rs

abbrev pub header_commands : List HeaderField → List Command
header_commands [] = []
header_commands (h ∷ hs) = header_field h.name h.value ∷ header_commands hs

-- The fields that the filter is told of, and the length of the block that holds them. Of a block
-- without an end there are none, and all of the message is body.
abbrev pub parsed_block : Bytes × Bool → ParsedMessage × ℕ
parsed_block (block, true) = (parse_message block, length block)
parsed_block (block, false) = (record { headers = []; body = [] }, 0)

-- `io.Copy` moves a body in pieces; which ones is a parameter.
module _ (pieces : Bytes → List Bytes) where
  unfoldable pub copy_source :
      Os → Envelope → Option Bytes → Spool × Option SpoolError → Envelope × Option Failure
  copy_source os msg source (out, some e) = (msg, some malfunction)
  copy_source os msg none (out, none) = (msg, some malfunction)
  copy_source os msg (some source) (out, none) = finish_copy msg (copy os out (pieces source))

  unfoldable pub rewrite_body :
      Os → Os → Envelope → ParsedMessage → ℕ → Option Spool → Envelope × Option Failure
  unfolding source_of copy_source
  rewrite_body rd os msg parsed header_len replacement =
      copy_source os msg (source_of rd msg header_len replacement)
        (copy os (sibling msg.body) (header_pieces parsed.headers))

  -- The end of `applyModifications`: rewrite if there is something to, and require a recipient.
  unfoldable pub apply_pending : Os → Os → ℕ → Pending × Option Failure → Envelope × Option Failure
  unfolding rewrite_body
  apply_pending rd os header_len (p, some e) = (p.message, some e)
  apply_pending rd os header_len (p, none) = require_recipients (
      if p.changed || has_replacement p.replacement
      then rewrite_body rd os p.message p.parsed header_len p.replacement
      else (p.message, none))

  unfoldable pub apply_modifications :
      Os → Os → Bytes → Envelope → ParsedMessage → ℕ → List ModifyAction → Envelope × Option Failure
  unfolding apply_all apply_pending
  apply_modifications rd os filter_name msg parsed header_len acts =
      apply_pending rd os header_len (
        apply_all os filter_name
          (record { message = msg; parsed = parsed; changed = false; replacement = none }) acts)

  module _ (client : MilterClient) (rd os : Os) (filter_name : Bytes) where
    -- The verdict on the whole message, behind the body.
    unfoldable pub conclude : Envelope → ParsedMessage → ℕ → FinalReply → Envelope × Option Failure
    unfolding apply_modifications check
    conclude msg parsed header_len send_failed = (msg, some malfunction)
    conclude msg parsed header_len (verdict acts act) = elim (check (answered act)) [
      | some f ↦ (msg, some f)
      | none ↦ apply_modifications rd os filter_name msg parsed header_len acts
    ]

    unfoldable pub send_content :
        Envelope → ParsedMessage → ℕ → client.State × Option Failure → Envelope × Option Failure
    unfolding conclude
    send_content msg parsed header_len (st, some f) = (msg, some f)
    send_content msg parsed header_len (st, none) =
        elim (read_at rd msg.body header_len msg.body.n).1 [
          | none ↦ (msg, some malfunction)
          | some body ↦ conclude msg parsed header_len (client.send_body st body)
        ]

    unfoldable pub send_headers :
        Envelope → Option (Bytes × Bool) → client.State → Envelope × Option Failure
    unfolding send_content run_commands
    send_headers msg none st = (msg, some malfunction)
    send_headers msg (some block) st =
        let (parsed, header_len) = parsed_block block in
        send_content msg parsed header_len
          (run_commands client st (header_commands parsed.headers ++ header_end ∷ []))

    unfoldable pub behind_data :
        Envelope → client.State × Option Failure → Envelope × Option Failure
    unfolding send_headers
    behind_data msg (st, some f) = (msg, some f)
    behind_data msg (st, none) = send_headers msg (header_block rd msg.body).1 st

    unfoldable pub run_one : Envelope → Envelope × Option Failure
    unfolding behind_data
    run_one msg = elim client.open_session [
      | none ↦ (msg, some malfunction)
      | some st ↦ behind_data msg (
          run_commands client st
            (connect ∷ helo ∷ mail msg.from ∷ (rcpt_commands msg.to ++ data_start ∷ [])))
    ]

-- One filter of the chain: its name, what it does if it is out of order, and what it makes of a
-- message.
pub record Filter : Type 0 where
  pub name : Bytes
  pub fail_open : Bool
  pub apply : Envelope → Envelope × Option Failure

abbrev pub err_filter_unavailable : Bytes → SmtpError
err_filter_unavailable filter_name = record {
  code = 451;
  enhanced = (4, 7, 1);
  message = codes "Filter " ++ (filter_name ++ codes " unavailable, try again later");
}

pub data Outcome : Type 0 where
  passed : Envelope → Outcome
  rejected : SmtpError → Outcome
  dropped : Outcome

-- What the loop does behind one filter; `next` is the rest of the chain.
unfoldable pub after_filter : Filter → (Envelope → Outcome) → Envelope × Option Failure → Outcome
after_filter f next (msg, none) = next msg
after_filter f next (msg, some (refused e)) = rejected e
after_filter f next (msg, some discarded) = dropped
after_filter f next (msg, some malfunction) =
    if f.fail_open then next msg else rejected (err_filter_unavailable f.name)

unfoldable pub run : List Filter → Envelope → Outcome
unfolding after_filter
run [] msg = passed msg
run (f ∷ fs) msg = after_filter f (λ m. run fs m) (f.apply msg)
