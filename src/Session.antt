-- ===== src/Session.antt =====
-- internal/gateway/server.go: one client connection. The configuration in service is an argument of
-- each command, since a reload may replace it between two of them.
pub mod Received
mod ReceivedTests
pub mod Rules
pub mod Sending
pub mod Attempts
pub mod Assembly
mod AssemblyTests
mod Tests
use mailout_operator.Base.{
  ℕ, zero, suc, ◌+◌, ◌-◌, ◌*◌, ◌≤◌, ◌<◌, Bool, true, false, not, ◌&&◌, ◌||◌, List, [], ◌∷◌, ◌++◌,
  Option, none, some, ◌≡◌, ◌≢◌, ◌↔◌, ◌⊎◌, inl, inr, refl, sym, ap, subst, ◌∙◌, arith, ◌==◌, ltb,
  leb, if◌then◌else◌, Bool-cases, Option-cases, length, take, drop, is_empty, keep, All, Any,
  append-nil, append_assoc, length-append, some_of, some_of-or, some_of-Any, some_of-keep,
  some_of_mono, ==_iff,
}
use mailout_operator.Text.{Bytes, codes}
use mailout_operator.Smtp.{SmtpError}
use mailout_operator.Policy.{SenderPolicy, new_sender_policy, allows}
use mailout_operator.Spool.{Spool, Os, SpoolError, fresh, copy}
use mailout_operator.Config.{Account, RateLimit}
use mailout_operator.Auth.{by_username, authenticate, AuthError}
use mailout_operator.RateLimit.{CounterStore, Limiter}
use mailout_operator.RateLimit
use mailout_operator.HeaderFrom.{check_header_from, err_sender_not_allowed, err_spool_failed}
use mailout_operator.Envelope.{Envelope}
use mailout_operator.Milter.{Filter, Outcome, passed, rejected, dropped}
use mailout_operator.Milter
use mailout_operator.Relay.{Sent, delivered, refused_with, unreadable}

-- What a session uses of a configuration snapshot. The filters are those of the module Milter; the
-- signer and the delivery are functions, as the modules Dkim and Relay make them.
pub record Snapshot : Type 0 where
  pub accounts : List Account
  pub spool_dir : Bytes
  pub spool_threshold : ℕ
  pub limiter : Option Limiter
  pub filters : List Filter
  pub sign : Envelope → SenderPolicy → Option Envelope
  pub deliver : Envelope → Sent

pub record AccountPolicy : Type 0 where
  pub senders : SenderPolicy
  pub skip_header_from_check : Bool

-- `policyFor`: the fallback allows no sender.
unfoldable pub policy_for : Snapshot → Bytes → AccountPolicy
policy_for snap username = elim (by_username username snap.accounts) [
  | some a ↦ record {
    senders = new_sender_policy a.allowed_senders;
    skip_header_from_check = a.skip_header_from_check;
  }
  | none ↦ record { senders = new_sender_policy []; skip_header_from_check = false }
]

pub record Session : Type 0 where
  pub snap : Snapshot
  pub account : Option Account
  pub from : Bytes
  pub to : List Bytes
  pub auth_failures : ℕ
  pub closed : Bool

abbrev pub max_auth_failures : ℕ
max_auth_failures = 3

pub data Refusal : Type 0 where
  auth_required auth_refused : Refusal
  smtp : SmtpError → Refusal

abbrev pub err_too_many_auth_failures : SmtpError
err_too_many_auth_failures = record {
  code = 421;
  enhanced = (4, 7, 0);
  message = codes "Too many authentication failures";
}

abbrev pub err_auth_busy : SmtpError
err_auth_busy = record {
  code = 451;
  enhanced = (4, 3, 2);
  message = codes "Too busy to verify credentials, try again later";
}

abbrev pub err_credentials_revoked : SmtpError
err_credentials_revoked = record {
  code = 421;
  enhanced = (4, 7, 0);
  message = codes "Credentials are no longer valid";
}

abbrev pub err_no_recipients : SmtpError
err_no_recipients = record {
  code = 554;
  enhanced = (5, 5, 1);
  message = codes "No valid recipients";
}

abbrev pub err_unable_to_sign : SmtpError
err_unable_to_sign = record {
  code = 451;
  enhanced = (4, 3, 0);
  message = codes "Unable to sign the message, try again later";
}

unfoldable pub verified : Session → Account ⊎ AuthError → Session × Option Refusal
verified s (inr e) = (record s { auth_failures = suc s.auth_failures }, some auth_refused)
verified s (inl a) = (record s { account = some a }, none)

-- `slot` says whether the semaphore was acquired in time. The number is how many passwords the
-- call has verified.
unfoldable pub session_authenticate :
    (Bytes → Bytes → Bool) → Bool → Session → Bytes → Bytes → (Session × Option Refusal) × ℕ
unfolding verified
session_authenticate matches slot s username password =
    if leb max_auth_failures s.auth_failures
    then ((record s { closed = true }, some (smtp err_too_many_auth_failures)), 0)
    else if not slot
    then ((s, some (smtp err_auth_busy)), 0)
    else (verified s (authenticate matches s.snap.accounts username password), 1)

-- `stillAuthorized`, against the configuration in service.
unfoldable pub still_authorized : Snapshot → Session → Account → Session × Option Refusal
still_authorized current s a = elim (by_username a.username current.accounts) [
  | none ↦ (record s { closed = true }, some (smtp err_credentials_revoked))
  | some b ↦
      if b.disabled
      then (record s { closed = true }, some (smtp err_credentials_revoked))
      else (record s { snap = current; account = some b }, none)
]

unfoldable pub start_envelope : Session → Bytes → Session × Option Refusal
unfolding policy_for
start_envelope s from = elim s.account [
  | none ↦ (s, some auth_required)
  | some a ↦
      if not (allows (policy_for s.snap a.username).senders from)
      then (s, some (smtp (err_sender_not_allowed from)))
      else (record s { from = from; to = [] }, none)
]

abbrev pub if_accepted :
    Session × Option Refusal → (Session → Session × Option Refusal) → Session × Option Refusal
if_accepted (s, some e) next = (s, some e)
if_accepted (s, none) next = next s

unfoldable pub mail : Snapshot → Session → Bytes → Session × Option Refusal
unfolding still_authorized start_envelope
mail current s from = elim s.account [
  | none ↦ (s, some auth_required)
  | some a ↦ if_accepted (still_authorized current s a) (λ t. start_envelope t from)
]

unfoldable pub rcpt : Session → Bytes → Session × Option Refusal
rcpt s to = elim s.account [
  | none ↦ (s, some auth_required)
  | some a ↦ (record s { to = s.to ++ to ∷ [] }, none)
]

abbrev pub reset : Session → Session
reset s = record s { from = []; to = [] }

-- What DATA ends in: handed to the upstream, dropped on a filter's word, refused, or an error of the
-- relay's own.
pub data DataResult : Type 0 where
  relayed : Envelope → DataResult
  discarded : DataResult
  refused : Refusal → DataResult
  failed : DataResult

unfoldable pub delivery_result : Envelope → Sent → DataResult
delivery_result msg delivered = relayed msg
delivery_result msg (refused_with e) = refused (smtp e)
delivery_result msg unreadable = failed

unfoldable pub sign_and_deliver : Snapshot → SenderPolicy → Envelope → DataResult
unfolding delivery_result
sign_and_deliver snap senders msg = elim (snap.sign msg senders) [
  | none ↦ refused (smtp err_unable_to_sign)
  | some signed ↦ delivery_result signed (snap.deliver signed)
]

unfoldable pub after_filters : Snapshot → SenderPolicy → Outcome → DataResult
unfolding sign_and_deliver
after_filters snap senders (passed msg) = sign_and_deliver snap senders msg
after_filters snap senders (rejected e) = refused (smtp e)
after_filters snap senders dropped = discarded

unfoldable pub after_from_check :
    Snapshot → SenderPolicy → Envelope → Spool × Option SmtpError → DataResult
unfolding after_filters Milter.run
after_from_check snap senders msg (body, some e) = refused (smtp e)
after_from_check snap senders msg (body, none) =
    after_filters snap senders (Milter.run snap.filters (record msg { body = body }))

-- The stages behind the quota, on a body that has been buffered.
unfoldable pub process : Os → Snapshot → AccountPolicy → Envelope → DataResult
unfolding after_from_check check_header_from
process rd snap policy msg = after_from_check snap policy.senders msg (
    if policy.skip_header_from_check
    then (msg.body, none)
    else check_header_from rd msg.body policy.senders)

-- How the reading of the client's data ends: well, or with an error, which may be an SMTP status.
pub data Ending : Type 0 where
  ended : Ending
  broke_off : Option SmtpError → Ending

-- The client's data: the chunks that are read, and how that ends.
pub record Incoming : Type 0 where
  pub chunks : List Bytes
  pub ending : Ending

-- The copy of the data, behind its writes.
unfoldable pub buffered :
    Os → Snapshot → AccountPolicy → Envelope → Ending → Spool × Option SpoolError → DataResult
unfolding process
buffered rd snap policy msg ending (body, some e) = failed
buffered rd snap policy msg (broke_off (some e)) (body, none) = refused (smtp e)
buffered rd snap policy msg (broke_off none) (body, none) = failed
buffered rd snap policy msg ended (body, none) = process rd snap policy (record msg { body = body })

-- The Received header is written first, then the body in the chunks that come in.
unfoldable pub receive :
    Os
    → Os
    → Snapshot
    → AccountPolicy
    → Envelope
    → Incoming
    → Spool × Option SpoolError
    → DataResult
unfolding buffered
receive rd os snap policy msg incoming (body, some e) = refused (smtp err_spool_failed)
receive rd os snap policy msg incoming (body, none) =
    buffered rd snap policy msg incoming.ending (copy os body incoming.chunks)

abbrev pub empty_envelope : Session → Account → Envelope
empty_envelope s a = record {
  from = s.from;
  to = s.to;
  body = fresh s.snap.spool_dir s.snap.spool_threshold;
  account = a.username;
}

module _ (store : CounterStore) where
  unfoldable pub after_quota :
      Os
      → Os
      → Session
      → Account
      → Bytes
      → Incoming
      → store.State × Option SmtpError
      → store.State × DataResult
  unfolding receive policy_for
  after_quota rd os s a received incoming (st, some e) = (st, refused (smtp e))
  after_quota rd os s a received incoming (st, none) = (
    st,
    receive rd os s.snap (policy_for s.snap a.username) (empty_envelope s a) incoming
        (copy os (empty_envelope s a).body (received ∷ [])),
  )

  unfoldable pub transfer :
      Os
      → Os
      → Bytes
      → store.State
      → Bytes
      → Incoming
      → Account
      → Session × Option Refusal
      → (Session × store.State) × DataResult
  unfolding after_quota RateLimit.check
  transfer rd os window st received incoming a (s, some e) = ((s, st), refused e)
  transfer rd os window st received incoming a (s, none) =
      let (st', r) =
        after_quota rd os s a received incoming
          (RateLimit.check store s.snap.limiter window st a.username (length s.to)) in
      ((s, st'), r)

  -- `Data`: the account is checked against the configuration in service, the quota is counted
  -- before anything is read, and the message goes through its stages.
  unfoldable pub data_command :
      Os
      → Os
      → Bytes
      → store.State
      → Snapshot
      → Session
      → Bytes
      → Incoming
      → (Session × store.State) × DataResult
  unfolding transfer still_authorized
  data_command rd os window st current s received incoming = elim s.account [
    | none ↦ ((s, st), refused auth_required)
    | some a ↦
        if is_empty s.to
        then ((s, st), refused (smtp err_no_recipients))
        else transfer rd os window st received incoming a (still_authorized current s a)
  ]
