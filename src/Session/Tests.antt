-- ===== src/Session/Tests.antt =====
-- Runs of a session, and its theorems at concrete inputs.
use mailout_operator.Base.{
  ◌-◌, ◌≤◌, Bool, true, false, List, [], ◌∷◌, none, some, ◌≡◌, ◌↔◌, refl, is_empty,
}
use mailout_operator.Text.{
  Bytes, codes, same, to_lower, contains, trim_space, after_last, has, cut, add,
}
use mailout_operator.Policy.{allows, bare_address, new_sender_policy}
use mailout_operator.Spool.{
  sound, fresh, copy, write, overflow, write_through, write_after, if_written,
}
use mailout_operator.Config.{Account}
use mailout_operator.Auth.{by_username}
use mailout_operator.RateLimit.{CounterStore}
use mailout_operator.RateLimit
use mailout_operator.Envelope.{Envelope}
use mailout_operator.Milter
use mailout_operator.Relay.{delivered}
use mailout_operator.Session.{
  Incoming, ended, Snapshot, policy_for, Session, mail, start_envelope, data_command, transfer,
  after_quota, receive, buffered, process, after_from_check, after_filters, sign_and_deliver,
  delivery_result, still_authorized, empty_envelope,
}
use mailout_operator.Session.Rules.{Vetted, data_command_relayed}
use mailout_operator.Session.Sending.{mail_accepted}
use mailout_operator.Session.Attempts.{attempts, attempts-wrong}

-- An account that is exempt from the check of the From header.
abbrev shop : Account
shop = record {
  username = codes "shop";
  password_hash = codes "hash";
  disabled = false;
  allowed_senders = codes "*@example.com" ∷ [];
  skip_header_from_check = true;
}

abbrev snap : Snapshot
snap = record {
  accounts = shop ∷ [];
  spool_dir = [];
  spool_threshold = 1000;
  limiter = none;
  filters = [];
  sign = λ msg senders. some msg;
  deliver = λ msg. delivered;
}

abbrev session : Session
session = record {
  snap = snap;
  account = some shop;
  from = codes "a@example.com";
  to = codes "b@example.net" ∷ [];
  auth_failures = 1;
  closed = false;
}

abbrev no_store : CounterStore
no_store = record { State = Unit; incr_by = λ st k by. (st, none) }

abbrev received : Bytes
received = codes "Received: from client\r\n"

abbrev body : List Bytes
body = codes "From: a@example.com\r\n\r\nHi" ∷ []

abbrev incoming : Incoming
incoming = record { chunks = body; ending = ended }

abbrev out : Envelope
out = record {
  from = codes "a@example.com";
  to = codes "b@example.net" ∷ [];
  body = (copy sound (fresh [] 1000) (received ∷ body)).0;
  account = codes "shop";
}

data_command_relayed_example :
    (a : Account) × (b : Account) × (some shop ≡ some a)
    × (is_empty session.to ≡ false)
    × (by_username a.username snap.accounts ≡ some b)
    × (b.disabled ≡ false)
    × ((RateLimit.check no_store none (codes "7") tt a.username 1).1 ≡ none)
    × Vetted sound sound snap
        (policy_for snap a.username)
        (empty_envelope (record session { snap = snap; account = some b }) a)
        received
        incoming
        out
unfolding data_command transfer after_quota receive buffered process after_from_check after_filters
    sign_and_deliver delivery_result still_authorized by_username same policy_for RateLimit.check
    Milter.run copy write overflow write_through write_after if_written
data_command_relayed_example =
    data_command_relayed no_store sound sound (codes "7") tt snap session received incoming out refl

-- The session behind a MAIL that is accepted.
abbrev opened : Session
opened = record session { from = codes "news@example.com"; to = [] }

mail-opened : mail snap session (codes "news@example.com") ≡ (opened, none)
unfolding mail still_authorized start_envelope by_username same policy_for allows to_lower
    bare_address contains trim_space after_last has new_sender_policy cut add
mail-opened = refl

mail_accepted_example : (mail snap session (codes "news@example.com") ≡ (opened, none)) ↔ (
    (a : Account) × (b : Account) × (some shop ≡ some a)
    × (by_username a.username snap.accounts ≡ some b)
    × (b.disabled ≡ false)
    × (allows (policy_for snap b.username).senders (codes "news@example.com") ≡ true)
    × (opened ≡ record session {
      snap = snap;
      account = some b;
      from = codes "news@example.com";
      to = [];
    }))
mail_accepted_example = mail_accepted snap session opened (codes "news@example.com")

abbrev matches : Bytes → Bytes → Bool
matches hash password = same password (codes "right")

abbrev guesses : List (Bool × (Bytes × Bytes))
guesses =
    (true, (codes "shop", codes "a"))
    ∷ (true, (codes "shop", codes "b"))
    ∷ (true, (codes "shop", codes "c"))
    ∷ []

attempts-wrong_example : (attempts matches session guesses).1 ≤ 3 - 1
attempts-wrong_example = attempts-wrong matches session guesses
