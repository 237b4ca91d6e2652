-- ===== src/Relay/Tests.antt =====
-- Runs of the upstream relay, and its theorems at concrete inputs.
use mailout_operator.Base.{ℕ, suc, false, [], ◌∷◌, some, ◌≡◌, ◌↔◌, refl}
use mailout_operator.Text.{codes}
use mailout_operator.Smtp.{SmtpError}
use mailout_operator.Config.{Upstream, starttls}
use mailout_operator.Spool.{
  Os, sound, fresh, copy, write, overflow, write_through, write_after, if_written,
}
use mailout_operator.Spool.Refinement.{contents}
use mailout_operator.Envelope.{Envelope}
use mailout_operator.Relay.{
  Stage, Answer, fine, refusal, rcpt_to, UpstreamServer, delivered, envelope_stages, body_stages,
  send, ask_all, if_fine, wrap_upstream, send_content, refused_with, unreadable, hang_up, body_of,
}
use mailout_operator.Relay.Delivery.{Accepts, Refuses, send_delivered, send_refused}

abbrev letter : Envelope
letter = record {
  from = codes "a@example.com";
  to = codes "b@example.net" ∷ [];
  body = (copy sound (fresh [] 100) (codes "From: a@example.com\r\n\r\nHi" ∷ [])).0;
  account = codes "shop";
}

-- A letter whose body is in a file.
abbrev on_disk : Envelope
on_disk = record letter {
  body = record {
    dir = [];
    threshold = 0;
    buf = [];
    file = some (record { content = codes "Hi"; pos = 2 });
    n = 2;
  };
}

abbrev upstream : Upstream
upstream = record {
  host = codes "smtp.example.net";
  port = 587;
  tls = starttls;
  insecure_skip_verify = false;
  root_ca_pem = [];
  username = codes "relay";
  password = codes "secret";
  timeout = 60;
}

-- An upstream that counts the steps and accepts them all.
abbrev willing : UpstreamServer
willing = record { Conn = ℕ; dial = some 0; ask = λ c s. (suc c, fine) }

abbrev no_such_user : SmtpError
no_such_user = record { code = 550; enhanced = (5, 1, 1); message = codes "No such user" }

abbrev answer_to : Stage → Answer
answer_to (rcpt_to a) = refusal no_such_user
answer_to s = fine

-- One that refuses every recipient.
abbrev strict : UpstreamServer
strict = record { Conn = ℕ; dial = some 0; ask = λ c s. (suc c, answer_to s) }

send_delivered_example : (send willing sound upstream letter ≡ delivered) ↔ (
    (c : ℕ) × (d : ℕ) × (e : ℕ) × (some 0 ≡ some c)
    × Accepts willing c (envelope_stages upstream letter) d
    × Accepts willing d (body_stages (contents letter.body)) e)
send_delivered_example = send_delivered willing upstream letter

send_refused_example :
    (send strict sound upstream letter ≡ refused_with no_such_user)
    ↔ Refuses strict sound upstream letter no_such_user
send_refused_example = send_refused strict sound upstream letter no_such_user

-- The recipient is refused with the upstream's own error.
letter_refused : send strict sound upstream letter ≡ refused_with no_such_user
unfolding send ask_all if_fine wrap_upstream send_content body_of copy write overflow write_through
    write_after if_written
letter_refused = refl

-- A spool that cannot be rewound, once the upstream has started to take the data.
abbrev stuck : Os
stuck = record sound { seeks = false }

letter_unreadable : send willing stuck upstream on_disk ≡ unreadable
unfolding send ask_all if_fine wrap_upstream send_content hang_up body_of
letter_unreadable = refl
