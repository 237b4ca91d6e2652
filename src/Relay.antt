-- ===== src/Relay.antt =====
-- internal/gateway/relay.go: delivery to the upstream server. The SMTP client is a parameter: what
-- the upstream answers to each step of the transaction.
pub mod Delivery
mod Tests
use mailout_operator.Base.{
  ℕ, zero, suc, ◌+◌, ◌-◌, ◌*◌, ◌≤◌, ◌<◌, Bool, true, false, not, ◌&&◌, ◌||◌, List, [], ◌∷◌, ◌++◌,
  Option, none, some, ◌≡◌, ◌≢◌, ◌↔◌, ◌⊎◌, inl, inr, refl, sym, ap, subst, ◌∙◌, arith, ◌==◌, ltb,
  leb, if◌then◌else◌, Bool-cases, Option-cases, length, take, drop, is_empty, keep, All, Any,
  append-nil, append_assoc, length-append, some_of, some_of-or, some_of-Any, some_of-keep,
  some_of_mono, ==_iff,
}
use mailout_operator.Text.{Bytes, codes}
use mailout_operator.Smtp.{SmtpError}
use mailout_operator.Config.{Upstream, TlsMode, starttls}
use mailout_operator.Spool.{Os, File, Spool}
use mailout_operator.Envelope.{Envelope}

pub data Stage : Type 0 where
  ehlo starting_tls : Stage
  auth : Bytes → Bytes → Stage
  mail_from rcpt_to : Bytes → Stage
  start_data close_data : Stage
  data_write : Bytes → Stage

-- The upstream accepts, refuses with a status of its own, or the connection fails.
pub data Answer : Type 0 where
  fine : Answer
  refusal : SmtpError → Answer
  broken : Answer

pub record UpstreamServer : Type 1 where
  pub Conn : Type 0
  pub dial : Option Conn
  pub ask : Conn → Stage → Conn × Answer

abbrev pub stage_name : Stage → Bytes
stage_name ehlo = codes "EHLO"
stage_name starting_tls = codes "STARTTLS"
stage_name (auth u p) = codes "AUTH"
stage_name (mail_from a) = codes "MAIL FROM"
stage_name (rcpt_to a) = codes "RCPT TO"
stage_name start_data = codes "DATA"
stage_name (data_write b) = codes "DATA write"
stage_name close_data = codes "DATA close"

abbrev pub err_upstream_unavailable : SmtpError
err_upstream_unavailable = record {
  code = 421;
  enhanced = (4, 4, 1);
  message = codes "Upstream server unavailable";
}

abbrev pub err_upstream_failure : Stage → SmtpError
err_upstream_failure stage = record {
  code = 451;
  enhanced = (4, 4, 2);
  message = codes "Upstream failure during " ++ stage_name stage;
}

-- `wrapUpstream`, on an answer; `none` goes on.
unfoldable pub wrap_upstream : Stage → Answer → Option SmtpError
wrap_upstream stage fine = none
wrap_upstream stage (refusal e) = some e
wrap_upstream stage broken = some (err_upstream_failure stage)

abbrev pub rcpt_stages : List Bytes → List Stage
rcpt_stages [] = []
rcpt_stages (r ∷ rs) = rcpt_to r ∷ rcpt_stages rs

abbrev pub tls_stages : TlsMode → List Stage
tls_stages starttls = starting_tls ∷ []
tls_stages _ = []

abbrev pub auth_stages : Upstream → List Stage
auth_stages u = if is_empty u.username then [] else auth u.username u.password ∷ []

-- The steps before the body, and those from the body on.
abbrev pub envelope_stages : Upstream → Envelope → List Stage
envelope_stages u msg =
    tls_stages u.tls
    ++ (ehlo ∷ (auth_stages u ++ (mail_from msg.from ∷ (rcpt_stages msg.to ++ start_data ∷ []))))

abbrev pub body_stages : Bytes → List Stage
body_stages body = data_write body ∷ close_data ∷ []

-- A result of `send`: delivered, an SMTP error for the client, or an error of the relay's own.
pub data Sent : Type 0 where
  delivered : Sent
  refused_with : SmtpError → Sent
  unreadable : Sent

-- What the reader of the body gives to the copy: all of it, a failure of the first read from the file,
-- or no reader at all.
pub data Body : Type 0 where
  readable : Bytes → Body
  cut_short no_reader : Body

unfoldable pub body_of : Os → Spool → Option File → Body
body_of os s none = readable s.buf
body_of os s (some f) =
    if not os.seeks then no_reader else if os.reads then readable f.content else cut_short

module _ (server : UpstreamServer) where
  unfoldable pub if_fine :
      Stage
      → server.Conn × Answer
      → (server.Conn → server.Conn × Option SmtpError)
      → server.Conn × Option SmtpError
  unfolding wrap_upstream
  if_fine stage (conn, answer) next = elim (wrap_upstream stage answer) [
    | some e ↦ (conn, some e)
    | none ↦ next conn
  ]

  unfoldable pub ask_all : server.Conn → List Stage → server.Conn × Option SmtpError
  unfolding if_fine
  ask_all conn [] = (conn, none)
  ask_all conn (s ∷ ss) = if_fine s (server.ask conn s) (λ c. ask_all c ss)

  -- A failed QUIT is no failure: the message was accepted.
  unfoldable pub finish : server.Conn × Option SmtpError → server.Conn × Sent
  finish (conn, some e) = (conn, refused_with e)
  finish (conn, none) = (conn, delivered)

  -- `w.Close()` on the way out of a failure: what it answers is not looked at.
  unfoldable pub hang_up : server.Conn → Sent → server.Conn × Sent
  hang_up conn outcome = ((server.ask conn close_data).0, outcome)

  -- Behind the copy of the body: the writer is closed, whatever came of the copy.
  unfoldable pub close_writer : server.Conn × Option SmtpError → server.Conn × Sent
  unfolding finish ask_all hang_up
  close_writer (conn, some e) = hang_up conn (refused_with e)
  close_writer (conn, none) = finish (ask_all conn (close_data ∷ []))

  unfoldable pub send_content : Body → server.Conn × Option SmtpError → server.Conn × Sent
  unfolding close_writer
  send_content body (conn, some e) = (conn, refused_with e)
  send_content no_reader (conn, none) = hang_up conn unreadable
  send_content cut_short (conn, none) =
      close_writer (conn, some (err_upstream_failure (data_write [])))
  send_content (readable body) (conn, none) = close_writer (ask_all conn (data_write body ∷ []))

  unfoldable pub send : Os → Upstream → Envelope → Sent
  unfolding send_content body_of
  send os upstream msg = elim server.dial [
    | none ↦ refused_with err_upstream_unavailable
    | some conn ↦
        (send_content (body_of os msg.body msg.body.file)
          (ask_all conn (envelope_stages upstream msg))).1
  ]
