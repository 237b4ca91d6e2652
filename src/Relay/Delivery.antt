-- ===== src/Relay/Delivery.antt =====
-- When a message counts as delivered, and what the client is told otherwise.
use mailout_operator.Base.{
  List, [], ◌∷◌, Option, none, some, ◌≡◌, ◌↔◌, inl, inr, refl, sym, ap, subst, ◌∙◌, arith,
  Option-cases,
}
use mailout_operator.Text.{Bytes}
use mailout_operator.Smtp.{SmtpError}
use mailout_operator.Config.{Upstream}
use mailout_operator.Spool.{Os, File, Spool, sound}
use mailout_operator.Spool.Refinement.{contents, contents_of}
use mailout_operator.Envelope.{Envelope}
use mailout_operator.Relay.{
  Stage, Answer, fine, refusal, broken, UpstreamServer, err_upstream_failure,
  err_upstream_unavailable, envelope_stages, body_stages, ask_all, delivered, refused_with, finish,
  Sent, Body, readable, cut_short, no_reader, body_of, hang_up, close_writer, close_data,
  data_write, send_content, send,
}

body_of-contents : (s : Spool) → body_of sound s s.file ≡ readable (contents s)
unfolding body_of
body_of-contents s = by_file s.file refl
  where
    by_file :
        (file : Option File)
        → s.file ≡ file
        → body_of sound s file ≡ readable (contents_of s.buf file)
    by_file none e = refl
    by_file (some f) e = refl

module _ (server : UpstreamServer) where
  -- The upstream accepts each of the steps, in this order.
  pub data Accepts : server.Conn → List Stage → server.Conn → Type 0 where
    no_more : {c : server.Conn} → Accepts c [] c
    step :
        {c e : server.Conn} (d : server.Conn) (s : Stage) (ss : List Stage)
        → server.ask c s ≡ (d, fine)
        → Accepts d ss e
        → Accepts c (s ∷ ss) e

  ask_all-Accepts :
      (ss : List Stage) (c d : server.Conn) → ask_all server c ss ≡ (d, none) → Accepts c ss d
  unfolding ask_all
  ask_all-Accepts [] c d e = subst (Accepts c []) (ground arith) no_more
  ask_all-Accepts (s ∷ ss) c d e = go (server.ask c s) refl (λ k. ask_all-Accepts ss k d)
    where
      go :
          (r : server.Conn × Answer)
          → server.ask c s ≡ r
          → ((k : server.Conn) → ask_all server k ss ≡ (d, none) → Accepts k ss d)
          → Accepts c (s ∷ ss) d
      go (k, fine) q rec = step k s ss q (rec k (ground arith))
      go (k, refusal x) q rec = absurd (ground arith)
      go (k, broken) q rec = absurd (ground arith)

  Accepts-ask_all :
      {c d : server.Conn} {ss : List Stage} → Accepts c ss d → ask_all server c ss ≡ (d, none)
  unfolding ask_all
  Accepts-ask_all no_more = refl
  Accepts-ask_all (step k s ss q a) = ground (arith, Accepts-ask_all a)

  -- Some step, all those before it accepted, is refused with this error, or breaks the connection,
  -- which is a temporary error that names the step.
  pub data Fails : server.Conn → List Stage → SmtpError → Type 0 where
    here_refused :
        {c : server.Conn} (d : server.Conn) (s : Stage) (ss : List Stage) (e : SmtpError)
        → server.ask c s ≡ (d, refusal e)
        → Fails c (s ∷ ss) e
    here_broken :
        {c : server.Conn} (d : server.Conn) (s : Stage) (ss : List Stage)
        → server.ask c s ≡ (d, broken)
        → Fails c (s ∷ ss) (err_upstream_failure s)
    later :
        {c : server.Conn} (d : server.Conn) (s : Stage) (ss : List Stage) (e : SmtpError)
        → server.ask c s ≡ (d, fine)
        → Fails d ss e
        → Fails c (s ∷ ss) e

  ask_all-Fails :
      (ss : List Stage) (c : server.Conn) (x : SmtpError)
      → (ask_all server c ss).1 ≡ some x
      → Fails c ss x
  unfolding ask_all
  ask_all-Fails [] c x e = absurd (ground arith)
  ask_all-Fails (s ∷ ss) c x e = go (server.ask c s) refl (λ k. ask_all-Fails ss k x)
    where
      go :
          (r : server.Conn × Answer)
          → server.ask c s ≡ r
          → ((k : server.Conn) → (ask_all server k ss).1 ≡ some x → Fails k ss x)
          → Fails c (s ∷ ss) x
      go (k, fine) q rec = later k s ss x q (rec k (ground arith))
      go (k, refusal y) q rec = here_refused k s ss x (ground arith)
      go (k, broken) q rec =
          let same_error : err_upstream_failure s ≡ x = ground arith in
          subst (Fails c (s ∷ ss)) same_error (here_broken k s ss q)

  Fails-ask_all :
      {c : server.Conn} {ss : List Stage} {x : SmtpError}
      → Fails c ss x
      → (ask_all server c ss).1 ≡ some x
  unfolding ask_all
  Fails-ask_all (here_refused d s ss e q) = ground arith
  Fails-ask_all (here_broken d s ss q) = ground arith
  Fails-ask_all (later d s ss e q f) = ground (arith, Fails-ask_all f)

  -- What the answers to the steps of the body make of the delivery.
  abbrev outcome_of : Option SmtpError → Sent
  outcome_of none = delivered
  outcome_of (some e) = refused_with e

  close_writer-outcome_of :
      (b : Bytes) (c : server.Conn)
      → (close_writer server (ask_all server c (data_write b ∷ []))).1
        ≡ outcome_of (ask_all server c (body_stages b)).1
  unfolding close_writer ask_all finish
  close_writer-outcome_of b c = written (server.ask c (data_write b)) refl
    where
      closed : (r : server.Conn × Option SmtpError) → (finish server r).1 ≡ outcome_of r.1
      closed (d, none) = refl
      closed (d, some e) = refl

      written :
          (r : server.Conn × Answer)
          → server.ask c (data_write b) ≡ r
          → (close_writer server (ask_all server c (data_write b ∷ []))).1
            ≡ outcome_of (ask_all server c (body_stages b)).1
      written (d, fine) q = rw q (closed (ask_all server d (close_data ∷ [])))
      written (d, refusal e) q = rw q refl
      written (d, broken) q = rw q refl

  outcome_delivered : (o : Option SmtpError) → outcome_of o ≡ delivered → o ≡ none
  outcome_delivered none h = refl
  outcome_delivered (some e) h = absurd (ground arith)

  outcome_refused :
      (o : Option SmtpError) (x : SmtpError) → outcome_of o ≡ refused_with x → o ≡ some x
  outcome_refused none x h = absurd (ground arith)
  outcome_refused (some e) x h = ground arith

  content_delivered :
      (body : Bytes) (r : server.Conn × Option SmtpError)
      → (send_content server (readable body) r).1 ≡ delivered
      → (d : server.Conn) × (e : server.Conn) × (r ≡ (d, none)) × Accepts d (body_stages body) e
  unfolding send_content
  content_delivered body (d, some x) h = absurd (ground arith)
  content_delivered body (d, none) h =
      let all = outcome_delivered _ (sym (close_writer-outcome_of body d) ∙ h) in
      let e = (ask_all server d (body_stages body)).0 in
      (d, e, refl, ask_all-Accepts (body_stages body) d e (ap (λ o. (e, o)) all))

  send-dialled :
      (os : Os) (upstream : Upstream) (msg : Envelope) (c : server.Conn)
      → server.dial ≡ some c
      → send server os upstream msg
        ≡ (send_content server
            (body_of os msg.body msg.body.file)
            (ask_all server c (envelope_stages upstream msg))).1
  unfolding send
  send-dialled os upstream msg c q = ground (arith, q)

  -- Every step before the body is accepted.
  send-accepted :
      (os : Os) (upstream : Upstream) (msg : Envelope) {c d : server.Conn} (b : Body)
      → server.dial ≡ some c
      → Accepts c (envelope_stages upstream msg) d
      → body_of os msg.body msg.body.file ≡ b
      → send server os upstream msg ≡ (send_content server b (d, none)).1
  send-accepted os upstream msg {c} {d} b q a was =
      send-dialled os upstream msg c q
      ∙ ap (λ v. (send_content server v (ask_all server c (envelope_stages upstream msg))).1) was
      ∙ ap (λ r. (send_content server b r).1) (Accepts-ask_all a)

  -- A message is reported as delivered exactly if the upstream was reached, and accepted the
  -- sender, every recipient in order, the start of the data, the whole body and its end.
  pub send_delivered :
      (upstream : Upstream) (msg : Envelope)
      → (send server sound upstream msg ≡ delivered) ↔ (
          (c : server.Conn) × (d : server.Conn) × (e : server.Conn) × (server.dial ≡ some c)
          × Accepts c (envelope_stages upstream msg) d
          × Accepts d (body_stages (contents msg.body)) e)
  unfolding send send_content
  send_delivered upstream msg = (
    λ h. elim (Option-cases server.dial) [
      | inl e ↦ ground arith
      | inr (c, e) ↦
          let all : (send_content server (readable (contents msg.body))
                (ask_all server c (envelope_stages upstream msg))).1
              ≡ delivered =
            ground (arith, body_of-contents msg.body) in
          let (d, k, q, b) = content_delivered (contents msg.body) _ all in
          (c, d, k, e, ask_all-Accepts (envelope_stages upstream msg) c d q, b)
    ],
    λ (c, d, e, q, a, b).
        send-accepted sound upstream msg (readable (contents msg.body)) q a
          (body_of-contents msg.body)
        ∙ close_writer-outcome_of (contents msg.body) d
        ∙ ap (λ r. outcome_of r.1) (Accepts-ask_all b),
  )

  -- The upstream cannot be reached, or a step of the envelope fails, or, all those accepted, a step of
  -- the body does, or the body cannot be read to its end.
  pub data Refuses (os : Os) (upstream : Upstream) (msg : Envelope) : SmtpError → Type 0 where
    unreachable : server.dial ≡ none → Refuses os upstream msg err_upstream_unavailable
    before_body :
        (c : server.Conn) (x : SmtpError)
        → server.dial ≡ some c
        → Fails c (envelope_stages upstream msg) x
        → Refuses os upstream msg x
    in_body :
        (c d : server.Conn) (b : Bytes) (x : SmtpError)
        → server.dial ≡ some c
        → Accepts c (envelope_stages upstream msg) d
        → body_of os msg.body msg.body.file ≡ readable b
        → Fails d (body_stages b) x
        → Refuses os upstream msg x
    in_reading :
        (c d : server.Conn)
        → server.dial ≡ some c
        → Accepts c (envelope_stages upstream msg) d
        → body_of os msg.body msg.body.file ≡ cut_short
        → Refuses os upstream msg (err_upstream_failure (data_write []))

  content_refused :
      (os : Os) (upstream : Upstream) (msg : Envelope) (c : server.Conn) (x : SmtpError)
      → server.dial ≡ some c
      → (send_content server
          (body_of os msg.body msg.body.file)
          (ask_all server c (envelope_stages upstream msg))).1
        ≡ refused_with x
      → Refuses os upstream msg x
  unfolding send_content close_writer hang_up
  content_refused os upstream msg c x dialled h =
      go (body_of os msg.body msg.body.file) (ask_all server c (envelope_stages upstream msg)) refl
        refl h
    where
      go :
          (body : Body) (r : server.Conn × Option SmtpError)
          → body_of os msg.body msg.body.file ≡ body
          → ask_all server c (envelope_stages upstream msg) ≡ r
          → (send_content server body r).1 ≡ refused_with x
          → Refuses os upstream msg x
      go body (d, some y) was q f =
          before_body c x dialled (ask_all-Fails (envelope_stages upstream msg) c x (ground arith))
      go no_reader (d, none) was q f = absurd (ground arith)
      go cut_short (d, none) was q f =
          let same_error : err_upstream_failure (data_write []) ≡ x = ground arith in
          subst (Refuses os upstream msg) same_error
            (in_reading c d dialled (ask_all-Accepts (envelope_stages upstream msg) c d q) was)
      go (readable b) (d, none) was q f =
          in_body c d b x dialled (ask_all-Accepts (envelope_stages upstream msg) c d q) was (
            ask_all-Fails (body_stages b) d x
              (outcome_refused _ x (sym (close_writer-outcome_of b d) ∙ f)))

  Refuses-send :
      {os : Os} {upstream : Upstream} {msg : Envelope} {x : SmtpError}
      → Refuses os upstream msg x
      → send server os upstream msg ≡ refused_with x
  unfolding send send_content close_writer hang_up
  Refuses-send (unreachable q) = ground (arith, q)
  Refuses-send {os} {upstream} {msg} (before_body c x q f) =
      send-dialled os upstream msg c q
      ∙ go (body_of os msg.body msg.body.file) (ask_all server c (envelope_stages upstream msg))
          (Fails-ask_all f)
    where
      go :
          (body : Body) (r : server.Conn × Option SmtpError)
          → r.1 ≡ some x
          → (send_content server body r).1 ≡ refused_with x
      go body (d, none) e = absurd (ground arith)
      go body (d, some y) e = ground arith
  Refuses-send {os} {upstream} {msg} (in_body c d b x q a was f) =
      send-accepted os upstream msg (readable b) q a was
      ∙ close_writer-outcome_of b d
      ∙ ap outcome_of (Fails-ask_all f)
  Refuses-send {os} {upstream} {msg} (in_reading c d q a was) =
      send-accepted os upstream msg cut_short q a was

  -- A message is refused with an error exactly in these cases: the upstream cannot be reached, and the
  -- error is 421; or the first step of this delivery that is not accepted is refused with that very
  -- error, or breaks the connection, and the error is the 451 that names the step; or, every step
  -- before the body accepted, the body is not read to its end, and the error is the 451 that names the
  -- writing of the data.
  pub send_refused :
      (os : Os) (upstream : Upstream) (msg : Envelope) (x : SmtpError)
      → (send server os upstream msg ≡ refused_with x) ↔ Refuses os upstream msg x
  unfolding send
  send_refused os upstream msg x = (
    λ h. elim (Option-cases server.dial) [
      | inl e ↦
          let same_error : err_upstream_unavailable ≡ x = ground arith in
          subst (Refuses os upstream msg) same_error (unreachable e)
      | inr (c, e) ↦ content_refused os upstream msg c x e (ground arith)
    ],
    Refuses-send,
  )
