-- ===== src/Session/Rules.antt =====
-- What a message that is handed to the upstream has gone through.
use mailout_operator.Base.{
  true, false, [], ◌∷◌, Option, none, some, ◌≡◌, ◌⊎◌, inl, inr, refl, subst, arith, Bool-cases,
  Option-cases, length, is_empty,
}
use mailout_operator.Text.{Bytes}
use mailout_operator.Smtp.{SmtpError}
use mailout_operator.Policy.{SenderPolicy}
use mailout_operator.Spool.{Spool, Os, SpoolError, copy}
use mailout_operator.Config.{Account}
use mailout_operator.Auth.{by_username}
use mailout_operator.RateLimit.{CounterStore}
use mailout_operator.RateLimit
use mailout_operator.HeaderFrom.{check_header_from}
use mailout_operator.Envelope.{Envelope}
use mailout_operator.Milter.{Outcome, passed, rejected, dropped}
use mailout_operator.Milter
use mailout_operator.Relay.{Sent, delivered, refused_with, unreadable}
use mailout_operator.Session.{
  Snapshot, AccountPolicy, policy_for, Session, Refusal, still_authorized, relayed, delivery_result,
  sign_and_deliver, after_filters, after_from_check, process, buffered, Incoming, Ending, ended,
  broke_off, receive, empty_envelope, after_quota, transfer, data_command,
}

-- The filters let the message pass, the signing went well, and the upstream took what it left.
abbrev pub Released : Snapshot → SenderPolicy → Envelope → Envelope → Type 0
Released snap senders m out =
    (p : Envelope) × (Milter.run snap.filters m ≡ passed p)
    × (snap.sign p senders ≡ some out)
    × (snap.deliver out ≡ delivered)

-- The visible sender is one the account may use, unless the account is exempt from the check.
abbrev pub Checked : Os → AccountPolicy → Spool → Spool → Type 0
Checked rd policy body checked =
    ((policy.skip_header_from_check ≡ true) × (checked ≡ body))
    ⊎ (check_header_from rd body policy.senders ≡ (checked, none))

-- The received bytes were read to their end and all buffered, and went through the check of the sender and the filters.
abbrev pub Vetted :
    Os → Os → Snapshot → AccountPolicy → Envelope → Bytes → Incoming → Envelope → Type 0
Vetted rd os snap policy msg received incoming out =
    (start : Spool) × (body : Spool) × (checked : Spool) × (copy os msg.body (received ∷ [])
      ≡ (start, none))
    × (copy os start incoming.chunks ≡ (body, none))
    × (incoming.ending ≡ ended)
    × Checked rd policy body checked
    × Released snap policy.senders (record msg { body = checked }) out

delivery_result-relayed :
    (m out : Envelope) (r : Sent) → delivery_result m r ≡ relayed out → (r ≡ delivered) × (m ≡ out)
unfolding delivery_result
delivery_result-relayed m out delivered h = (refl, ground arith)
delivery_result-relayed m out (refused_with e) h = absurd (ground arith)
delivery_result-relayed m out unreadable h = absurd (ground arith)

sign_and_deliver-relayed :
    (snap : Snapshot) (senders : SenderPolicy) (m out : Envelope)
    → sign_and_deliver snap senders m ≡ relayed out
    → (snap.sign m senders ≡ some out) × (snap.deliver out ≡ delivered)
unfolding sign_and_deliver
sign_and_deliver-relayed snap senders m out h = elim (Option-cases (snap.sign m senders)) [
  | inl n ↦ absurd (ground arith)
  | inr (k, n) ↦
      let (d, e) = delivery_result-relayed k out (snap.deliver k) (ground arith) in
      (ground arith, subst (λ z. snap.deliver z ≡ delivered) e d)
]

after_filters-relayed :
    (snap : Snapshot) (senders : SenderPolicy) (o : Outcome) (out : Envelope)
    → after_filters snap senders o ≡ relayed out
    → (p : Envelope) × (o ≡ passed p)
      × (snap.sign p senders ≡ some out)
      × (snap.deliver out ≡ delivered)
unfolding after_filters
after_filters-relayed snap senders (passed m) out h =
    let (signed, done) = sign_and_deliver-relayed snap senders m out h in (m, refl, signed, done)
after_filters-relayed snap senders (rejected e) out h = absurd (ground arith)
after_filters-relayed snap senders dropped out h = absurd (ground arith)

after_from_check-relayed :
    (snap : Snapshot) (senders : SenderPolicy) (msg : Envelope) (r : Spool × Option SmtpError)
    (out : Envelope)
    → after_from_check snap senders msg r ≡ relayed out
    → (r ≡ (r.0, none)) × Released snap senders (record msg { body = r.0 }) out
unfolding after_from_check
after_from_check-relayed snap senders msg (body, some e) out h = absurd (ground arith)
after_from_check-relayed snap senders msg (body, none) out h =
    (refl, after_filters-relayed snap senders _ out h)

process-relayed :
    (rd : Os) (snap : Snapshot) (policy : AccountPolicy) (msg out : Envelope)
    → process rd snap policy msg ≡ relayed out
    → (checked : Spool) × Checked rd policy msg.body checked
      × Released snap policy.senders (record msg { body = checked }) out
unfolding process
process-relayed rd snap policy msg out h = elim (Bool-cases policy.skip_header_from_check) [
  | inl y ↦
      let (e, done) =
        after_from_check-relayed snap policy.senders msg (msg.body, none) out (rw y at h) in
      (msg.body, inl (y, refl), done)
  | inr n ↦
      let (e, done) =
        after_from_check-relayed snap policy.senders msg
          (check_header_from rd msg.body policy.senders) out (rw n at h) in
      ((check_header_from rd msg.body policy.senders).0, inr e, done)
]

buffered-relayed :
    (rd : Os) (snap : Snapshot) (policy : AccountPolicy) (msg out : Envelope) (ending : Ending)
    (r : Spool × Option SpoolError)
    → buffered rd snap policy msg ending r ≡ relayed out
    → (r ≡ (r.0, none))
      × (ending ≡ ended)
      × ((checked : Spool) × Checked rd policy r.0 checked
          × Released snap policy.senders (record msg { body = checked }) out)
unfolding buffered
buffered-relayed rd snap policy msg out ended (body, some e) h = absurd (ground arith)
buffered-relayed rd snap policy msg out (broke_off x) (body, some e) h = absurd (ground arith)
buffered-relayed rd snap policy msg out (broke_off (some x)) (body, none) h = absurd (ground arith)
buffered-relayed rd snap policy msg out (broke_off none) (body, none) h = absurd (ground arith)
buffered-relayed rd snap policy msg out ended (body, none) h =
    (refl, refl, process-relayed rd snap policy (record msg { body = body }) out h)

receive-relayed :
    (rd os : Os) (snap : Snapshot) (policy : AccountPolicy) (msg out : Envelope) (received : Bytes)
    (incoming : Incoming)
    → receive rd os snap policy msg incoming (copy os msg.body (received ∷ [])) ≡ relayed out
    → Vetted rd os snap policy msg received incoming out
unfolding receive
receive-relayed rd os snap policy msg out received incoming h =
    go (copy os msg.body (received ∷ [])) refl h
  where
    go :
        (r : Spool × Option SpoolError)
        → copy os msg.body (received ∷ []) ≡ r
        → receive rd os snap policy msg incoming r ≡ relayed out
        → Vetted rd os snap policy msg received incoming out
    go (start, some e) q k = absurd (ground arith)
    go (start, none) q k =
        let (full, whole, (checked, c, done)) =
          buffered-relayed rd snap policy msg out incoming.ending (copy os start incoming.chunks)
            k in
        (start, (copy os start incoming.chunks).0, checked, q, full, whole, c, done)

pub still_authorized-accepts :
    (current : Snapshot) (s t : Session) (a : Account)
    → still_authorized current s a ≡ (t, none)
    → (b : Account) × (by_username a.username current.accounts ≡ some b)
      × (b.disabled ≡ false)
      × (t ≡ record s { snap = current; account = some b })
unfolding still_authorized
still_authorized-accepts current s t a h =
    elim (Option-cases (by_username a.username current.accounts)) [
      | inl n ↦ absurd (ground arith)
      | inr (b, n) ↦ elim (Bool-cases b.disabled) [
        | inl y ↦ absurd (ground arith)
        | inr no' ↦ (b, n, no', ground arith)
      ]
    ]

module _ (store : CounterStore) where
  after_quota-relayed :
      (rd os : Os) (s : Session) (a : Account) (received : Bytes) (incoming : Incoming)
      (r : store.State × Option SmtpError) (out : Envelope)
      → (after_quota store rd os s a received incoming r).1 ≡ relayed out
      → (r.1 ≡ none)
        × Vetted rd os s.snap
            (policy_for s.snap a.username)
            (empty_envelope s a)
            received
            incoming
            out
  unfolding after_quota
  after_quota-relayed rd os s a received incoming (st, some e) out h = absurd (ground arith)
  after_quota-relayed rd os s a received incoming (st, none) out h = (
    refl,
    receive-relayed rd os s.snap (policy_for s.snap a.username) (empty_envelope s a) out received
        incoming h,
  )

  transfer-relayed :
      (rd os : Os) (window : Bytes) (st : store.State) (received : Bytes) (incoming : Incoming)
      (a : Account) (t : Session) (e : Option Refusal) (out : Envelope)
      → (transfer store rd os window st received incoming a (t, e)).1 ≡ relayed out
      → (e ≡ none)
        × ((RateLimit.check store t.snap.limiter window st a.username (length t.to)).1 ≡ none)
        × Vetted rd os t.snap
            (policy_for t.snap a.username)
            (empty_envelope t a)
            received
            incoming
            out
  unfolding transfer
  transfer-relayed rd os window st received incoming a t (some e) out h = absurd (ground arith)
  transfer-relayed rd os window st received incoming a t none out h =
      let (quota, done) =
        after_quota-relayed rd os t a received incoming
          (RateLimit.check store t.snap.limiter window st a.username (length t.to)) out h in
      (refl, quota, done)

  -- A message is handed to the upstream, and taken by it, only if the session is authenticated, has a
  -- recipient, and the configuration now in service still has the account, not disabled; and if,
  -- by that configuration, the quota was counted and allows it, all its bytes were read to their end
  -- and buffered, its visible sender is allowed unless the account is exempt, its filters let it
  -- pass, and it was signed or needed no signature.
  pub data_command_relayed :
      (rd os : Os) (window : Bytes) (st : store.State) (current : Snapshot) (s : Session)
      (received : Bytes) (incoming : Incoming) (out : Envelope)
      → (data_command store rd os window st current s received incoming).1 ≡ relayed out
      → (a : Account) × (b : Account) × (s.account ≡ some a)
        × (is_empty s.to ≡ false)
        × (by_username a.username current.accounts ≡ some b)
        × (b.disabled ≡ false)
        × ((RateLimit.check store current.limiter window st a.username (length s.to)).1 ≡ none)
        × Vetted rd os current
            (policy_for current a.username)
            (empty_envelope (record s { snap = current; account = some b }) a)
            received
            incoming
            out
  unfolding data_command
  data_command_relayed rd os window st current s received incoming out h =
      elim (Option-cases s.account) [
        | inl n ↦ absurd (ground arith)
        | inr (a, n) ↦ elim (Bool-cases (is_empty s.to)) [
          | inl y ↦ absurd (ground arith)
          | inr no' ↦ go a n no' (still_authorized current s a) refl (ground arith)
        ]
      ]
    where
      go :
          (a : Account)
          → s.account ≡ some a
          → is_empty s.to ≡ false
          → (r : Session × Option Refusal) → still_authorized current s a ≡ r
          → (transfer store rd os window st received incoming a r).1 ≡ relayed out
          → (a : Account) × (b : Account) × (s.account ≡ some a)
            × (is_empty s.to ≡ false)
            × (by_username a.username current.accounts ≡ some b)
            × (b.disabled ≡ false)
            × ((RateLimit.check store current.limiter window st a.username (length s.to)).1 ≡ none)
            × Vetted rd os current
                (policy_for current a.username)
                (empty_envelope (record s { snap = current; account = some b }) a)
                received
                incoming
                out
      go a n no' (t, some e) q k = absurd (ground arith)
      go a n no' (t, none) q k =
          let (b, found, enabled, same_session) = still_authorized-accepts current s t a q in
          let (e, quota, done) =
            transfer-relayed rd os window st received incoming a t none out k in
          (a, b, n, no', found, enabled, rw same_session at quota, rw same_session at done)
