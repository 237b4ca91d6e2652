-- ===== src/Session/Sending.antt =====
-- When MAIL opens an envelope.
use mailout_operator.Base.{
  true, false, [], Option, none, some, ◌≡◌, ◌↔◌, inl, inr, refl, ap, ◌∙◌, arith, Bool-cases,
  Option-cases,
}
use mailout_operator.Text.{Bytes}
use mailout_operator.Policy.{allows}
use mailout_operator.Config.{Account}
use mailout_operator.Auth.{by_username}
use mailout_operator.Session.{
  Snapshot, policy_for, Session, Refusal, still_authorized, start_envelope, mail,
}
use mailout_operator.Session.Rules.{still_authorized-accepts}

-- MAIL is accepted exactly if the session is authenticated, the configuration now in service still
-- has its account, not disabled, and the sender policy which that configuration gives the account
-- allows the address. The session has then adopted that configuration and has no recipient.
pub mail_accepted :
    (current : Snapshot) (s t : Session) (from : Bytes)
    → (mail current s from ≡ (t, none)) ↔ (
        (a : Account) × (b : Account) × (s.account ≡ some a)
        × (by_username a.username current.accounts ≡ some b)
        × (b.disabled ≡ false)
        × (allows (policy_for current b.username).senders from ≡ true)
        × (t ≡ record s { snap = current; account = some b; from = from; to = [] }))
unfolding mail start_envelope still_authorized
mail_accepted current s t from = (
  λ h. elim (Option-cases s.account) [
    | inl n ↦ absurd (ground arith)
    | inr (a, n) ↦ go a n (still_authorized current s a) refl (ground arith)
  ],
  λ (a, b, n, found, enabled, ok', e). ground arith,
)
  where
    empty_from : Session → Session
    empty_from z = record z { from = from; to = [] }

    snap_of : Session → Snapshot
    snap_of z = z.snap

    account_of : Session → Option Account
    account_of z = z.account

    opened :
        (a b : Account) (u : Session)
        → u.snap ≡ current
        → u.account ≡ some b
        → start_envelope u from ≡ (t, none)
        → (allows (policy_for current b.username).senders from ≡ true)
          × (t ≡ record u { from = from; to = [] })
    opened a b u p q k = elim (Bool-cases (allows (policy_for current b.username).senders from)) [
      | inl y ↦ (y, ground arith)
      | inr no' ↦ absurd (ground arith)
    ]

    go :
        (a : Account)
        → s.account ≡ some a
        → (r : Session × Option Refusal) → still_authorized current s a ≡ r
        → mail current s from ≡ (t, none)
        → (a : Account) × (b : Account) × (s.account ≡ some a)
          × (by_username a.username current.accounts ≡ some b)
          × (b.disabled ≡ false)
          × (allows (policy_for current b.username).senders from ≡ true)
          × (t ≡ record s { snap = current; account = some b; from = from; to = [] })
    go a n (u, some e) q k = absurd (ground arith)
    go a n (u, none) q k =
        let (b, found, enabled, same_session) = still_authorized-accepts current s u a q in
        let (ok', e) =
          opened a b u (ap snap_of same_session) (ap account_of same_session) (ground arith) in
        (a, b, n, found, enabled, ok', e ∙ ap empty_from same_session)
