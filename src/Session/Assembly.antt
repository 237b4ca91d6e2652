-- ===== src/Session/Assembly.antt =====
-- `newSnapshot` of internal/gateway/server.go: the snapshot that a configuration gives, out of the
-- parts. The limiter of the snapshot before is kept if it can be.
use mailout_operator.Base.{
  ℕ, Bool, not, List, Option, none, some, ◌≡◌, ◌⊎◌, inl, inr, sym, ap, ◌∙◌, arith, if◌then◌else◌,
  Bool-cases, Option-cases, is_empty,
}
use mailout_operator.Text.{Bytes}
use mailout_operator.Policy.{SenderPolicy}
use mailout_operator.Spool.{Os, sound}
use mailout_operator.Spool.Refinement.{contents}
use mailout_operator.Config.{
  Config, Upstream, RateLimitStore, DkimKey, apply_defaults, validate, partition_accounts,
}
use mailout_operator.Config
use mailout_operator.TlsStore.{Certificate, new_cert_store}
use mailout_operator.RateLimit.{CounterStore, Limiter}
use mailout_operator.RateLimit.Reload.{Counting, next_limiter}
use mailout_operator.Envelope.{Envelope}
use mailout_operator.Milter.{Filter}
use mailout_operator.Relay.{delivered, UpstreamServer, envelope_stages, body_stages, send}
use mailout_operator.Relay.Delivery.{Accepts, send_delivered}
use mailout_operator.Dkim.{
  LoadedKey, SignerError, SignResult, no_key, not_allowed, failed_to_sign, signed, new_dkim_signer,
  sign,
}
use mailout_operator.Session.{Snapshot, Session, Incoming, data_command, relayed}
use mailout_operator.Session.Rules.{data_command_relayed}

-- What the snapshot takes from outside the repository: the cost of a hash, files and key pairs, private
-- keys and signatures, clients of the store, of the filters and of the upstream, whether the spool
-- directory can be written, and the answers to the reads and writes of the signer and the relay.
pub record Surroundings (Client : Type 0) (Signer : Type 0) : Type 1 where
  pub cost : Bytes → Option ℕ
  pub read_file : Bytes → Option Bytes
  pub parse_pair : Bytes → Bytes → Option Certificate
  pub load_key : DkimKey → Option Signer
  pub dkim_sign : LoadedKey Signer → Bytes → Option (List Bytes)
  pub open_client : RateLimitStore → Option Client
  pub make_filters : List Config.Milter → Option (List Filter)
  pub reach : Upstream → Option UpstreamServer
  pub spool_writable : Bytes → Bool
  pub reads : Os
  pub writes : Os

-- The message that goes on, unless signing failed.
unfoldable pub signed_message : {Signer : Type 0} → Envelope × SignResult Signer → Option Envelope
signed_message (msg, failed_to_sign) = none
signed_message (msg, no_key) = some msg
signed_message (msg, not_allowed) = some msg
signed_message (msg, signed k) = some msg

module _ {Client Signer : Type 0} (around : Surroundings Client Signer) where
  -- The signing stage of `Data`.
  unfoldable pub sign_stage : List (LoadedKey Signer) → Envelope → SenderPolicy → Option Envelope
  unfolding signed_message
  sign_stage ks msg senders =
      if is_empty ks
      then some msg
      else signed_message (sign around.dkim_sign around.reads around.writes ks msg senders)

  abbrev pub counting_limiter : Option (Counting Client) → Option Limiter
  counting_limiter none = none
  counting_limiter (some k) = some k.limiter

  abbrev pub snapshot_of :
      Config
      → UpstreamServer
      → List Filter
      → List (LoadedKey Signer)
      → Option (Counting Client)
      → Snapshot
  snapshot_of c server filters ks counting = record {
    accounts = (partition_accounts around.cost c).0;
    spool_dir = c.limits.spool_dir;
    spool_threshold = c.limits.spool_threshold;
    limiter = counting_limiter counting;
    filters = filters;
    sign = sign_stage ks;
    deliver = send server around.reads c.upstream;
  }

  abbrev pub good_keys : List (LoadedKey Signer) ⊎ SignerError → Option (List (LoadedKey Signer))
  good_keys (inl ks) = some ks
  good_keys (inr e) = none

  -- `newSnapshot`; `none` is its error.
  unfoldable pub new_snapshot : Option (Counting Client) → Config → Option Snapshot
  unfolding sign_stage
  new_snapshot prev cfg =
      let c = apply_defaults cfg in
      if not (is_empty (validate c))
      then none
      else elim (new_cert_store around.read_file around.parse_pair c.tls) [
        | none ↦ none
        | some certs ↦ elim (around.reach c.upstream) [
          | none ↦ none
          | some server ↦ elim (around.make_filters c.milters) [
            | none ↦ none
            | some filters ↦ elim (good_keys (new_dkim_signer around.load_key c.dkim)) [
              | none ↦ none
              | some ks ↦ elim (next_limiter around.open_client prev c) [
                | none ↦ none
                | some counting ↦
                    if not (around.spool_writable c.limits.spool_dir)
                    then none
                    else some (snapshot_of c server filters ks counting)
              ]
            ]
          ]
        ]
      ]

  abbrev IsFrom : Config → Snapshot → Type 1
  IsFrom c snap =
      (server : UpstreamServer) × (around.reach c.upstream ≡ some server)
      × (snap.deliver ≡ send server around.reads c.upstream)
      × (snap.accounts ≡ (partition_accounts around.cost c).0)

  new_snapshot-IsFrom :
      (prev : Option (Counting Client)) (cfg : Config) (snap : Snapshot)
      → new_snapshot prev cfg ≡ some snap
      → IsFrom (apply_defaults cfg) snap
  unfolding new_snapshot
  new_snapshot-IsFrom prev cfg snap h =
      let c = apply_defaults cfg in
      elim (Bool-cases (is_empty (validate c))) [
        | inr n ↦ absurd (ground arith)
        | inl v ↦ elim (Option-cases (new_cert_store around.read_file around.parse_pair c.tls)) [
          | inl n ↦ absurd (ground arith)
          | inr (certs, y1) ↦ elim (Option-cases (around.reach c.upstream)) [
            | inl n ↦ absurd (ground arith)
            | inr (server, y2) ↦ elim (Option-cases (around.make_filters c.milters)) [
              | inl n ↦ absurd (ground arith)
              | inr (filters, y3) ↦
                  elim (Option-cases (good_keys (new_dkim_signer around.load_key c.dkim))) [
                    | inl n ↦ absurd (ground arith)
                    | inr (ks, y4) ↦ elim (Option-cases (next_limiter around.open_client prev c)) [
                      | inl n ↦ absurd (ground arith)
                      | inr (counting, y5) ↦
                          elim (Bool-cases (around.spool_writable c.limits.spool_dir)) [
                            | inr n ↦ absurd (ground arith)
                            | inl y6 ↦
                                let made : snapshot_of c server filters ks counting ≡ snap =
                                  ground arith in
                                (
                                  server,
                                  y2,
                                  sym (ap (λ z. z.deliver) made),
                                  sym (ap (λ z. z.accounts) made),
                                )
                          ]
                    ]
                  ]
            ]
          ]
        ]
      ]

  -- With the snapshot that a configuration gives in service, and reads that succeed: a message that
  -- DATA reports as relayed was accepted by the upstream of that configuration, from the sender
  -- and every recipient to the end of its whole body.
  pub relayed_accepted :
      (prev : Option (Counting Client)) (cfg : Config) (snap : Snapshot) (store : CounterStore)
      (rd os : Os) (window : Bytes) (st : store.State) (s : Session) (received : Bytes)
      (incoming : Incoming) (out : Envelope)
      → around.reads ≡ sound
      → new_snapshot prev cfg ≡ some snap
      → (data_command store rd os window st snap s received incoming).1 ≡ relayed out
      → (server : UpstreamServer) × (c : server.Conn) × (d : server.Conn) × (e : server.Conn)
        × (around.reach (apply_defaults cfg).upstream ≡ some server)
        × (server.dial ≡ some c)
        × Accepts server c (envelope_stages (apply_defaults cfg).upstream out) d
        × Accepts server d (body_stages (contents out.body)) e
  relayed_accepted prev cfg snap store rd os window st s received incoming out q made h =
      let (server, reached, delivers, served) = new_snapshot-IsFrom prev cfg snap made in
      let (a, b, n, to, found, enabled, quota, vetted) =
        data_command_relayed store rd os window st snap s received incoming out h in
      let (start, body, checked, c1, c2, whole, allowed, released) = vetted in
      let (p, run', sg, took) = released in
      let sent : send server sound (apply_defaults cfg).upstream out ≡ delivered =
        ap (λ r. send server r (apply_defaults cfg).upstream out) (sym q)
        ∙ sym (ap (λ f. f out) delivers)
        ∙ took in
      let (c, d, e, dialled, first, second) =
        (send_delivered server (apply_defaults cfg).upstream out).0 sent in
      (server, c, d, e, reached, dialled, first, second)
