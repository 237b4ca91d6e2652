-- ===== src/Session/AssemblyTests.antt =====
-- A run through a snapshot that a configuration gives, and the theorem on it at that input.
use mailout_operator.Base.{ℕ, suc, true, false, List, [], ◌∷◌, Option, none, some, ◌≡◌, refl}
use mailout_operator.Text.{same, has, Bytes, codes}
use mailout_operator.Spool.{all_bytes, sound, fresh, copy}
use mailout_operator.Spool.Refinement.{contents}
use mailout_operator.Config.{
  validate, partition_accounts, valid_username, Config, Account, apply_defaults,
}
use mailout_operator.Config.Samples.{cost, account, config}
use mailout_operator.TlsStore.{new_cert_store}
use mailout_operator.RateLimit.{CounterStore}
use mailout_operator.Dkim.{new_dkim_signer}
use mailout_operator.RateLimit.Reload.{next_limiter}
use mailout_operator.Auth.{by_username}
use mailout_operator.Envelope.{Envelope}
use mailout_operator.Relay.{send, unreadable, UpstreamServer, fine, envelope_stages, body_stages}
use mailout_operator.Relay.Delivery.{Accepts}
use mailout_operator.Session.{Incoming, ended, Snapshot, Session, data_command}
use mailout_operator.Session.Assembly.{Surroundings, new_snapshot, relayed_accepted}

-- An upstream that counts the steps and accepts them all.
abbrev willing : UpstreamServer
willing = record { Conn = ℕ; dial = some 0; ask = λ c s. (suc c, fine) }

abbrev around : Surroundings ℕ Unit
around = record {
  cost = cost;
  read_file = λ path. some path;
  parse_pair =
      λ cert key. some (record { dns_names = []; common_name = cert; key_pair = (cert, key) });
  load_key = λ k. some tt;
  dkim_sign = λ k source. none;
  open_client = λ s. some 1;
  make_filters = λ ms. some [];
  reach = λ u. some willing;
  spool_writable = λ dir. true;
  reads = sound;
  writes = sound;
}

abbrev exempt : Account
exempt = record (account (codes "shop")) { skip_header_from_check = true }

abbrev small_config : Config
small_config = record config { accounts = exempt ∷ [] }

abbrev given : Option Snapshot → Snapshot
given (some snap) = snap
given none = record {
  accounts = [];
  spool_dir = [];
  spool_threshold = 0;
  limiter = none;
  filters = [];
  sign = λ msg senders. none;
  deliver = λ msg. unreadable;
}

abbrev snap : Snapshot
snap = given (new_snapshot around none small_config)

abbrev no_store : CounterStore
no_store = record { State = Unit; incr_by = λ st k by. (st, none) }

abbrev session : Session
session = record {
  snap = snap;
  account = some exempt;
  from = codes "a@example.com";
  to = codes "b@example.net" ∷ [];
  auth_failures = 0;
  closed = false;
}

abbrev received : Bytes
received = codes "Received: x\r\n"

abbrev body : List Bytes
body = codes "From: a@example.com\r\n\r\nHi" ∷ []

abbrev incoming : Incoming
incoming = record { chunks = body; ending = ended }

abbrev out : Envelope
out = record {
  from = codes "a@example.com";
  to = codes "b@example.net" ∷ [];
  body = (copy sound (fresh [] 1048576) (received ∷ body)).0;
  account = codes "shop";
}

relayed_accepted_example :
    (server : UpstreamServer) × (c : server.Conn) × (d : server.Conn) × (e : server.Conn) × (some
        willing
      ≡ some server)
    × (server.dial ≡ some c)
    × Accepts server c (envelope_stages (apply_defaults small_config).upstream out) d
    × Accepts server d (body_stages (contents out.body)) e
unfolding new_snapshot data_command validate apply_defaults same has new_cert_store new_dkim_signer
    next_limiter by_username partition_accounts valid_username copy send all_bytes
relayed_accepted_example =
    relayed_accepted around none small_config snap no_store sound sound (codes "7") tt session
      received incoming out refl refl refl
