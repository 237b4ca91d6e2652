-- ===== src/Render.antt =====
-- internal/render/render.go: the dataplane's configuration out of a gateway object and its resolved
-- accounts.
pub mod Endpoint
pub mod Ordering
pub mod Fit
pub mod Samples
mod Tests
use mailout_operator.Base.{
  ℕ, zero, suc, ◌+◌, ◌-◌, ◌*◌, ◌/◌, ◌%◌, ◌≤◌, ◌<◌, Bool, true, false, not, ◌&&◌, ◌||◌, List, [],
  ◌∷◌, ◌++◌, Option, none, some, ◌≡◌, ◌≢◌, ◌↔◌, ◌⊎◌, inl, inr, refl, sym, ap, subst, ◌∙◌, arith,
  ◌==◌, ltb, leb, if◌then◌else◌, Bool-cases, Option-cases, length, take, drop, is_empty, keep, All,
  Any, append-nil, append_assoc, length-append, some_of, some_of-or, some_of-Any, some_of-keep,
  some_of_mono, ==_iff, Any-append, All-append, All-map, All-keep, Any-elim, Any-map, All-Any, map,
  keep_ext, some_of-append, append-eq_nil,
}
use mailout_operator.Text.{
  cut, number_from, Bytes, codes, same, has, add, sort, text_before, decimal,
}
use mailout_operator.Config.{
  unset, Config, Listener, TlsMode, starttls, implicit, plain, CertificateRef, TlsConfig, Upstream,
  Limits, RateLimit, RateLimitStore, DkimKey,
}
use mailout_operator.Config
use mailout_operator.Api.{
  MailoutGateway, MailoutGatewaySpec, ListenersSpec, ListenerSpec, GatewayTlsSpec, IssuerReference,
  UpstreamSpec, MilterSpec, DkimKeySpec, RateLimitSpec, RateLimitStoreTlsSpec, TlsModeName,
  start_tls, implicit_tls, no_tls, default_tls, other_tls,
}

pub record Account : Type 0 where
  pub username : Bytes
  pub password_hash : Bytes
  pub disabled : Bool
  pub allowed_senders : List Bytes
  pub skip_header_from_check : Bool

pub record RateLimitCredentials : Type 0 where
  pub username : Bytes
  pub password : Bytes
  pub sentinel_username : Bytes
  pub sentinel_password : Bytes
  pub ca_pem : Bytes

pub record Input (Selector : Type 0) : Type 0 where
  pub gateway : MailoutGateway Selector
  pub accounts : List Account
  pub upstream_username : Bytes
  pub upstream_password : Bytes
  pub upstream_ca_pem : Bytes
  pub rate_limit_store : RateLimitCredentials
  pub metrics_token : Bytes

abbrev pub spool_dir : Bytes
spool_dir = codes "/var/spool/mailout"

abbrev pub tls_dir : Bytes
tls_dir = codes "/etc/mailout/tls"

abbrev pub dkim_dir : Bytes
dkim_dir = codes "/etc/mailout/dkim"

abbrev pub default_submission_port : ℕ
default_submission_port = 587

abbrev pub default_smtps_port : ℕ
default_smtps_port = 465

-- `filepath.Join` of a clean path and a name without slashes that is neither `.` nor `..`.
unfoldable pub join_path : Bytes → Bytes → Bytes
join_path dir name = if is_empty name then dir else dir ++ b'/' ∷ name

abbrev pub port_or : ℕ → ℕ → ℕ
port_or default_port port = if port == 0 then default_port else port

unfoldable pub submission_port : Option ListenerSpec → ℕ
submission_port none = default_submission_port
submission_port (some l) = port_or default_submission_port l.port

unfoldable pub smtps_listener : Option ListenerSpec → List Listener
unfolding decimal
smtps_listener none = []
smtps_listener (some l) =
    record {
      name = codes "smtps";
      addr = b':' ∷ decimal (port_or default_smtps_port l.port);
      mode = implicit;
    }
    ∷ []

abbrev pub is_some {ℓ} : {A : Type ℓ} → Option A → Bool
is_some none = false
is_some (some x) = true

unfoldable pub render_listeners : ListenersSpec → List Listener
unfolding submission_port smtps_listener decimal
render_listeners spec =
    if is_some spec.submission || not (is_some spec.smtps)
    then record {
      name = codes "submission";
      addr = b':' ∷ decimal (submission_port spec.submission);
      mode = starttls;
    }
      ∷ smtps_listener spec.smtps
    else smtps_listener spec.smtps

unfoldable pub certificate_mount_path : Bytes → Bytes
unfolding join_path
certificate_mount_path secret_name = join_path tls_dir secret_name

unfoldable pub dkim_mount_path : Bytes → Bytes
unfolding join_path
dkim_mount_path secret_name = join_path dkim_dir secret_name

unfoldable pub owned_certificate_secret_name : Bytes → Bytes
owned_certificate_secret_name gateway_name = gateway_name ++ codes "-tls"

unfoldable pub secret_names_of : GatewayTlsSpec → Bytes → List Bytes
unfolding owned_certificate_secret_name
secret_names_of tls gateway_name =
    if not (is_empty tls.certificate_refs)
    then tls.certificate_refs
    else if is_some tls.issuer_ref
    then owned_certificate_secret_name gateway_name ∷ []
    else []

unfoldable pub certificate_secret_names : {Selector : Type 0} → MailoutGateway Selector → List Bytes
unfolding secret_names_of
certificate_secret_names gw = secret_names_of gw.spec.tls gw.name

unfoldable pub certificate_ref : Bytes → CertificateRef
unfolding certificate_mount_path join_path
certificate_ref secret_name = record {
  name = secret_name;
  cert_file = join_path (certificate_mount_path secret_name) (codes "tls.crt");
  key_file = join_path (certificate_mount_path secret_name) (codes "tls.key");
  cert_pem = [];
  key_pem = [];
}

unfoldable pub render_tls : {Selector : Type 0} → MailoutGateway Selector → TlsConfig
unfolding certificate_secret_names certificate_ref
render_tls gw = record {
  certificates = map certificate_ref (certificate_secret_names gw);
  default_certificate = gw.spec.tls.default_certificate;
}

unfoldable pub upstream_tls_mode : TlsModeName → TlsMode
upstream_tls_mode implicit_tls = implicit
upstream_tls_mode no_tls = plain
upstream_tls_mode start_tls = starttls
upstream_tls_mode default_tls = starttls
upstream_tls_mode (other_tls s) = starttls

abbrev pub or_zero : Option ℕ → ℕ
or_zero none = 0
or_zero (some n) = n

unfoldable pub render_upstream : {Selector : Type 0} → UpstreamSpec → Input Selector → Upstream
unfolding upstream_tls_mode
render_upstream spec input = record {
  host = spec.host;
  port = spec.port;
  tls = upstream_tls_mode spec.tls;
  insecure_skip_verify = spec.insecure_skip_verify;
  root_ca_pem = input.upstream_ca_pem;
  username = input.upstream_username;
  password = input.upstream_password;
  timeout = or_zero spec.timeout;
}

unfoldable pub render_milter : MilterSpec → Config.Milter
render_milter m = record {
  name = m.name;
  address = m.address;
  fail_open = m.fail_open;
  timeout = or_zero m.timeout;
}

unfoldable pub dkim_key_name : DkimKeySpec → Bytes
dkim_key_name spec =
    if not (is_empty spec.private_key_secret_ref.key)
    then spec.private_key_secret_ref.key
    else codes "private.key"

unfoldable pub render_dkim_key : DkimKeySpec → DkimKey
unfolding dkim_mount_path dkim_key_name join_path
render_dkim_key k = record {
  domain = k.domain;
  selector = k.selector;
  private_key_pem = [];
  private_key_file = join_path (dkim_mount_path k.private_key_secret_ref.name) (dkim_key_name k);
  header_keys = k.header_keys;
}

-- With TLS, what the specification says of it.
unfoldable pub store_with_tls :
    Option RateLimitStoreTlsSpec → Bytes → RateLimitStore → RateLimitStore
store_with_tls none ca_pem store = store
store_with_tls (some tls) ca_pem store = record store {
  tls = true;
  insecure_skip_verify = tls.insecure_skip_verify;
  root_ca_pem = ca_pem;
}

unfoldable pub render_rate_limit : Option RateLimitSpec → RateLimitCredentials → Option RateLimit
unfolding store_with_tls
render_rate_limit none creds = none
render_rate_limit (some spec) creds = some record {
  store = store_with_tls spec.store.tls creds.ca_pem (record {
    addresses = spec.store.addresses;
    master_name = spec.store.master_name;
    db = spec.store.db;
    username = creds.username;
    password = creds.password;
    sentinel_username = creds.sentinel_username;
    sentinel_password = creds.sentinel_password;
    tls = false;
    insecure_skip_verify = false;
    root_ca_pem = [];
    timeout = or_zero spec.store.timeout;
  });
  messages_per_minute = or_zero spec.messages_per_minute;
  recipients_per_minute = or_zero spec.recipients_per_minute;
}

-- `sort.Slice` by username. Of accounts with one username the order is that of the list, which the
-- source does not promise.
unfoldable pub insert_account : Account → List Account → List Account
unfolding text_before
insert_account a [] = a ∷ []
insert_account a (b ∷ bs) =
    let rest = insert_account a bs in
    if text_before b.username a.username then b ∷ rest else a ∷ b ∷ bs

unfoldable pub sort_accounts : List Account → List Account
unfolding insert_account
sort_accounts [] = []
sort_accounts (a ∷ as') = insert_account a (sort_accounts as')

unfoldable pub render_account : Account → Config.Account
render_account a = record {
  username = a.username;
  password_hash = a.password_hash;
  disabled = a.disabled;
  allowed_senders = a.allowed_senders;
  skip_header_from_check = a.skip_header_from_check;
}

abbrev pub render_limits : Limits
render_limits = record {
  max_message_bytes = 0;
  max_recipients = 0;
  read_timeout = 0;
  write_timeout = 0;
  max_line_length = 0;
  max_connections = 0;
  spool_dir = spool_dir;
  spool_threshold = 0;
}

-- `GatewayConfig`; its one error is a gateway that is nil.
unfoldable pub gateway_config : {Selector : Type 0} → Input Selector → Config
unfolding render_listeners render_tls render_upstream render_milter render_dkim_key
    render_rate_limit sort_accounts render_account
gateway_config input =
    let gw = input.gateway in
    record {
      hostname = if is_empty gw.spec.hostname then gw.name else gw.spec.hostname;
      listeners = render_listeners gw.spec.listeners;
      tls = render_tls gw;
      upstream = render_upstream gw.spec.upstream input;
      accounts = map render_account (sort_accounts input.accounts);
      milters = map render_milter gw.spec.milters;
      dkim = if not gw.spec.upstream.handles_dkim then map render_dkim_key gw.spec.dkim else [];
      rate_limit = render_rate_limit gw.spec.rate_limit input.rate_limit_store;
      limits = render_limits;
      metrics_token = input.metrics_token;
    }

-- The loop of `DKIMSecretNames`, from the names seen.
unfoldable pub key_secret_names : List Bytes → List DkimKeySpec → List Bytes
key_secret_names seen [] = []
key_secret_names seen (k ∷ ks) =
    let name = k.private_key_secret_ref.name in
    let skipped = is_empty name || has name seen in
    let rest = key_secret_names (if skipped then seen else add name seen) ks in
    if skipped then rest else name ∷ rest

unfoldable pub dkim_secret_names : {Selector : Type 0} → MailoutGateway Selector → List Bytes
unfolding key_secret_names sort
dkim_secret_names gw =
    sort (if not gw.spec.upstream.handles_dkim then key_secret_names [] gw.spec.dkim else [])
