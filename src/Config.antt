-- ===== src/Config.antt =====
-- internal/gateway/config.go: the configuration snapshot, its defaults and its checks. Durations
-- are nanoseconds, sizes and ports natural numbers.
pub mod Accounts
pub mod Usable
pub mod Partitions
pub mod Texts
pub mod Validity
pub mod Requirements
pub mod Samples
mod Tests
use mailout_operator.Base.{
  map, ℕ, zero, suc, ◌+◌, ◌-◌, ◌*◌, ◌≤◌, ◌<◌, Bool, true, false, not, ◌&&◌, ◌||◌, List, [], ◌∷◌,
  ◌++◌, Option, none, some, ◌≡◌, ◌≢◌, ◌↔◌, ◌⊎◌, inl, inr, refl, sym, ap, subst, ◌∙◌, arith, ◌==◌,
  ltb, leb, if◌then◌else◌, Bool-cases, Option-cases, length, take, drop, is_empty, keep, All, Any,
  append-nil, append_assoc, length-append, some_of, some_of-or, some_of-Any, some_of-keep,
  some_of_mono, ==_iff,
}
use mailout_operator.Text.{Bytes, codes, same, has, add}

pub data TlsMode : Type 0 where
  starttls implicit plain : TlsMode
  unset : TlsMode
  other : Bytes → TlsMode

pub record Listener : Type 0 where
  pub name : Bytes
  pub addr : Bytes
  pub mode : TlsMode

pub record CertificateRef : Type 0 where
  pub name : Bytes
  pub cert_file : Bytes
  pub key_file : Bytes
  pub cert_pem : Bytes
  pub key_pem : Bytes

pub record TlsConfig : Type 0 where
  pub certificates : List CertificateRef
  pub default_certificate : Bytes

pub record Upstream : Type 0 where
  pub host : Bytes
  pub port : ℕ
  pub tls : TlsMode
  pub insecure_skip_verify : Bool
  pub root_ca_pem : Bytes
  pub username : Bytes
  pub password : Bytes
  pub timeout : ℕ

pub record Account : Type 0 where
  pub username : Bytes
  pub password_hash : Bytes
  pub disabled : Bool
  pub allowed_senders : List Bytes
  pub skip_header_from_check : Bool

pub record Limits : Type 0 where
  pub max_message_bytes : ℕ
  pub max_recipients : ℕ
  pub read_timeout : ℕ
  pub write_timeout : ℕ
  pub max_line_length : ℕ
  pub max_connections : ℕ
  pub spool_dir : Bytes
  pub spool_threshold : ℕ

pub record RateLimitStore : Type 0 where
  pub addresses : List Bytes
  pub master_name : Bytes
  pub db : ℕ
  pub username : Bytes
  pub password : Bytes
  pub sentinel_username : Bytes
  pub sentinel_password : Bytes
  pub tls : Bool
  pub insecure_skip_verify : Bool
  pub root_ca_pem : Bytes
  pub timeout : ℕ

pub record RateLimit : Type 0 where
  pub store : RateLimitStore
  pub messages_per_minute : ℕ
  pub recipients_per_minute : ℕ

pub record Milter : Type 0 where
  pub name : Bytes
  pub address : Bytes
  pub fail_open : Bool
  pub timeout : ℕ

pub record DkimKey : Type 0 where
  pub domain : Bytes
  pub selector : Bytes
  pub private_key_pem : Bytes
  pub private_key_file : Bytes
  pub header_keys : List Bytes

pub record Config : Type 0 where
  pub hostname : Bytes
  pub listeners : List Listener
  pub tls : TlsConfig
  pub upstream : Upstream
  pub accounts : List Account
  pub milters : List Milter
  pub dkim : List DkimKey
  pub rate_limit : Option RateLimit
  pub limits : Limits
  pub metrics_token : Bytes

abbrev pub max_username_length : ℕ
max_username_length = 128

abbrev pub min_bcrypt_cost : ℕ
min_bcrypt_cost = 10

abbrev pub max_bcrypt_cost : ℕ
max_bcrypt_cost = 14

-- The byte is printable ASCII, and none of the delimiters.
unfoldable pub safe_byte : ℕ → Bool
safe_byte b =
    not (leb b b' ' || ltb b'~' b || b == b':' || b == b';' || b == b',' || b == b'"' || b == 92)

unfoldable pub all_safe : Bytes → Bool
unfolding safe_byte
all_safe [] = true
all_safe (b ∷ s) = safe_byte b && all_safe s

unfoldable pub valid_username : Bytes → Bool
unfolding all_safe
valid_username username =
    if is_empty username || ltb max_username_length (length username)
    then false
    else all_safe username

-- Why an account is left out.
pub data Reason : Type 0 where
  username_required duplicate_username unsafe_username hash_required unusable_hash : Reason

-- How a rejected account is named in the report: by its username, or by its position.
pub data Shown : Type 0 where
  named : Bytes → Shown
  numbered : ℕ → Shown

pub record RejectedAccount : Type 0 where
  pub username : Shown
  pub reason : Reason

module _ (cost : Bytes → Option ℕ) where
  -- `bcrypt.Cost` is the parameter; `none` is its error.
  unfoldable pub usable_hash : Bytes → Bool
  usable_hash hash = elim (cost hash) [
    | none ↦ false
    | some c ↦ leb min_bcrypt_cost c && leb c max_bcrypt_cost
  ]

  -- The switch of the loop: `none` is an account that is served.
  unfoldable pub rejection : List Bytes → ℕ → Account → Option RejectedAccount
  unfolding usable_hash
  rejection seen i a =
      if is_empty a.username
      then some (record { username = numbered i; reason = username_required })
      else if has a.username seen
      then some (record { username = named a.username; reason = duplicate_username })
      else if not (valid_username a.username)
      then some (record { username = numbered i; reason = unsafe_username })
      else if is_empty a.password_hash
      then some (record { username = named a.username; reason = hash_required })
      else if not (usable_hash a.password_hash)
      then some (record { username = named a.username; reason = unusable_hash })
      else none

  unfoldable pub partition_from :
      List Bytes → ℕ → List Account → List Account × List RejectedAccount
  unfolding rejection
  partition_from seen i [] = ([], [])
  partition_from seen i (a ∷ as') = elim (rejection seen i a) [
    | some r ↦ let (served, rejected) = partition_from seen (suc i) as' in (served, r ∷ rejected)
    | none ↦
        let (served, rejected) = partition_from (add a.username seen) (suc i) as' in
        (a ∷ served, rejected)
  ]

  unfoldable pub partition_accounts : Config → List Account × List RejectedAccount
  unfolding partition_from
  partition_accounts c = partition_from [] 0 c.accounts

abbrev or_default : ℕ → ℕ → ℕ
or_default value fallback = if value == 0 then fallback else value

abbrev pub seconds : ℕ → ℕ
seconds n = n * 1000000000

unfoldable pub default_limits : Limits → Limits
default_limits l = record {
  max_message_bytes = or_default l.max_message_bytes (25 * 1024 * 1024);
  max_recipients = or_default l.max_recipients 50;
  read_timeout = or_default l.read_timeout (seconds 60);
  write_timeout = or_default l.write_timeout (seconds 60);
  max_line_length = or_default l.max_line_length 8000;
  max_connections = or_default l.max_connections 64;
  spool_dir = l.spool_dir;
  spool_threshold = or_default l.spool_threshold (1024 * 1024);
}

abbrev default_port : TlsMode → ℕ
default_port implicit = 465
default_port _ = 587

unfoldable pub default_upstream : Upstream → Upstream
default_upstream u = record u {
  timeout = or_default u.timeout (seconds 60);
  port = or_default u.port (default_port u.tls);
}

abbrev default_mode : TlsMode → TlsMode
default_mode unset = starttls
default_mode m = m

unfoldable pub default_listener : Listener → Listener
default_listener l = record l {
  mode = default_mode l.mode;
  name = if is_empty l.name then l.addr else l.name;
}

unfoldable pub apply_defaults : Config → Config
unfolding default_limits default_upstream default_listener
apply_defaults c = record c {
  hostname = if is_empty c.hostname then codes "mailout" else c.hostname;
  limits = default_limits c.limits;
  upstream = default_upstream c.upstream;
  listeners = map default_listener c.listeners;
}

-- What `Validate` reports, one for each line of its error.
pub data ConfigError : Type 0 where
  no_listener no_certificate no_upstream_host upstream_tls no_store_address
        skip_verify_without_tls :
      ConfigError
  addr_required mode_invalid duplicate_address incomplete_certificate milter_address :
      ℕ → ConfigError

abbrev pub report : Bool → ConfigError → List ConfigError
report test e = if test then e ∷ [] else []

unfoldable pub ends_with : Bytes → Bytes → Bool
ends_with suffix s = same (drop (length s - length suffix) s) suffix

abbrev pub is_listener_mode : TlsMode → Bool
is_listener_mode starttls = true
is_listener_mode implicit = true
is_listener_mode _ = false

abbrev pub is_upstream_mode : TlsMode → Bool
is_upstream_mode plain = true
is_upstream_mode m = is_listener_mode m

-- The loop over the listeners, from the addresses seen; a port 0 is never a duplicate.
unfoldable pub validate_listeners : List Bytes → ℕ → List Listener → List ConfigError
unfolding ends_with
validate_listeners seen i [] = []
validate_listeners seen i (l ∷ ls) =
    let any_port = ends_with (codes ":0") l.addr in
    report (is_empty l.addr) (addr_required i)
    ++ (report (not (is_listener_mode l.mode)) (mode_invalid i)
        ++ (report (not any_port && has l.addr seen) (duplicate_address i)
            ++ validate_listeners (if any_port then seen else add l.addr seen) (suc i) ls))

abbrev pub is_complete : CertificateRef → Bool
is_complete c =
    (not (is_empty c.cert_file) && not (is_empty c.key_file))
    || (not (is_empty c.cert_pem) && not (is_empty c.key_pem))

unfoldable pub validate_certificates : ℕ → List CertificateRef → List ConfigError
validate_certificates i [] = []
validate_certificates i (c ∷ cs) =
    report (not (is_complete c)) (incomplete_certificate i) ++ validate_certificates (suc i) cs

unfoldable pub validate_rate_limit : Option RateLimit → List ConfigError
validate_rate_limit none = []
validate_rate_limit (some r) =
    report (is_empty r.store.addresses) no_store_address
    ++ report (r.store.insecure_skip_verify && not r.store.tls) skip_verify_without_tls

-- Is the text at the front of the other?
unfoldable pub starts_with : Bytes → Bytes → Bool
starts_with [] s = true
starts_with (x ∷ p) [] = false
starts_with (x ∷ p) (y ∷ s) = x == y && starts_with p s

-- `strings.Contains`
unfoldable pub has_infix : Bytes → Bytes → Bool
unfolding starts_with
has_infix p [] = is_empty p
has_infix p (c ∷ s) = starts_with p (c ∷ s) || has_infix p s

pub data Network : Type 0 where
  tcp unix : Network

-- `ParseAddress`; `none` is its error.
unfoldable pub parse_address : Milter → Option (Network × Bytes)
unfolding starts_with has_infix
parse_address m =
    if starts_with (codes "tcp://") m.address
    then some (tcp, drop 6 m.address)
    else if starts_with (codes "unix://") m.address
    then some (unix, drop 7 m.address)
    else if has_infix (codes "://") m.address
    then none
    else if is_empty m.address
    then none
    else some (tcp, m.address)

abbrev pub is_none {ℓ} : {A : Type ℓ} → Option A → Bool
is_none none = true
is_none (some a) = false

unfoldable pub validate_milters : ℕ → List Milter → List ConfigError
validate_milters i [] = []
validate_milters i (m ∷ ms) =
    report (is_none (parse_address m)) (milter_address i) ++ validate_milters (suc i) ms

unfoldable pub validate : Config → List ConfigError
unfolding validate_listeners validate_certificates validate_rate_limit validate_milters
validate c =
    report (is_empty c.listeners) no_listener
    ++ (validate_listeners [] 0 c.listeners
        ++ (report (is_empty c.tls.certificates) no_certificate
            ++ (validate_certificates 0 c.tls.certificates
                ++ (report (is_empty c.upstream.host) no_upstream_host
                    ++ (report (not (is_upstream_mode c.upstream.tls)) upstream_tls
                        ++ (validate_rate_limit c.rate_limit ++ validate_milters 0 c.milters))))))
