-- ===== src/Api.antt =====
-- api/v1alpha1: the objects that users write. A label selector is a type parameter, since its
-- meaning is that of the Kubernetes libraries; the fields that only shape pods are left out.
pub mod Samples
use mailout_operator.Base.{
  ℕ, zero, suc, ◌+◌, ◌-◌, ◌*◌, ◌/◌, ◌%◌, ◌≤◌, ◌<◌, Bool, true, false, not, ◌&&◌, ◌||◌, List, [],
  ◌∷◌, ◌++◌, Option, none, some, ◌≡◌, ◌≢◌, ◌↔◌, ◌⊎◌, inl, inr, refl, sym, ap, subst, ◌∙◌, arith,
  ◌==◌, ltb, leb, if◌then◌else◌, Bool-cases, Option-cases, length, take, drop, is_empty, keep, All,
  Any, append-nil, append_assoc, length-append, some_of, some_of-or, some_of-Any, some_of-keep,
  some_of_mono, ==_iff, Any-append, All-append, All-map, All-keep, Any-elim, Any-map, All-Any, map,
  keep_ext, some_of-append, append-eq_nil,
}
use mailout_operator.Text.{Bytes}

pub record SecretKeySelector : Type 0 where
  pub name : Bytes
  pub key : Bytes

-- `TLSMode`, with the empty string and any other.
pub data TlsModeName : Type 0 where
  start_tls implicit_tls no_tls default_tls : TlsModeName
  other_tls : Bytes → TlsModeName

pub record DkimKeySpec : Type 0 where
  pub domain : Bytes
  pub selector : Bytes
  pub private_key_secret_ref : SecretKeySelector
  pub header_keys : List Bytes

pub record MilterSpec : Type 0 where
  pub name : Bytes
  pub address : Bytes
  pub fail_open : Bool
  pub timeout : Option ℕ

pub record RateLimitStoreTlsSpec : Type 0 where
  pub ca_secret_ref : Option SecretKeySelector
  pub insecure_skip_verify : Bool

pub record RateLimitStoreSpec : Type 0 where
  pub addresses : List Bytes
  pub master_name : Bytes
  pub db : ℕ
  pub auth_secret_ref : Option Bytes
  pub sentinel_auth_secret_ref : Option Bytes
  pub tls : Option RateLimitStoreTlsSpec
  pub timeout : Option ℕ

pub record RateLimitSpec : Type 0 where
  pub store : RateLimitStoreSpec
  pub messages_per_minute : Option ℕ
  pub recipients_per_minute : Option ℕ

pub record ListenerSpec : Type 0 where
  pub port : ℕ

pub record ListenersSpec : Type 0 where
  pub submission : Option ListenerSpec
  pub smtps : Option ListenerSpec

pub record IssuerReference : Type 0 where
  pub name : Bytes
  pub kind : Bytes
  pub group : Bytes

-- A reference to a local object is its name.
pub record GatewayTlsSpec : Type 0 where
  pub certificate_refs : List Bytes
  pub issuer_ref : Option IssuerReference
  pub dns_names : List Bytes
  pub default_certificate : Bytes

pub record UpstreamSpec : Type 0 where
  pub host : Bytes
  pub port : ℕ
  pub tls : TlsModeName
  pub auth_secret_ref : Option Bytes
  pub ca_secret_ref : Option SecretKeySelector
  pub insecure_skip_verify : Bool
  pub handles_dkim : Bool
  pub timeout : Option ℕ

-- `NamespacesFrom`, with the empty string and any other.
pub data NamespacesFrom : Type 0 where
  from_all from_same from_selector from_default : NamespacesFrom
  from_other : Bytes → NamespacesFrom

pub record AllowedAccountsSpec (Selector : Type 0) : Type 0 where
  pub namespaces : NamespacesFrom
  pub selector : Option Selector

pub record SenderGrantSpec (Selector : Type 0) : Type 0 where
  pub senders : List Bytes
  pub namespace_selector : Option Selector

pub record MailoutGatewaySpec (Selector : Type 0) : Type 0 where
  pub hostname : Bytes
  pub listeners : ListenersSpec
  pub tls : GatewayTlsSpec
  pub upstream : UpstreamSpec
  pub dkim : List DkimKeySpec
  pub milters : List MilterSpec
  pub allowed_accounts : AllowedAccountsSpec Selector
  pub allowed_senders : List (SenderGrantSpec Selector)
  pub rate_limit : Option RateLimitSpec

pub record MailoutGateway (Selector : Type 0) : Type 0 where
  pub namespace : Bytes
  pub name : Bytes
  pub spec : MailoutGatewaySpec Selector

pub record GatewayReference : Type 0 where
  pub name : Bytes
  pub namespace : Bytes

pub record MailoutAccountSpec : Type 0 where
  pub gateway_ref : GatewayReference
  pub username : Bytes
  pub secret_ref : Bytes
  pub rotation : Bytes
  pub allowed_senders : List Bytes
  pub enforce_header_from : Option Bool
  pub disabled : Bool

-- The reasons that an account's conditions have.
pub data ConditionReason : Type 0 where
  reason_accepted reason_gateway_not_found reason_namespace_not_allowed : ConditionReason
  reason_username_conflict reason_ready reason_disabled : ConditionReason

pub record Condition : Type 0 where
  pub holds : Bool
  pub reason : ConditionReason

-- The two conditions, of those that are set.
pub record MailoutAccountStatus : Type 0 where
  pub accepted : Option Condition
  pub ready : Option Condition
  pub username : Bytes
  pub secret_name : Bytes
  pub gateway : Bytes
  pub rotation_observed : Bytes

pub record MailoutAccount : Type 0 where
  pub namespace : Bytes
  pub name : Bytes
  pub uid : Bytes
  pub creation_timestamp : ℕ
  pub spec : MailoutAccountSpec
  pub status : MailoutAccountStatus
