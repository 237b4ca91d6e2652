-- ===== src/Provision.antt =====
-- internal/controller/account_controller.go: the controller of accounts, which provides each account
-- with a Secret that holds its credentials, and reports on it. The generator of passwords and the API
-- server are parameters.
pub mod Keeping
pub mod Settling
pub mod Partition
pub mod Served
mod Tests
use mailout_operator.Base.{
  ℕ, zero, suc, ◌+◌, ◌-◌, ◌*◌, ◌/◌, ◌%◌, ◌≤◌, ◌<◌, Bool, true, false, not, ◌&&◌, ◌||◌, List, [],
  ◌∷◌, ◌++◌, Option, none, some, ◌≡◌, ◌≢◌, ◌↔◌, ◌⊎◌, inl, inr, refl, sym, ap, subst, ◌∙◌, arith,
  ◌==◌, ltb, leb, if◌then◌else◌, Bool-cases, Option-cases, length, take, drop, is_empty, keep, All,
  Any, append-nil, append_assoc, length-append, some_of, some_of-or, some_of-Any, some_of-keep,
  some_of_mono, ==_iff, Any-append, All-append, All-map, All-keep, Any-elim, Any-map, All-Any, map,
  keep_ext, some_of-append, append-eq_nil,
}
use mailout_operator.Text.{Bytes, codes, same}
use mailout_operator.Config.{Config, TlsMode, starttls, usable_hash}
use mailout_operator.Api.{
  MailoutAccount, MailoutAccountStatus, MailoutGateway, Condition, ConditionReason, reason_accepted,
  reason_gateway_not_found, reason_namespace_not_allowed, reason_username_conflict, reason_ready,
  reason_disabled,
}
use mailout_operator.Access.{
  Labelling, GatewayAnswer, gateway_found, gateway_missing, gateway_failed, username_for,
  username_conflict, namespace_allowed,
}
use mailout_operator.Render.{Input, gateway_config}
use mailout_operator.Render.Endpoint.{Endpoint, gateway_endpoint}
use mailout_operator.Collect.{SecretAnswer, found, not_found, get_failed, password_hash_key}

abbrev pub username_key : Bytes
username_key = codes "username"

abbrev pub password_key : Bytes
password_key = codes "password"

-- What `AccountSecret` makes: the data, and the labels that depend on the account.
pub record AccountSecret : Type 0 where
  pub username : Bytes
  pub password : Bytes
  pub password_hash : Bytes
  pub endpoint : Endpoint
  pub account_label : Bytes
  pub gateway_name_label : Bytes
  pub gateway_namespace_label : Bytes

unfoldable pub account_secret :
    MailoutAccount → Bytes → Bytes → Bytes → Endpoint → Bytes → AccountSecret
account_secret account username password password_hash endpoint gateway_namespace = record {
  username = username;
  password = password;
  password_hash = password_hash;
  endpoint = endpoint;
  account_label = account.name;
  gateway_name_label = account.spec.gateway_ref.name;
  gateway_namespace_label = gateway_namespace;
}

-- The credentials by their keys; the keys of the endpoint are left out.
unfoldable pub secret_data : AccountSecret → Bytes → Bytes
unfolding same
secret_data s key =
    if same key username_key
    then s.username
    else if same key password_key
    then s.password
    else if same key password_hash_key
    then s.password_hash
    else []

abbrev pub empty_input : {Selector : Type 0} → MailoutGateway Selector → Input Selector
empty_input gw = record {
  gateway = gw;
  accounts = [];
  upstream_username = [];
  upstream_password = [];
  upstream_ca_pem = [];
  rate_limit_store = record {
    username = [];
    password = [];
    sentinel_username = [];
    sentinel_password = [];
    ca_pem = [];
  };
  metrics_token = [];
}

-- What a Secret holds, where one that is not there reads as empty; `none` is an error.
abbrev pub existing_data : SecretAnswer → Option (Bytes → Bytes)
existing_data (found read) = some read
existing_data not_found = some (λ key. [])
existing_data get_failed = none

-- The answers that one run of the controller gets.
pub record Answers (Selector : Type 0) : Type 0 where
  pub gateway : GatewayAnswer Selector
  pub accounts : Option (List MailoutAccount)
  -- A new password with its hash, `none` for an error.
  pub generated : Option (Bytes × Bytes)
  -- Are the Secret and the status taken?
  pub secret_written : Bool
  pub status_patched : Bool

-- What a run leaves: the Secret, the status, and whether it ends with an error.
pub record Provisioned : Type 0 where
  pub secret : SecretAnswer
  pub status : MailoutAccountStatus
  pub failed : Bool

unfoldable pub not_accepted : MailoutAccountStatus → ConditionReason → MailoutAccountStatus
not_accepted status reason = record status {
  accepted = some record { holds = false; reason = reason };
  ready = some record { holds = false; reason = reason };
}

unfoldable pub ready_status :
    {Selector : Type 0} → MailoutAccount → MailoutGateway Selector → Bytes → MailoutAccountStatus
ready_status account gw username = record {
  accepted = some record { holds = true; reason = reason_accepted };
  ready = some (
      if account.spec.disabled
      then record { holds = false; reason = reason_disabled }
      else record { holds = true; reason = reason_ready });
  username = username;
  secret_name = account.spec.secret_ref;
  gateway = gw.namespace ++ b'/' ∷ gw.name;
  rotation_observed = account.spec.rotation;
}

-- The patch of the status, with what is stored otherwise.
unfoldable pub patch_status :
    {Selector : Type 0}
    → Answers Selector
    → MailoutAccount
    → SecretAnswer
    → MailoutAccountStatus
    → Provisioned
patch_status answers account secret status =
    if answers.status_patched
    then record { secret = secret; status = status; failed = false }
    else record { secret = secret; status = account.status; failed = true }

abbrev pub failed_run : MailoutAccount → SecretAnswer → Provisioned
failed_run account secret = record { secret = secret; status = account.status; failed = true }

module _ {Selector Labels : Type 0} (cluster : Labelling Selector Labels) (cost : Bytes → Option ℕ)
    (operator_namespace : Bytes) where
  -- Is a password generated?
  unfoldable pub is_renewed : MailoutAccount → (Bytes → Bytes) → Bool
  unfolding usable_hash same
  is_renewed account read =
      (is_empty (read password_key) || is_empty (read password_hash_key))
      || (not (same account.status.rotation_observed account.spec.rotation)
          || not (usable_hash cost (read password_hash_key)))

  unfoldable pub credentials_of :
      MailoutAccount → (Bytes → Bytes) → Option (Bytes × Bytes) → Option (Bytes × Bytes)
  unfolding is_renewed
  credentials_of account read generated =
      if is_renewed account read
      then generated
      else some (read password_key, read password_hash_key)

  unfoldable pub written_secret :
      MailoutAccount
      → MailoutGateway Selector
      → Option (Bytes × Bytes)
      → Bool
      → Option AccountSecret
  unfolding account_secret gateway_endpoint gateway_config username_for
  written_secret account gw none taken = none
  written_secret account gw (some (password, hash)) taken =
      if taken
      then some (
          account_secret account (username_for account) password hash
            (gateway_endpoint gw (gateway_config (empty_input gw))) gw.namespace)
      else none

  unfoldable pub secret_from :
      MailoutAccount
      → MailoutGateway Selector
      → Answers Selector
      → Option (Bytes → Bytes)
      → Option AccountSecret
  unfolding credentials_of written_secret
  secret_from account gw answers none = none
  secret_from account gw answers (some read) =
      written_secret account gw (credentials_of account read answers.generated)
        answers.secret_written

  -- `reconcileSecret`; `none` is an error.
  unfoldable pub reconcile_secret :
      MailoutAccount
      → MailoutGateway Selector
      → Answers Selector
      → SecretAnswer
      → Option AccountSecret
  unfolding secret_from
  reconcile_secret account gw answers stored = secret_from account gw answers (existing_data stored)

  unfoldable pub provision :
      MailoutAccount
      → MailoutGateway Selector
      → Answers Selector
      → SecretAnswer
      → Option AccountSecret
      → Provisioned
  unfolding patch_status ready_status secret_data
  provision account gw answers stored none = failed_run account stored
  provision account gw answers stored (some secret) =
      patch_status answers account (found (secret_data secret))
        (ready_status account gw (username_for account))

  unfoldable pub reconcile_named :
      MailoutAccount
      → MailoutGateway Selector
      → Answers Selector
      → SecretAnswer
      → Option (List MailoutAccount)
      → Provisioned
  unfolding provision reconcile_secret patch_status not_accepted
  reconcile_named account gw answers stored none = failed_run account stored
  reconcile_named account gw answers stored (some items) =
      elim (username_conflict operator_namespace gw (username_for account) account items) [
        | some holder ↦
            patch_status answers account stored
              (not_accepted account.status reason_username_conflict)
        | none ↦ provision account gw answers stored (reconcile_secret account gw answers stored)
      ]

  unfoldable pub reconcile_allowed :
      MailoutAccount
      → MailoutGateway Selector
      → Answers Selector
      → SecretAnswer
      → Option Bool
      → Provisioned
  unfolding reconcile_named
  reconcile_allowed account gw answers stored none = failed_run account stored
  reconcile_allowed account gw answers stored (some false) =
      patch_status answers account stored (not_accepted account.status reason_namespace_not_allowed)
  reconcile_allowed account gw answers stored (some true) =
      reconcile_named account gw answers stored answers.accounts

  unfoldable pub reconcile_from :
      MailoutAccount → Answers Selector → SecretAnswer → GatewayAnswer Selector → Provisioned
  unfolding reconcile_allowed namespace_allowed
  reconcile_from account answers stored gateway_failed = failed_run account stored
  reconcile_from account answers stored gateway_missing =
      patch_status answers account stored (not_accepted account.status reason_gateway_not_found)
  reconcile_from account answers stored (gateway_found gw) =
      reconcile_allowed account gw answers stored (namespace_allowed cluster gw account.namespace)

  -- `Reconcile` of an account that there is, from its Secret.
  unfoldable pub reconcile_account : MailoutAccount → Answers Selector → SecretAnswer → Provisioned
  unfolding reconcile_from
  reconcile_account account answers stored = reconcile_from account answers stored answers.gateway

  -- A row of runs on one account, whose specification stays as it is.
  unfoldable pub run_all :
      MailoutAccount → SecretAnswer → List (Answers Selector) → MailoutAccount × SecretAnswer
  unfolding reconcile_account
  run_all account stored [] = (account, stored)
  run_all account stored (answers ∷ runs) =
      let left = reconcile_account account answers stored in
      run_all (record account { status = left.status }) left.secret runs
