-- ===== src/Publish.antt =====
-- `Reconcile` of internal/controller/gateway_controller.go, up to the Secret that holds the configuration: the
-- credentials are resolved, and the configuration is rendered, checked, made to fit, and written. The
-- API server, the generator of passwords and the sizes of YAML texts are parameters.
pub mod Admitted
mod Tests
use mailout_operator.Base.{
  ℕ, zero, suc, ◌+◌, ◌-◌, ◌*◌, ◌/◌, ◌%◌, ◌≤◌, ◌<◌, Bool, true, false, not, ◌&&◌, ◌||◌, List, [],
  ◌∷◌, ◌++◌, Option, none, some, ◌≡◌, ◌≢◌, ◌↔◌, ◌⊎◌, inl, inr, refl, sym, ap, subst, ◌∙◌, arith,
  ◌==◌, ltb, leb, if◌then◌else◌, Bool-cases, Option-cases, length, take, drop, is_empty, keep, All,
  Any, append-nil, append_assoc, length-append, some_of, some_of-or, some_of-Any, some_of-keep,
  some_of_mono, ==_iff, Any-append, All-append, All-map, All-keep, Any-elim, Any-map, All-Any, map,
  keep_ext, some_of-append, append-eq_nil,
}
use mailout_operator.Text.{Bytes, codes, same}
use mailout_operator.Config.{Config, validate}
use mailout_operator.Config
use mailout_operator.Api.{MailoutGateway, SecretKeySelector, RateLimitSpec, RateLimitStoreTlsSpec}
use mailout_operator.Render.{Account, Input, RateLimitCredentials, gateway_config, is_some}
use mailout_operator.Render.Fit.{fit_accounts, config_budget}
use mailout_operator.Collect.{SecretAnswer, found, not_found, get_failed}

-- The next step, unless there is an error.
abbrev pub and_then {ℓ κ} : {A : Type ℓ} {B : Type κ} → Option A → (A → Option B) → Option B
and_then none f = none
and_then (some a) f = f a

-- A value that is empty is an error.
abbrev pub required : Bytes → Option Bytes
required value = if is_empty value then none else some value

-- A Secret that has to be there.
abbrev pub content_of : SecretAnswer → Option (Bytes → Bytes)
content_of (found read) = some read
content_of not_found = none
content_of get_failed = none

abbrev pub ca_key : Bytes → Bytes
ca_key key = if is_empty key then codes "ca.crt" else key

-- How a run ends, where the write of a status is left out: with a status that says why the gateway is not served, with an error, or with the
-- configuration in its Secret and the names of the accounts dropped.
pub data GatewayRun : Type 0 where
  invalid_spec secret_missing run_failed : GatewayRun
  published : Config → List Bytes → GatewayRun

module _ (get_secret : Bytes → Bytes → SecretAnswer) (namespace : Bytes) where
  unfoldable pub upstream_auth : Option Bytes → Option (Bytes × Bytes)
  upstream_auth none = some ([], [])
  upstream_auth (some name) = and_then (content_of (get_secret namespace name)) λ read.
      and_then (required (read (codes "username")))
        λ username. some (username, read (codes "password"))

  unfoldable pub ca_pem : Option SecretKeySelector → Option Bytes
  ca_pem none = some []
  ca_pem (some ref) =
      and_then (content_of (get_secret namespace ref.name)) λ read. required (read (ca_key ref.key))

  -- The function `read`.
  unfoldable pub store_auth : Option Bytes → Option (Bytes × Bytes)
  store_auth none = some ([], [])
  store_auth (some name) = and_then (content_of (get_secret namespace name)) λ read.
      and_then (required (read (codes "password")))
        λ password. some (read (codes "username"), password)

  abbrev pub store_ca_ref : Option RateLimitStoreTlsSpec → Option SecretKeySelector
  store_ca_ref none = none
  store_ca_ref (some tls) = tls.ca_secret_ref

  unfoldable pub rate_limit_secrets : Option RateLimitSpec → Option RateLimitCredentials
  unfolding store_auth ca_pem
  rate_limit_secrets none = some record {
    username = [];
    password = [];
    sentinel_username = [];
    sentinel_password = [];
    ca_pem = [];
  }
  rate_limit_secrets (some spec) = and_then (store_auth spec.store.auth_secret_ref) λ auth.
      and_then (store_auth spec.store.sentinel_auth_secret_ref) λ sentinel.
        and_then (ca_pem (store_ca_ref spec.store.tls)) λ ca. some record {
          username = auth.0;
          password = auth.1;
          sentinel_username = sentinel.0;
          sentinel_password = sentinel.1;
          ca_pem = ca;
        }

  -- `resolveSecrets`, into an input with these accounts, and no token yet.
  unfoldable pub resolve_secrets :
      {Selector : Type 0} → MailoutGateway Selector → List Account → Option (Input Selector)
  unfolding upstream_auth ca_pem rate_limit_secrets
  resolve_secrets gw accounts = and_then (upstream_auth gw.spec.upstream.auth_secret_ref) λ auth.
      and_then (ca_pem gw.spec.upstream.ca_secret_ref) λ ca.
        and_then (rate_limit_secrets gw.spec.rate_limit) λ store. some record {
          gateway = gw;
          accounts = accounts;
          upstream_username = auth.0;
          upstream_password = auth.1;
          upstream_ca_pem = ca;
          rate_limit_store = store;
          metrics_token = [];
        }

abbrev pub metrics_token_key : Bytes
metrics_token_key = codes "metricsToken"

-- `metricsToken`, with the answer about the Secret of the configuration.
unfoldable pub metrics_token : SecretAnswer → Option Bytes → Option Bytes
metrics_token get_failed generated = none
metrics_token not_found generated = generated
metrics_token (found read) generated =
    if is_empty (read metrics_token_key) then generated else some (read metrics_token_key)

-- The answers that a run gets when it writes the certificate and the configuration.
pub record Writes : Type 0 where
  pub certificate_written : Bool
  pub config_written : Bool

-- `reconcileCertificate`: does it end without an error?
unfoldable pub certificate_ready :
    {Selector : Type 0} → Bool → Writes → MailoutGateway Selector → Bool
certificate_ready cert_manager_available writes gw =
    not (is_some gw.spec.tls.issuer_ref) || (cert_manager_available && writes.certificate_written)

module _ (config_size : Config → Option ℕ) (account_size : Config.Account → Option ℕ) where
  -- `reconcileConfigSecret`
  unfoldable pub write_config : Writes → Config → GatewayRun
  unfolding fit_accounts
  write_config writes config =
      let (left, dropped) = fit_accounts config_size account_size config config_budget in
      if Config.is_none (config_size left)
      then run_failed
      else if not writes.config_written
      then run_failed
      else published left dropped

  unfoldable pub publish :
      {Selector : Type 0} → Bool → Writes → MailoutGateway Selector → Config → GatewayRun
  unfolding write_config validate certificate_ready
  publish cert_manager_available writes gw config =
      if not (is_empty (validate config))
      then invalid_spec
      else if not (certificate_ready cert_manager_available writes gw)
      then run_failed
      else write_config writes config

  -- From the token, and the other secrets, which are resolved before it.
  unfoldable pub publish_resolved :
      {Selector : Type 0}
      → Bool
      → Writes
      → MailoutGateway Selector
      → Option (Input Selector)
      → Option Bytes
      → GatewayRun
  unfolding publish gateway_config
  publish_resolved cert_manager_available writes gw none token = secret_missing
  publish_resolved cert_manager_available writes gw (some input) none = run_failed
  publish_resolved cert_manager_available writes gw (some input) (some token) =
      publish cert_manager_available writes gw
        (gateway_config (record input { metrics_token = token }))

  -- `Reconcile` of a gateway that there is, from the accounts that are collected.
  unfoldable pub reconcile_gateway :
      {Selector : Type 0}
      → (Bytes → Bytes → SecretAnswer)
      → Bytes
      → Bool
      → Writes
      → Option Bytes
      → MailoutGateway Selector
      → Option (List Account)
      → GatewayRun
  unfolding publish_resolved resolve_secrets metrics_token same
  reconcile_gateway get_secret operator_namespace cert_manager_available writes generated gw
        accounts =
      if not (same gw.namespace operator_namespace) then invalid_spec else elim accounts [
        | none ↦ run_failed
        | some list ↦
            publish_resolved cert_manager_available writes gw
              (resolve_secrets get_secret gw.namespace gw list)
              (metrics_token (get_secret gw.namespace (gw.name ++ codes "-config")) generated)
      ]
