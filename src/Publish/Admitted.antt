-- ===== src/Publish/Admitted.antt =====
-- A gateway that the webhook admits is published.
use mailout_operator.Base.{
  ℕ, Bool, true, false, not, ◌&&◌, List, [], ◌∷◌, ◌++◌, Option, none, some, ◌≡◌, inl, inr, refl,
  sym, subst, ◌∙◌, arith, leb, if◌then◌else◌, Bool-cases, is_empty, append-eq_nil,
}
use mailout_operator.Text.{Bytes, codes, same}
use mailout_operator.Config.{Config, validate, is_none}
use mailout_operator.Config
use mailout_operator.Api.{MailoutGateway}
use mailout_operator.Access.{Labelling}
use mailout_operator.Render.{Account, Input, gateway_config, is_some}
use mailout_operator.Render.Fit.{
  Sized, sort_sized, not_dropped, sizes_from, drop_from, drop_sized, fit_accounts, config_budget,
}
use mailout_operator.Collect.{SecretAnswer}
use mailout_operator.Webhook.{
  error_if, wrong_namespace, no_cert_manager, certificate_sources, validate_tls, validate_gateway,
}
use mailout_operator.Webhook.Admission.{no_error, admitted-validate}
use mailout_operator.Publish.{
  and_then, published, Writes, upstream_auth, ca_pem, rate_limit_secrets, resolve_secrets,
  metrics_token, certificate_ready, write_config, publish, publish_resolved, reconcile_gateway,
}

and_then-some {ℓ κ} :
    {A : Type ℓ} {B : Type κ} (o : Option A) (f : A → Option B) (b : B)
    → and_then o f ≡ some b
    → (a : A) × (o ≡ some a) × (f a ≡ some b)
and_then-some none f b e = cc
and_then-some (some a) f b e = (a, refl, e)

-- The input is about the gateway that the secrets were resolved for.
resolve_secrets-gateway :
    {Selector : Type 0} (get_secret : Bytes → Bytes → SecretAnswer) (namespace : Bytes)
    (gw : MailoutGateway Selector) (accounts : List Account) (input : Input Selector)
    → resolve_secrets get_secret namespace gw accounts ≡ some input
    → input.gateway ≡ gw
unfolding resolve_secrets
resolve_secrets-gateway get_secret namespace gw accounts input e =
    let (auth, upstream, more) =
      and_then-some (upstream_auth get_secret namespace gw.spec.upstream.auth_secret_ref) _ input
        e in
    let (ca, trusted, rest) =
      and_then-some (ca_pem get_secret namespace gw.spec.upstream.ca_secret_ref) _ input more in
    let (store, counted, made) =
      and_then-some (rate_limit_secrets get_secret namespace gw.spec.rate_limit) _ input rest in
    ground (arith, made)

module _ (config_size : Config → Option ℕ) (account_size : Config.Account → Option ℕ) where
  -- Validation says of what is left what it says of the configuration.
  abbrev Agrees : Config → Config × List Bytes → Type 0
  Agrees config left = validate left.0 ≡ validate config

  probe-Agrees :
      (config probe : Config) (names : List Bytes) (rest : Config × List Bytes) (budget : ℕ)
      (size : Option ℕ)
      → validate probe ≡ validate config
      → Agrees config rest
      → Agrees config (elim size [
        | none ↦ (config, [])
        | some n ↦ if leb n budget then (probe, names) else rest
      ])
  probe-Agrees config probe names rest budget none here there = refl
  probe-Agrees config probe names rest budget (some n) here there =
      elim (Bool-cases (leb n budget)) [ inl y ↦ rw y here | inr k ↦ rw k there ]

  drop_from-validate :
      (config : Config) (budget : ℕ) (order : List Sized) (dropped : List ℕ) (names : List Bytes)
      → validate (drop_from config_size account_size config budget dropped names order).0
        ≡ validate config
  unfolding drop_from validate
  drop_from-validate config budget [] dropped names = refl
  drop_from-validate config budget (c ∷ order) dropped names =
      let probe : Config = record config {
        accounts = not_dropped (c.index ∷ dropped) 0 config.accounts;
      } in
      probe-Agrees config probe (names ++ c.username ∷ []) _ budget (config_size probe) refl
        (drop_from-validate config budget order (c.index ∷ dropped) (names ++ c.username ∷ []))

  drop_sized-validate :
      (config : Config) (budget : ℕ) (order : Option (List Sized))
      → validate (drop_sized config_size account_size config budget order).0 ≡ validate config
  unfolding drop_sized
  drop_sized-validate config budget none = refl
  drop_sized-validate config budget (some order) =
      drop_from-validate config budget (sort_sized order) [] []

  -- Dropping accounts leaves what validation says as it is.
  pub fit_accounts-validate :
      (config : Config) (budget : ℕ)
      → validate (fit_accounts config_size account_size config budget).0 ≡ validate config
  unfolding fit_accounts
  fit_accounts-validate config budget =
      probe-Agrees config config []
        (drop_sized config_size account_size config budget
          (sizes_from config_size account_size 0 config.accounts))
        budget (config_size config) refl
        (drop_sized-validate config budget (sizes_from config_size account_size 0 config.accounts))

  -- A configuration without an error is written.
  publish-published :
      {Selector : Type 0} (cert_manager_available : Bool) (writes : Writes)
      (gw : MailoutGateway Selector) (config : Config)
      → validate config ≡ []
      → certificate_ready cert_manager_available writes gw ≡ true
      → writes.config_written ≡ true
      → ((c : Config) → is_none (config_size c) ≡ false)
      → let left = fit_accounts config_size account_size config config_budget in
        publish config_size account_size cert_manager_available writes gw config
        ≡ published left.0 left.1
  unfolding publish write_config
  publish-published cert_manager_available writes gw config valid ready written sized =
      rw
        (
          valid,
          ready,
          written,
          sized (fit_accounts config_size account_size config config_budget).0,
        )
        refl

-- cert-manager is there for an admitted gateway that needs it.
admitted-certificate_ready :
    {Selector : Type 0} (cert_manager_available : Bool) (writes : Writes)
    (gw : MailoutGateway Selector)
    → validate_tls cert_manager_available gw ≡ []
    → writes.certificate_written ≡ true
    → certificate_ready cert_manager_available writes gw ≡ true
unfolding validate_tls certificate_ready
admitted-certificate_ready cert_manager_available writes gw h certified =
    let sources =
      certificate_sources (not (is_empty gw.spec.tls.certificate_refs))
        (is_some gw.spec.tls.issuer_ref) in
    let manager =
      no_error (is_some gw.spec.tls.issuer_ref && not cert_manager_available) no_cert_manager
        (append-eq_nil _ _ (append-eq_nil sources _ h).1).0 in
    ground (arith, manager, certified)

-- A gateway in which the webhook finds no error, and which names an upstream host, is published in a
-- run in which its secrets resolve, there is a token, the sizes are known and the API server takes
-- the writes; and the dataplane finds no error in the published configuration, whichever accounts
-- were dropped from it.
pub admitted_gateway_published :
    {Selector Labels : Type 0} (cluster : Labelling Selector Labels)
    (config_size : Config → Option ℕ) (account_size : Config.Account → Option ℕ)
    (get_secret : Bytes → Bytes → SecretAnswer) (operator_namespace : Bytes)
    (cert_manager_available : Bool) (writes : Writes) (generated : Option Bytes)
    (gw : MailoutGateway Selector) (accounts : List Account) (input : Input Selector)
    (token : Bytes)
    → validate_gateway cluster operator_namespace cert_manager_available gw ≡ []
    → is_empty gw.spec.upstream.host ≡ false
    → resolve_secrets get_secret gw.namespace gw accounts ≡ some input
    → metrics_token (get_secret gw.namespace (gw.name ++ codes "-config")) generated ≡ some token
    → ((c : Config) → is_none (config_size c) ≡ false)
    → writes.certificate_written ≡ true
    → writes.config_written ≡ true
    → (config : Config) × (dropped : List Bytes) × (reconcile_gateway config_size account_size
          get_secret operator_namespace cert_manager_available writes generated gw
          (some accounts)
        ≡ published config dropped)
      × (validate config ≡ [])
unfolding reconcile_gateway publish_resolved validate_gateway
admitted_gateway_published cluster config_size account_size get_secret operator_namespace
      cert_manager_available writes generated gw accounts input token admitted host resolved
      has_token sized certified written =
    let here =
      no_error (not (same gw.namespace operator_namespace)) wrong_namespace
        (append-eq_nil _ _ admitted).0 in
    let tls =
      (append-eq_nil (validate_tls cert_manager_available gw) _
        (append-eq_nil (error_if (not (same gw.namespace operator_namespace)) wrong_namespace) _
          admitted).1).0 in
    let same_gw = resolve_secrets-gateway get_secret gw.namespace gw accounts input resolved in
    let config = gateway_config (record input { metrics_token = token }) in
    let valid : validate config ≡ [] =
      admitted-validate cluster operator_namespace cert_manager_available
        (record input { metrics_token = token })
        (subst (λ g. validate_gateway cluster operator_namespace cert_manager_available g ≡ [])
          (sym same_gw) admitted)
        (subst (λ g. is_empty g.spec.upstream.host ≡ false) (sym same_gw) host) in
    let left = fit_accounts config_size account_size config config_budget in
    (
      left.0,
      left.1,
      rw (here, resolved, has_token)
          (publish-published config_size account_size cert_manager_available writes gw config valid
            (admitted-certificate_ready cert_manager_available writes gw tls certified) written
            sized),
      fit_accounts-validate config_size account_size config config_budget ∙ valid,
    )
