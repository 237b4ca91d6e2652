-- ===== src/Webhook.antt =====
-- internal/webhook/v1alpha1: what is refused at admission, and what is admitted with a warning.
-- Mailout gateways here, accounts in Webhook.Accounts.
pub mod Addresses
pub mod Senders
pub mod Accounts
pub mod Admission
mod Tests
use mailout_operator.Base.{
  ℕ, zero, suc, ◌+◌, ◌-◌, ◌*◌, ◌/◌, ◌%◌, ◌≤◌, ◌<◌, Bool, true, false, not, ◌&&◌, ◌||◌, List, [],
  ◌∷◌, ◌++◌, Option, none, some, ◌≡◌, ◌≢◌, ◌↔◌, ◌⊎◌, inl, inr, refl, sym, ap, subst, ◌∙◌, arith,
  ◌==◌, ltb, leb, if◌then◌else◌, Bool-cases, Option-cases, length, take, drop, is_empty, keep, All,
  Any, append-nil, append_assoc, length-append, some_of, some_of-or, some_of-Any, some_of-keep,
  some_of_mono, ==_iff, Any-append, All-append, All-map, All-keep, Any-elim, All-Any, map, keep_ext,
  some_of-append,
}
use mailout_operator.Text.{
  Bytes, codes, same, has, add, to_lower, trim_space, cut, contains, equal_fold,
}
use mailout_operator.Config.{parse_address, is_none}
use mailout_operator.Config
use mailout_operator.Api.{
  MailoutGateway, GatewayTlsSpec, IssuerReference, ListenersSpec, ListenerSpec, MilterSpec,
  DkimKeySpec, SenderGrantSpec, RateLimitSpec, RateLimitStoreTlsSpec, AllowedAccountsSpec,
  NamespacesFrom, from_all, from_same, from_selector, from_default, from_other, UpstreamSpec,
  no_tls, start_tls, implicit_tls, default_tls, other_tls, TlsModeName,
}
use mailout_operator.Access.{Labelling}
use mailout_operator.Render.{is_some, port_or, default_submission_port, default_smtps_port}
use mailout_operator.Webhook.Senders.{SenderError, validate_allowed_senders}
use mailout_operator.Webhook.Addresses.{is_host_port, has_number_port}

-- The errors, with the place in a list where one stands.
pub data GatewayError : Type 0 where
  wrong_namespace : GatewayError
  two_certificate_sources no_certificate_source no_cert_manager no_dns_names unknown_default :
      GatewayError
  duplicate_certificate : ℕ → GatewayError
  shared_port submission_on_metrics_port smtps_on_metrics_port : GatewayError
  duplicate_milter milter_address : ℕ → GatewayError
  -- An error of the entries of a grant.
  in_grant : ℕ → SenderError → GatewayError
  no_addresses sentinel_auth_without_master : GatewayError
  not_host_port port_not_number : ℕ → GatewayError
  duplicate_domain no_private_key from_not_signed : ℕ → GatewayError
  grant_selector : ℕ → GatewayError
  selector_required : GatewayError

abbrev pub error_if : Bool → GatewayError → List GatewayError
error_if true e = e ∷ []
error_if false e = []

abbrev pub metrics_port : ℕ
metrics_port = 9090

unfoldable pub certificate_sources : Bool → Bool → List GatewayError
certificate_sources has_refs has_issuer =
    if has_refs && has_issuer
    then two_certificate_sources ∷ []
    else if not has_refs && not has_issuer
    then no_certificate_source ∷ []
    else []

unfoldable pub duplicate_certificates : List Bytes → ℕ → List Bytes → List GatewayError
duplicate_certificates seen i [] = []
duplicate_certificates seen i (ref ∷ refs) =
    error_if (has ref seen) (duplicate_certificate i)
    ++ duplicate_certificates (add ref seen) (suc i) refs

unfoldable pub validate_tls :
    Bool → {Selector : Type 0} → MailoutGateway Selector → List GatewayError
unfolding certificate_sources duplicate_certificates
validate_tls cert_manager_available gw =
    let tls = gw.spec.tls in
    certificate_sources (not (is_empty tls.certificate_refs)) (is_some tls.issuer_ref)
    ++ (error_if (is_some tls.issuer_ref && not cert_manager_available) no_cert_manager
        ++ (error_if
              (is_some tls.issuer_ref && (is_empty tls.dns_names && is_empty gw.spec.hostname))
              no_dns_names
            ++ (error_if
                  (not (is_empty tls.default_certificate)
                    && not (has tls.default_certificate tls.certificate_refs))
                  unknown_default
                ++ duplicate_certificates [] 0 tls.certificate_refs)))

unfoldable pub listener_port : ListenerSpec → ℕ → ℕ
listener_port spec def = if spec.port == 0 then def else spec.port

unfoldable pub share_port : Option ListenerSpec → Option ListenerSpec → Bool
unfolding listener_port
share_port none smtps = false
share_port (some l) none = false
share_port (some l) (some m) = listener_port l 587 == listener_port m 465

unfoldable pub on_metrics_port : Option ListenerSpec → ℕ → Bool
unfolding listener_port
on_metrics_port none def = false
on_metrics_port (some l) def = listener_port l def == metrics_port

unfoldable pub validate_listeners : ListenersSpec → List GatewayError
unfolding share_port on_metrics_port
validate_listeners spec =
    error_if (share_port spec.submission spec.smtps) shared_port
    ++ (error_if (on_metrics_port spec.submission 587) submission_on_metrics_port
        ++ error_if (on_metrics_port spec.smtps 465) smtps_on_metrics_port)

abbrev pub address_only : Bytes → Config.Milter
address_only address = record { name = []; address = address; fail_open = false; timeout = 0 }

unfoldable pub validate_milters : List Bytes → ℕ → List MilterSpec → List GatewayError
unfolding parse_address
validate_milters seen i [] = []
validate_milters seen i (m ∷ ms) =
    error_if (has m.name seen) (duplicate_milter i)
    ++ (error_if (is_none (parse_address (address_only m.address))) (milter_address i)
        ++ validate_milters (add m.name seen) (suc i) ms)

unfoldable pub validate_addresses : ℕ → List Bytes → List GatewayError
unfolding is_host_port has_number_port
validate_addresses i [] = []
validate_addresses i (addr ∷ addrs) =
    (if not (is_host_port addr)
      then not_host_port i ∷ []
      else error_if (not (has_number_port addr)) (port_not_number i))
    ++ validate_addresses (suc i) addrs

unfoldable pub validate_rate_limit : Option RateLimitSpec → List GatewayError
unfolding validate_addresses
validate_rate_limit none = []
validate_rate_limit (some spec) =
    error_if (is_empty spec.store.addresses) no_addresses
    ++ (validate_addresses 0 spec.store.addresses
        ++ error_if (is_some spec.store.sentinel_auth_secret_ref && is_empty spec.store.master_name)
            sentinel_auth_without_master)

-- `containsFold`
unfoldable pub contains_fold : List Bytes → Bytes → Bool
contains_fold values want = some_of (λ v. equal_fold v want) values

unfoldable pub validate_dkim : List Bytes → ℕ → List DkimKeySpec → List GatewayError
unfolding contains_fold
validate_dkim seen i [] = []
validate_dkim seen i (k ∷ ks) =
    let domain = to_lower k.domain in
    error_if (has domain seen) (duplicate_domain i)
    ++ (error_if (is_empty k.private_key_secret_ref.name) (no_private_key i)
        ++ (error_if
              (not (is_empty k.header_keys) && not (contains_fold k.header_keys (codes "From")))
              (from_not_signed i)
            ++ validate_dkim (add domain seen) (suc i) ks))

abbrev pub is_selector : NamespacesFrom → Bool
is_selector from_selector = true
is_selector from_all = false
is_selector from_same = false
is_selector from_default = false
is_selector (from_other s) = false

module _ {Selector Labels : Type 0} (cluster : Labelling Selector Labels) where
  unfoldable pub bad_selector : Option Selector → Bool
  bad_selector none = false
  bad_selector (some s) = is_none (cluster.as_selector s)

  unfoldable pub validate_sender_grants : ℕ → List (SenderGrantSpec Selector) → List GatewayError
  unfolding bad_selector validate_allowed_senders
  validate_sender_grants i [] = []
  validate_sender_grants i (grant ∷ grants) =
      map (in_grant i) (validate_allowed_senders [] 0 grant.senders)
      ++ (error_if (bad_selector grant.namespace_selector) (grant_selector i)
          ++ validate_sender_grants (suc i) grants)

  -- The errors of `validate`.
  unfoldable pub validate_gateway : Bytes → Bool → MailoutGateway Selector → List GatewayError
  unfolding validate_tls validate_milters validate_sender_grants validate_dkim validate_listeners
      validate_rate_limit
  validate_gateway operator_namespace cert_manager_available gw =
      error_if (not (same gw.namespace operator_namespace)) wrong_namespace
      ++ (validate_tls cert_manager_available gw
          ++ (validate_milters [] 0 gw.spec.milters
              ++ (validate_sender_grants 0 gw.spec.allowed_senders
                  ++ (validate_dkim [] 0 gw.spec.dkim
                      ++ (validate_listeners gw.spec.listeners
                          ++ (validate_rate_limit gw.spec.rate_limit
                              ++ error_if
                                  (is_selector gw.spec.allowed_accounts.namespaces
                                    && not (is_some gw.spec.allowed_accounts.selector))
                                  selector_required))))))

pub data GatewayWarning : Type 0 where
  nothing_granted upstream_in_clear upstream_not_verified keys_not_used : GatewayWarning
  no_limit fails_closed store_not_verified taken_for_cluster : GatewayWarning
  fails_open : ℕ → GatewayWarning

abbrev pub warn_if : Bool → GatewayWarning → List GatewayWarning
warn_if true w = w ∷ []
warn_if false w = []

abbrev pub is_no_tls : TlsModeName → Bool
is_no_tls no_tls = true
is_no_tls start_tls = false
is_no_tls implicit_tls = false
is_no_tls default_tls = false
is_no_tls (other_tls s) = false

abbrev pub skips_verify : Option RateLimitStoreTlsSpec → Bool
skips_verify none = false
skips_verify (some tls) = tls.insecure_skip_verify

unfoldable pub rate_limit_warnings : Option RateLimitSpec → List GatewayWarning
rate_limit_warnings none = []
rate_limit_warnings (some rl) =
    (if not (is_some rl.messages_per_minute) && not (is_some rl.recipients_per_minute)
      then no_limit ∷ []
      else fails_closed ∷ [])
    ++ (warn_if (skips_verify rl.store.tls) store_not_verified
        ++ warn_if (is_empty rl.store.master_name && ltb 1 (length rl.store.addresses))
            taken_for_cluster)

unfoldable pub milter_warnings : ℕ → List MilterSpec → List GatewayWarning
milter_warnings i [] = []
milter_warnings i (m ∷ ms) = warn_if m.fail_open (fails_open i) ++ milter_warnings (suc i) ms

-- The warnings of `validate`.
unfoldable pub gateway_warnings :
    {Selector : Type 0} → MailoutGateway Selector → List GatewayWarning
unfolding rate_limit_warnings milter_warnings
gateway_warnings gw =
    let upstream = gw.spec.upstream in
    warn_if (is_empty gw.spec.allowed_senders) nothing_granted
    ++ (warn_if (is_no_tls upstream.tls) upstream_in_clear
        ++ (warn_if upstream.insecure_skip_verify upstream_not_verified
            ++ (warn_if (upstream.handles_dkim && not (is_empty gw.spec.dkim)) keys_not_used
                ++ (rate_limit_warnings gw.spec.rate_limit ++ milter_warnings 0 gw.spec.milters))))
