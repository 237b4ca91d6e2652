-- ===== src/Webhook/Admission.antt =====
-- What the webhook admits, the dataplane accepts.
use mailout_operator.Base.{
  append-eq_nil, ℕ, suc, Bool, true, false, not, List, [], ◌∷◌, ◌++◌, Option, none, some, ◌≡◌, ◌≢◌,
  ◌⊎◌, inl, inr, refl, ap, ◌∙◌, arith, ◌==◌, if◌then◌else◌, Bool-cases, drop, is_empty, All, map,
}
use mailout_operator.Text.{
  has-add, Bytes, codes, same, same_iff, has, add, decimal, decimal-injective,
}
use mailout_operator.Config.{
  RateLimitStore, is_complete, is_none, parse_address, is_upstream_mode, ends_with, validate,
}
use mailout_operator.Config.Validity.{AreListeners, IsRateLimit, validate_iff}
use mailout_operator.Api.{
  GatewayTlsSpec, ListenersSpec, ListenerSpec, MilterSpec, RateLimitSpec, RateLimitStoreTlsSpec,
  TlsModeName, start_tls, implicit_tls, no_tls, default_tls, other_tls,
}
use mailout_operator.Access.{Labelling}
use mailout_operator.Render.{
  render_upstream, Input, RateLimitCredentials, gateway_config, render_listeners, smtps_listener,
  submission_port, is_some, secret_names_of, certificate_ref, join_path, certificate_mount_path,
  render_milter, render_rate_limit, store_with_tls, upstream_tls_mode, render_tls,
  certificate_secret_names,
}
use mailout_operator.Webhook.{
  validate_sender_grants, validate_dkim, shared_port, milter_address, no_addresses,
  duplicate_milter, GatewayError, error_if, certificate_sources, validate_tls, validate_milters,
  validate_rate_limit, validate_listeners, share_port, listener_port, address_only,
  validate_gateway,
}

join_path-nonempty :
    (dir : Bytes) (c : ℕ) (name : Bytes) → is_empty (join_path dir (c ∷ name)) ≡ false
unfolding join_path
join_path-nonempty [] c name = refl
join_path-nonempty (d ∷ dir) c name = refl

certificate_refs_complete :
    (names : List Bytes) → All (λ r. is_complete r ≡ true) (map certificate_ref names)
unfolding certificate_ref
certificate_refs_complete [] = tt
certificate_refs_complete (n ∷ names) = (
  ground (
    arith,
    join_path-nonempty (certificate_mount_path n) b't' (codes "ls.crt"),
    join_path-nonempty (certificate_mount_path n) b't' (codes "ls.key"),
  ),
  certificate_refs_complete names,
)

secret_names_of-nonempty :
    (tls : GatewayTlsSpec) (name : Bytes)
    → certificate_sources (not (is_empty tls.certificate_refs)) (is_some tls.issuer_ref) ≡ []
    → is_empty (map certificate_ref (secret_names_of tls name)) ≡ false
unfolding certificate_sources secret_names_of
secret_names_of-nonempty tls name h = go tls.certificate_refs (is_some tls.issuer_ref) h
  where
    go :
        (refs : List Bytes) (issued : Bool)
        → certificate_sources (not (is_empty refs)) issued ≡ []
        → is_empty (
            map certificate_ref (
              if not (is_empty refs)
              then refs
              else if issued
              then (name ++ codes "-tls") ∷ []
              else []))
          ≡ false
    go [] true e = refl
    go [] false e = cc
    go (r ∷ refs) issued e = refl

no_error-some {ℓ} :
    {A : Type ℓ} (o : Option A) (e : GatewayError) → error_if (is_none o) e ≡ [] → o ≢ none
no_error-some none e h p = cc
no_error-some (some a) e h p = cc

pub no_error : (test : Bool) (e : GatewayError) → error_if test e ≡ [] → test ≡ false
no_error true e h = cc
no_error false e h = refl

admitted_milters :
    (ms : List MilterSpec) (seen : List Bytes) (i : ℕ)
    → validate_milters seen i ms ≡ []
    → All (λ m. parse_address m ≢ none) (map render_milter ms)
unfolding validate_milters render_milter parse_address
admitted_milters [] seen i h = tt
admitted_milters (m ∷ ms) seen i h =
    let first = append-eq_nil (error_if (has m.name seen) (duplicate_milter i)) _ h in
    let second =
      append-eq_nil (error_if (is_none (parse_address (address_only m.address))) (milter_address i))
        _ first.1 in
    (
      no_error-some (parse_address (render_milter m)) (milter_address i) second.0,
      admitted_milters ms (add m.name seen) (suc i) second.1,
    )

admitted_store :
    (tls : Option RateLimitStoreTlsSpec) (ca_pem : Bytes) (store : RateLimitStore)
    → store.insecure_skip_verify ≡ false
    → let rendered = store_with_tls tls ca_pem store in
      (rendered.addresses ≡ store.addresses)
      × ((rendered.insecure_skip_verify ≡ false) ⊎ (rendered.tls ≡ true))
unfolding store_with_tls
admitted_store none ca_pem store h = (refl, inl h)
admitted_store (some tls) ca_pem store h = (refl, inr refl)

admitted-IsRateLimit :
    (spec : Option RateLimitSpec) (creds : RateLimitCredentials)
    → validate_rate_limit spec ≡ []
    → IsRateLimit (render_rate_limit spec creds)
unfolding validate_rate_limit render_rate_limit
admitted-IsRateLimit none creds h = tt
admitted-IsRateLimit (some spec) creds h =
    let store = admitted_store spec.store.tls creds.ca_pem _ refl in
    (ap is_empty store.0 ∙ no_error _ no_addresses (append-eq_nil _ _ h).0, store.1)

-- Addresses of distinct ports are not duplicates.
ports_apart :
    (p q : ℕ) (any_port : Bool)
    → (p == q) ≡ false
    → has (b':' ∷ decimal q) (if any_port then [] else add (b':' ∷ decimal p) []) ≡ false
unfolding has
ports_apart p q true h = refl
ports_apart p q false h = elim (Bool-cases (same (b':' ∷ decimal p) (b':' ∷ decimal q))) [
  | inl equal ↦
      let ports =
        decimal-injective p q
          (ap (drop 1) ((same_iff (b':' ∷ decimal p) (b':' ∷ decimal q)).0 equal)) in
      ground (arith, ports)
  | inr apart ↦ has-add (b':' ∷ decimal q) (b':' ∷ decimal p) [] ∙ ground (arith, apart)
]

admitted_listeners :
    (submission smtps : Option ListenerSpec)
    → let spec : ListenersSpec = record { submission = submission; smtps = smtps } in
      validate_listeners spec ≡ []
      → (is_empty (render_listeners spec) ≡ false) × AreListeners [] (render_listeners spec)
unfolding validate_listeners render_listeners smtps_listener submission_port has share_port
    listener_port
admitted_listeners none none h = (refl, (refl, refl, inr refl, tt))
admitted_listeners (some l) none h = (refl, (refl, refl, inr refl, tt))
admitted_listeners none (some m) h = (refl, (refl, refl, inr refl, tt))
admitted_listeners (some l) (some m) h =
    let p = listener_port l 587 in
    let apart =
      ports_apart p (listener_port m 465) (ends_with (codes ":0") (b':' ∷ decimal p))
        (no_error _ shared_port (append-eq_nil _ _ h).0) in
    (refl, (refl, refl, inr refl, (refl, refl, inr apart, tt)))

admitted_upstream : (mode : TlsModeName) → is_upstream_mode (upstream_tls_mode mode) ≡ true
unfolding upstream_tls_mode
admitted_upstream start_tls = refl
admitted_upstream implicit_tls = refl
admitted_upstream no_tls = refl
admitted_upstream default_tls = refl
admitted_upstream (other_tls s) = refl

module _ {Selector Labels : Type 0} (cluster : Labelling Selector Labels) where
  -- A gateway in which the webhook finds no error, and which names an upstream host, renders to a
  -- configuration in which the dataplane finds no error, whatever the accounts and the credentials
  -- are.
  pub admitted-validate :
      (operator_namespace : Bytes) (cert_manager_available : Bool) (input : Input Selector)
      → validate_gateway cluster operator_namespace cert_manager_available input.gateway ≡ []
      → is_empty input.gateway.spec.upstream.host ≡ false
      → validate (gateway_config input) ≡ []
  unfolding validate_gateway validate_tls gateway_config render_tls render_upstream
      certificate_secret_names
  admitted-validate operator_namespace cert_manager_available input h host =
      let gw = input.gateway in
      let tls = append-eq_nil (validate_tls cert_manager_available gw) _ (append-eq_nil _ _ h).1 in
      let sources =
        append-eq_nil
          (certificate_sources (not (is_empty gw.spec.tls.certificate_refs))
            (is_some gw.spec.tls.issuer_ref))
          _ tls.0 in
      let milters = append-eq_nil (validate_milters [] 0 gw.spec.milters) _ tls.1 in
      let grants =
        append-eq_nil (validate_sender_grants cluster 0 gw.spec.allowed_senders) _ milters.1 in
      let dkim = append-eq_nil (validate_dkim [] 0 gw.spec.dkim) _ grants.1 in
      let listeners = append-eq_nil (validate_listeners gw.spec.listeners) _ dkim.1 in
      let rate_limit = append-eq_nil (validate_rate_limit gw.spec.rate_limit) _ listeners.1 in
      let listening =
        admitted_listeners gw.spec.listeners.submission gw.spec.listeners.smtps listeners.0 in
      (validate_iff (gateway_config input)).1 record {
        some_listener = listening.0;
        listeners_good = listening.1;
        some_certificate = secret_names_of-nonempty gw.spec.tls gw.name sources.0;
        certificates_good = certificate_refs_complete (secret_names_of gw.spec.tls gw.name);
        host_given = host;
        upstream_mode = admitted_upstream gw.spec.upstream.tls;
        rate_limit_good =
            admitted-IsRateLimit gw.spec.rate_limit input.rate_limit_store rate_limit.0;
        milters_good = admitted_milters gw.spec.milters [] 0 milters.0;
      }
