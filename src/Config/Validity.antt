-- ===== src/Config/Validity.antt =====
-- `Validate`: what its tests ask for.
use mailout_operator.Base.{
  append-eq_nil, not, ℕ, suc, true, false, List, [], ◌∷◌, Option, none, some, ◌≡◌, ◌≢◌, ◌↔◌, ◌⊎◌,
  refl, arith, if◌then◌else◌, is_empty, All,
}
use mailout_operator.Text.{Bytes, has, add, codes}
use mailout_operator.Config.{
  report, no_listener, no_certificate, no_upstream_host, upstream_tls, Config, Listener,
  CertificateRef, Milter, RateLimit, is_listener_mode, is_upstream_mode, is_complete, ends_with,
  parse_address, validate_listeners, validate_certificates, validate_rate_limit, validate_milters,
  validate,
}

-- What the loop over the listeners tests, from the addresses seen.
abbrev pub AreListeners : List Bytes → List Listener → Type 0
AreListeners seen [] = Unit
AreListeners seen (l ∷ ls) =
    (is_empty l.addr ≡ false)
    × (is_listener_mode l.mode ≡ true)
    × ((ends_with (codes ":0") l.addr ≡ true) ⊎ (has l.addr seen ≡ false))
    × AreListeners (if ends_with (codes ":0") l.addr then seen else add l.addr seen) ls

abbrev pub IsRateLimit : Option RateLimit → Type 0
IsRateLimit none = Unit
IsRateLimit (some r) =
    (is_empty r.store.addresses ≡ false)
    × ((r.store.insecure_skip_verify ≡ false) ⊎ (r.store.tls ≡ true))

-- What the tests ask for, all of them.
pub record IsServable (c : Config) : Type 0 where
  pub some_listener : is_empty c.listeners ≡ false
  pub listeners_good : AreListeners [] c.listeners
  pub some_certificate : is_empty c.tls.certificates ≡ false
  pub certificates_good : All (λ r. is_complete r ≡ true) c.tls.certificates
  pub host_given : is_empty c.upstream.host ≡ false
  pub upstream_mode : is_upstream_mode c.upstream.tls ≡ true
  pub rate_limit_good : IsRateLimit c.rate_limit
  pub milters_good : All (λ m. parse_address m ≢ none) c.milters

validate_listeners_iff :
    (ls : List Listener) (seen : List Bytes) (i : ℕ)
    → (validate_listeners seen i ls ≡ []) ↔ AreListeners seen ls
unfolding validate_listeners
validate_listeners_iff [] seen i = (λ e. tt, λ a. refl)
validate_listeners_iff (l ∷ ls) seen i =
    let next = if ends_with (codes ":0") l.addr then seen else add l.addr seen in
    let ih = validate_listeners_iff ls next (suc i) in
    (
      λ e. (ground arith, ground arith, ground arith, ih.0 (ground arith)),
      λ a. ground (arith, ih.1 a.3),
    )

validate_certificates_iff :
    (cs : List CertificateRef) (i : ℕ)
    → (validate_certificates i cs ≡ []) ↔ All (λ r. is_complete r ≡ true) cs
unfolding validate_certificates
validate_certificates_iff [] i = (λ e. tt, λ a. refl)
validate_certificates_iff (c ∷ cs) i =
    let ih = validate_certificates_iff cs (suc i) in
    (λ e. (ground arith, ih.0 (ground arith)), λ a. ground (arith, ih.1 a.1))

validate_milters_iff :
    (ms : List Milter) (i : ℕ) → (validate_milters i ms ≡ []) ↔ All (λ m. parse_address m ≢ none) ms
unfolding validate_milters
validate_milters_iff [] i = (λ e. tt, λ a. refl)
validate_milters_iff (m ∷ ms) i =
    let ih = validate_milters_iff ms (suc i) in
    (λ e. (λ n. ground arith, ih.0 (ground arith)), λ a. ground (arith, ih.1 a.1))

validate_rate_limit_iff : (r : Option RateLimit) → (validate_rate_limit r ≡ []) ↔ IsRateLimit r
unfolding validate_rate_limit
validate_rate_limit_iff none = (λ e. tt, λ a. refl)
validate_rate_limit_iff (some r) = (λ e. (ground arith, ground arith), λ a. ground arith)

-- `Validate` reports nothing exactly when all its tests pass.
pub validate_iff : (c : Config) → (validate c ≡ []) ↔ IsServable c
unfolding validate
validate_iff c = (
  λ e.
      let a = append-eq_nil (report (is_empty c.listeners) no_listener) _ e in
      let b = append-eq_nil (validate_listeners [] 0 c.listeners) _ a.1 in
      let d = append-eq_nil (report (is_empty c.tls.certificates) no_certificate) _ b.1 in
      let f = append-eq_nil (validate_certificates 0 c.tls.certificates) _ d.1 in
      let g = append-eq_nil (report (is_empty c.upstream.host) no_upstream_host) _ f.1 in
      let h = append-eq_nil (report (not (is_upstream_mode c.upstream.tls)) upstream_tls) _ g.1 in
      let k = append-eq_nil (validate_rate_limit c.rate_limit) (validate_milters 0 c.milters) h.1 in
      record {
        some_listener = ground (arith, a.0);
        listeners_good = (validate_listeners_iff c.listeners [] 0).0 b.0;
        some_certificate = ground (arith, d.0);
        certificates_good = (validate_certificates_iff c.tls.certificates 0).0 f.0;
        host_given = ground (arith, g.0);
        upstream_mode = ground (arith, h.0);
        rate_limit_good = (validate_rate_limit_iff c.rate_limit).0 k.0;
        milters_good = (validate_milters_iff c.milters 0).0 k.1;
      },
  λ v. rw (
    v.some_listener,
    (validate_listeners_iff c.listeners [] 0).1 v.listeners_good,
    v.some_certificate,
    (validate_certificates_iff c.tls.certificates 0).1 v.certificates_good,
    v.host_given,
    v.upstream_mode,
    (validate_rate_limit_iff c.rate_limit).1 v.rate_limit_good,
    (validate_milters_iff c.milters 0).1 v.milters_good,
  ),
)
