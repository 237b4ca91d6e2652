-- ===== src/TlsStore.antt =====
-- internal/gateway/tlsstore.go: the certificates by server name. Reading a file and parsing a key pair
-- with its leaf certificate are parameters.
pub mod Serving
mod Tests
use mailout_operator.Base.{
  ℕ, zero, suc, ◌+◌, ◌-◌, ◌*◌, ◌≤◌, ◌<◌, Bool, true, false, not, ◌&&◌, ◌||◌, List, [], ◌∷◌, ◌++◌,
  Option, none, some, ◌≡◌, ◌≢◌, ◌↔◌, ◌⊎◌, inl, inr, refl, sym, ap, subst, ◌∙◌, arith, ◌==◌, ltb,
  leb, if◌then◌else◌, Bool-cases, Option-cases, length, take, drop, is_empty, keep, All, Any,
  append-nil, append_assoc, length-append, some_of, some_of-or, some_of-Any, some_of-keep,
  some_of_mono, ==_iff,
}
use mailout_operator.Text.{Bytes, same, to_lower, cut}
use mailout_operator.Config.{CertificateRef, TlsConfig}

-- A key pair, with what its leaf certificate says.
pub record Certificate : Type 0 where
  pub dns_names : List Bytes
  pub common_name : Bytes
  pub key_pair : Bytes × Bytes

pub record CertStore : Type 0 where
  pub by_name : List (Bytes × Certificate)
  pub wildcards : List (Bytes × Certificate)
  pub default_crt : Option Certificate

-- `m[key]`; a key that is set again stands in front.
unfoldable pub lookup : Bytes → List (Bytes × Certificate) → Option Certificate
lookup key [] = none
lookup key ((k, c) ∷ m) = if same k key then some c else lookup key m

-- `strings.CutPrefix(dnsName, "*.")`
unfoldable pub wildcard_suffix : Bytes → Option Bytes
wildcard_suffix [] = none
wildcard_suffix (c ∷ []) = none
wildcard_suffix (c ∷ d ∷ s) = if c == b'*' && d == b'.' then some s else none

-- `strings.TrimSuffix(name, ".")`
unfoldable pub trim_dot : Bytes → Bytes
trim_dot [] = []
trim_dot (c ∷ []) = if c == b'.' then [] else c ∷ []
trim_dot (c ∷ d ∷ s) = c ∷ trim_dot (d ∷ s)

-- `dnsNamesOf`
unfoldable pub dns_names_of : Certificate → List Bytes
dns_names_of leaf =
    if not (is_empty leaf.dns_names)
    then leaf.dns_names
    else if not (is_empty leaf.common_name)
    then leaf.common_name ∷ []
    else []

unfoldable pub add_name : Certificate → CertStore → Bytes → CertStore
unfolding wildcard_suffix
add_name cert s dns_name = elim (wildcard_suffix dns_name) [
  | some suffix ↦ record s { wildcards = (to_lower suffix, cert) ∷ s.wildcards }
  | none ↦ record s { by_name = (to_lower dns_name, cert) ∷ s.by_name }
]

unfoldable pub add_names : Certificate → CertStore → List Bytes → CertStore
unfolding add_name
add_names cert s [] = s
add_names cert s (d ∷ ds) = add_names cert (add_name cert s d) ds

-- The two tests on the default at the end of a round.
unfoldable pub set_default : Bytes → ℕ → CertificateRef → Certificate → CertStore → CertStore
set_default wanted i ref cert s =
    if i == 0 || not (is_empty wanted) && same ref.name wanted
    then record s { default_crt = some cert }
    else s

unfoldable pub or_else : Option Certificate → Option Certificate → Option Certificate
or_else (some c) other = some c
or_else none other = other

unfoldable pub wildcard_of : CertStore → Option (Bytes × Bytes) → Option Certificate
wildcard_of s none = none
wildcard_of s (some (host, parent)) = lookup parent s.wildcards

-- The name by which `getCertificate` looks.
unfoldable pub server_key : Bytes → Bytes
unfolding trim_dot
server_key server_name = to_lower (trim_dot server_name)

unfoldable pub get_certificate : CertStore → Bytes → Option Certificate
unfolding server_key lookup wildcard_of or_else
get_certificate s server_name =
    or_else (lookup (server_key server_name) s.by_name)
      (or_else (wildcard_of s (cut b'.' (server_key server_name))) s.default_crt)

module _ (read_file : Bytes → Option Bytes) (parse_pair : Bytes → Bytes → Option Certificate) where
  -- The files if a certificate file is named, the texts otherwise.
  unfoldable pub load_key_pair : CertificateRef → Option Certificate
  load_key_pair ref =
      if not (is_empty ref.cert_file)
      then elim (read_file ref.cert_file) [
        | none ↦ none
        | some cert ↦ elim (read_file ref.key_file) [ none ↦ none | some key ↦ parse_pair cert key ]
      ]
      else parse_pair ref.cert_pem ref.key_pem

  -- The loop of `newCertStore`; `none` is its error.
  unfoldable pub add_certificates : Bytes → ℕ → CertStore → List CertificateRef → Option CertStore
  unfolding load_key_pair add_names set_default dns_names_of
  add_certificates wanted i s [] = some s
  add_certificates wanted i s (ref ∷ refs) = elim (load_key_pair ref) [
    | none ↦ none
    | some cert ↦
        add_certificates wanted (suc i)
          (set_default wanted i ref cert (add_names cert s (dns_names_of cert))) refs
  ]

  abbrev pub empty_store : CertStore
  empty_store = record { by_name = []; wildcards = []; default_crt = none }

  unfoldable pub new_cert_store : TlsConfig → Option CertStore
  unfolding add_certificates
  new_cert_store cfg =
      if is_empty cfg.certificates
      then none
      else add_certificates cfg.default_certificate 0 empty_store cfg.certificates
