-- ===== src/TlsStore/Tests.antt =====
-- Runs of the certificates by name, and their theorem at a concrete input.
use mailout_operator.Base.{List, [], ◌∷◌, Option, none, some, ◌≡◌, refl}
use mailout_operator.Text.{Bytes, codes, cut}
use mailout_operator.Config.{CertificateRef, TlsConfig}
use mailout_operator.TlsStore.{
  Certificate, CertStore, or_else, server_key, get_certificate, load_key_pair, add_certificates,
  new_cert_store, add_names, add_name, set_default, dns_names_of, wildcard_suffix,
}
use mailout_operator.TlsStore.Serving.{
  is_host, last_with, Loads, wildcard_with, get_certificate_serves,
}

-- A certificate for one name, which is its text.
abbrev parse_pair : Bytes → Bytes → Option Certificate
parse_pair cert key =
    some (record { dns_names = cert ∷ []; common_name = []; key_pair = (cert, key) })

abbrev read_file : Bytes → Option Bytes
read_file path = none

abbrev inlined : Bytes → CertificateRef
inlined name = record {
  name = name;
  cert_file = [];
  key_file = [];
  cert_pem = name;
  key_pem = codes "key";
}

abbrev config : TlsConfig
config = record {
  certificates = inlined (codes "mail.example.com") ∷ inlined (codes "*.example.com") ∷ [];
  default_certificate = codes "*.example.com";
}

abbrev made : Option CertStore → CertStore
made none = record { by_name = []; wildcards = []; default_crt = none }
made (some s) = s

abbrev store : CertStore
store = made (new_cert_store read_file parse_pair config)

get_certificate_serves_example :
    (cs : List Certificate) × Loads read_file parse_pair config.certificates cs
    × ((name : Bytes)
        → get_certificate store name
          ≡ or_else (last_with (is_host (server_key name)) cs) (
              or_else
                (wildcard_with read_file parse_pair cs (cut b'.' (server_key name)))
                store.default_crt))
unfolding new_cert_store add_certificates load_key_pair add_names add_name set_default dns_names_of
    wildcard_suffix
get_certificate_serves_example = get_certificate_serves read_file parse_pair config store refl
