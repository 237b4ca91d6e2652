-- ===== src/TlsStore/Serving.antt =====
-- Which certificate answers a server name.
use mailout_operator.Base.{
  ℕ, suc, Bool, true, false, ◌||◌, List, [], ◌∷◌, Option, none, some, ◌≡◌, inl, inr, refl, sym, ap,
  subst, ◌∙◌, arith, if◌then◌else◌, Option-cases, some_of,
}
use mailout_operator.Text.{Bytes, same, to_lower, cut}
use mailout_operator.Config.{CertificateRef, TlsConfig}
use mailout_operator.TlsStore.{
  Certificate, CertStore, lookup, wildcard_suffix, dns_names_of, add_name, add_names, set_default,
  or_else, wildcard_of, server_key, get_certificate, load_key_pair, add_certificates, empty_store,
  new_cert_store,
}

-- Whether a name of a certificate is this host name, and whether it is the wildcard for this parent.
abbrev pub is_host : Bytes → Bytes → Bool
is_host key d = elim (wildcard_suffix d) [ none ↦ same (to_lower d) key | some suffix ↦ false ]

abbrev pub is_wildcard : Bytes → Bytes → Bool
is_wildcard parent d = elim (wildcard_suffix d) [
  | none ↦ false
  | some suffix ↦ same (to_lower suffix) parent
]

-- The last certificate with a name that passes the test.
unfoldable pub last_with : (Bytes → Bool) → List Certificate → Option Certificate
last_with test [] = none
last_with test (c ∷ cs) =
    or_else (last_with test cs) (if some_of test (dns_names_of c) then some c else none)

abbrev when : Bool → Certificate → Option Certificate
when b c = if b then some c else none

or_else_assoc : (a b c : Option Certificate) → or_else (or_else a b) c ≡ or_else a (or_else b c)
unfolding or_else
or_else_assoc none b c = refl
or_else_assoc (some x) b c = refl

-- A name that is added is found first, in the map it belongs to.
lookup-add_name :
    (key : Bytes) (c : Certificate) (s : CertStore) (d : Bytes)
    → (lookup key (add_name c s d).by_name
        ≡ or_else (when (is_host key d) c) (lookup key s.by_name))
      × (lookup key (add_name c s d).wildcards
          ≡ or_else (when (is_wildcard key d) c) (lookup key s.wildcards))
unfolding add_name lookup or_else
lookup-add_name key c s d = (ground arith, ground arith)

when_or :
    (a b : Bool) (c : Certificate) (o : Option Certificate)
    → or_else (when b c) (or_else (when a c) o) ≡ or_else (when (a || b) c) o
unfolding or_else
when_or true true c o = refl
when_or true false c o = refl
when_or false true c o = refl
when_or false false c o = refl

lookup-add_names :
    (key : Bytes) (c : Certificate) (s : CertStore) (ds : List Bytes)
    → (lookup key (add_names c s ds).by_name
        ≡ or_else (when (some_of (is_host key) ds) c) (lookup key s.by_name))
      × (lookup key (add_names c s ds).wildcards
          ≡ or_else (when (some_of (is_wildcard key) ds) c) (lookup key s.wildcards))
unfolding add_names or_else
lookup-add_names key c s [] = (refl, refl)
lookup-add_names key c s (d ∷ ds) =
    let (host, wild) = lookup-add_names key c (add_name c s d) ds in
    let (one, two) = lookup-add_name key c s d in
    (
      host ∙ ap (or_else (when (some_of (is_host key) ds) c)) one ∙ when_or (is_host key d) _ c _,
      wild
          ∙ ap (or_else (when (some_of (is_wildcard key) ds) c)) two
          ∙ when_or (is_wildcard key d) _ c _,
    )

set_default-keeps :
    (wanted : Bytes) (i : ℕ) (ref : CertificateRef) (c : Certificate) (s : CertStore)
    → ((set_default wanted i ref c s).by_name ≡ s.by_name)
      × ((set_default wanted i ref c s).wildcards ≡ s.wildcards)
unfolding set_default
set_default-keeps wanted i ref c s = (ground arith, ground arith)

module _ (read_file : Bytes → Option Bytes) (parse_pair : Bytes → Bytes → Option Certificate) where
  -- All the references can be loaded, as these certificates.
  pub data Loads : List CertificateRef → List Certificate → Type 0 where
    no_more : Loads [] []
    load :
        {r : CertificateRef} {rs : List CertificateRef} {c : Certificate} {cs : List Certificate}
        → load_key_pair read_file parse_pair r ≡ some c
        → Loads rs cs
        → Loads (r ∷ rs) (c ∷ cs)

  abbrev Found : CertStore → CertStore → List Certificate → Type 0
  Found s t cs =
      (key : Bytes)
      → (lookup key t.by_name ≡ or_else (last_with (is_host key) cs) (lookup key s.by_name))
        × (lookup key t.wildcards
            ≡ or_else (last_with (is_wildcard key) cs) (lookup key s.wildcards))

  Found-more :
      (wanted : Bytes) (i : ℕ) (r : CertificateRef) (s t : CertStore) (c : Certificate)
      (cs : List Certificate)
      → Found (set_default wanted i r c (add_names c s (dns_names_of c))) t cs
      → Found s t (c ∷ cs)
  unfolding last_with
  Found-more wanted i r s t c cs f key =
      let u = add_names c s (dns_names_of c) in
      let (host, wild) = f key in
      let (names, parents) = lookup-add_names key c s (dns_names_of c) in
      let (kept, kept') = set_default-keeps wanted i r c u in
      (
        host
            ∙ ap (λ m. or_else (last_with (is_host key) cs) (lookup key m)) kept
            ∙ ap (or_else (last_with (is_host key) cs)) names
            ∙ sym (or_else_assoc (last_with (is_host key) cs) _ _),
        wild
            ∙ ap (λ m. or_else (last_with (is_wildcard key) cs) (lookup key m)) kept'
            ∙ ap (or_else (last_with (is_wildcard key) cs)) parents
            ∙ sym (or_else_assoc (last_with (is_wildcard key) cs) _ _),
      )

  add_certificates-Found :
      (wanted : Bytes) (i : ℕ) (s t : CertStore) (refs : List CertificateRef)
      → add_certificates read_file parse_pair wanted i s refs ≡ some t
      → (cs : List Certificate) × Loads refs cs × Found s t cs
  unfolding add_certificates or_else last_with
  add_certificates-Found wanted i s t [] h =
      let same_store : s ≡ t = ground arith in
      ([], no_more, subst (λ z. Found s z []) same_store (λ key. (refl, refl)))
  add_certificates-Found wanted i s t (r ∷ refs) h =
      elim (Option-cases (load_key_pair read_file parse_pair r)) [
        | inl n ↦ absurd (ground arith)
        | inr (c, n) ↦
            let (cs, loaded, f) =
              add_certificates-Found wanted (suc i)
                (set_default wanted i r c (add_names c s (dns_names_of c))) t refs (ground arith) in
            (c ∷ cs, load n loaded, Found-more wanted i r s t c cs f)
      ]

  -- The last certificate that holds the wildcard for what is behind the first dot.
  abbrev pub wildcard_with : List Certificate → Option (Bytes × Bytes) → Option Certificate
  wildcard_with cs none = none
  wildcard_with cs (some (host, parent)) = last_with (is_wildcard parent) cs

  -- In a store that was made from a configuration, all of whose certificates were then loaded, a
  -- server name is answered with the last certificate that holds the name, in any case and without a
  -- dot at its end; or else the last that holds the wildcard one label up; or else the default.
  pub get_certificate_serves :
      (cfg : TlsConfig) (s : CertStore)
      → new_cert_store read_file parse_pair cfg ≡ some s
      → (cs : List Certificate) × Loads cfg.certificates cs
        × ((name : Bytes)
            → get_certificate s name
              ≡ or_else
                  (last_with (is_host (server_key name)) cs)
                  (or_else (wildcard_with cs (cut b'.' (server_key name))) s.default_crt))
  unfolding new_cert_store get_certificate
  get_certificate_serves cfg s h =
      let (cs, loaded, f) =
        add_certificates-Found cfg.default_certificate 0 (empty_store read_file parse_pair) s
          cfg.certificates (ground arith) in
      (cs, loaded, λ name. serve cs f (server_key name) (cut b'.' (server_key name)))
    where
      or_none : (a : Option Certificate) → or_else a none ≡ a
      or_none none = refl
      or_none (some c) = refl

      serve :
          (cs : List Certificate)
          → Found (empty_store read_file parse_pair) s cs
          → (key : Bytes) (parts : Option (Bytes × Bytes))
          → or_else (lookup key s.by_name) (or_else (wildcard_of s parts) s.default_crt)
            ≡ or_else (last_with (is_host key) cs) (or_else (wildcard_with cs parts) s.default_crt)
      serve cs f key none = ap (λ o. or_else o (or_else none s.default_crt)) ((f key).0 ∙ or_none _)
      serve cs f key (some (host, parent)) =
          ap (λ o. or_else o (or_else (lookup parent s.wildcards) s.default_crt))
            ((f key).0 ∙ or_none _)
          ∙ ap (λ o. or_else (last_with (is_host key) cs) (or_else o s.default_crt))
              ((f parent).1 ∙ or_none _)
