-- ===== src/Config/Requirements.antt =====
-- `Validate`: what a configuration needs, described without the tests of the code.
use mailout_operator.Base.{
  true, false, not, List, [], ◌∷◌, Option, none, some, ◌≡◌, ◌≢◌, ◌↔◌, ◌⊎◌, inl, inr, refl, sym, ap,
  subst, arith, Bool-cases, true-ne-false, is_empty, All, All-map, ◌&&◌,
}
use mailout_operator.Text.{Bytes, codes, has, add, same, same_iff, has-add}
use mailout_operator.Config.{
  Config, Listener, CertificateRef, Milter, RateLimit, TlsMode, starttls, implicit, plain, unset,
  other, is_listener_mode, is_upstream_mode, is_complete, ends_with, starts_with, has_infix,
  parse_address, validate,
}
use mailout_operator.Config.Texts.{
  IsPrefix, IsSuffix, IsInfix, starts_with_iff, ends_with_iff, has_infix_iff,
}
use mailout_operator.Config.Validity.{AreListeners, IsRateLimit, validate_iff}

-- The address asks for any free port.
abbrev pub IsAnyPort : Bytes → Type 0
IsAnyPort addr = IsSuffix (codes ":0") addr

-- Two listeners have one address only when it asks for any port.
abbrev pub AreApart : List Listener → Type 0
AreApart [] = Unit
AreApart (l ∷ ls) = All (λ m. l.addr ≡ m.addr → IsAnyPort l.addr) ls × AreApart ls

abbrev pub IsListenerMode : TlsMode → Type 0
IsListenerMode m = (m ≡ starttls) ⊎ (m ≡ implicit)

abbrev pub IsUpstreamMode : TlsMode → Type 0
IsUpstreamMode m = (m ≡ plain) ⊎ IsListenerMode m

-- A certificate with its key, both from files or both inline.
abbrev pub IsPair : CertificateRef → Type 0
IsPair c = ((c.cert_file ≢ []) × (c.key_file ≢ [])) ⊎ ((c.cert_pem ≢ []) × (c.key_pem ≢ []))

abbrev pub IsStore : Option RateLimit → Type 0
IsStore none = Unit
IsStore (some r) =
    (r.store.addresses ≢ []) × (r.store.insecure_skip_verify ≡ true → r.store.tls ≡ true)

-- The address of a milter: with one of the two known schemes, or with none, and then not empty.
abbrev pub IsMilterAddress : Bytes → Type 0
IsMilterAddress a =
    IsPrefix (codes "tcp://") a
    ⊎ (IsPrefix (codes "unix://") a ⊎ ((a ≢ []) × (¬ IsInfix (codes "://") a)))

pub record IsSound (c : Config) : Type 0 where
  pub some_listener : c.listeners ≢ []
  pub addresses_given : All (λ l. l.addr ≢ []) c.listeners
  pub modes_known : All (λ l. IsListenerMode l.mode) c.listeners
  pub addresses_apart : AreApart c.listeners
  pub some_certificate : c.tls.certificates ≢ []
  pub pairs : All IsPair c.tls.certificates
  pub host_given : c.upstream.host ≢ []
  pub upstream_mode : IsUpstreamMode c.upstream.tls
  pub store_given : IsStore c.rate_limit
  pub milter_addresses : All (λ m. IsMilterAddress m.address) c.milters

is_empty_iff {ℓ} : {A : Type ℓ} (xs : List A) → (is_empty xs ≡ false) ↔ (xs ≢ [])
is_empty_iff [] = (λ h. absurd (ground arith), λ h. absurd (h refl))
is_empty_iff (x ∷ xs) = (λ h e. absurd (ground arith), λ h. refl)

is_listener_mode-IsListenerMode : (m : TlsMode) → is_listener_mode m ≡ true → IsListenerMode m
is_listener_mode-IsListenerMode starttls h = inl refl
is_listener_mode-IsListenerMode implicit h = inr refl
is_listener_mode-IsListenerMode plain h = cc
is_listener_mode-IsListenerMode unset h = cc
is_listener_mode-IsListenerMode (other b) h = cc

is_listener_mode_iff : (m : TlsMode) → (is_listener_mode m ≡ true) ↔ IsListenerMode m
is_listener_mode_iff m = (
  is_listener_mode-IsListenerMode m,
  λ h. elim h [ inl e ↦ ap is_listener_mode e | inr e ↦ ap is_listener_mode e ],
)

is_upstream_mode-IsUpstreamMode : (m : TlsMode) → is_upstream_mode m ≡ true → IsUpstreamMode m
is_upstream_mode-IsUpstreamMode starttls h = inr (inl refl)
is_upstream_mode-IsUpstreamMode implicit h = inr (inr refl)
is_upstream_mode-IsUpstreamMode plain h = inl refl
is_upstream_mode-IsUpstreamMode unset h = cc
is_upstream_mode-IsUpstreamMode (other b) h = cc

is_upstream_mode_iff : (m : TlsMode) → (is_upstream_mode m ≡ true) ↔ IsUpstreamMode m
is_upstream_mode_iff m = (
  is_upstream_mode-IsUpstreamMode m,
  λ h. elim h [
    | inl e ↦ ap is_upstream_mode e
    | inr (inl e) ↦ ap is_upstream_mode e
    | inr (inr e) ↦ ap is_upstream_mode e
  ],
)

is_complete_iff : (c : CertificateRef) → (is_complete c ≡ true) ↔ IsPair c
is_complete_iff c =
    let cf = is_empty_iff c.cert_file in
    let kf = is_empty_iff c.key_file in
    let cp = is_empty_iff c.cert_pem in
    let kp = is_empty_iff c.key_pem in
    (
      λ h. elim (Bool-cases (not (is_empty c.cert_file) && not (is_empty c.key_file))) [
        | inl y ↦ inl (cf.0 (ground arith), kf.0 (ground arith))
        | inr n ↦ inr (cp.0 (ground arith), kp.0 (ground arith))
      ],
      λ h. elim h [
        | inl (a, b) ↦ ground (arith, cf.1 a, kf.1 b)
        | inr (a, b) ↦ ground (arith, cp.1 a, kp.1 b)
      ],
    )

IsRateLimit-IsStore : (r : Option RateLimit) → IsRateLimit r ↔ IsStore r
IsRateLimit-IsStore none = (λ h. h, λ h. h)
IsRateLimit-IsStore (some r) = (
  λ (given, safe). (
    (is_empty_iff r.store.addresses).0 given,
    λ skips. elim safe [ inl e ↦ absurd (ground arith) | inr e ↦ e ],
  ),
  λ (given, safe). (
    (is_empty_iff r.store.addresses).1 given,
    elim (Bool-cases r.store.insecure_skip_verify) [ inl y ↦ inr (safe y) | inr n ↦ inl n ],
  ),
)

parse_address-IsMilterAddress : (m : Milter) → parse_address m ≢ none → IsMilterAddress m.address
unfolding parse_address
parse_address-IsMilterAddress m h = elim (Bool-cases (starts_with (codes "tcp://") m.address)) [
  | inl y ↦ inl ((starts_with_iff (codes "tcp://") m.address).0 y)
  | inr n ↦ elim (Bool-cases (starts_with (codes "unix://") m.address)) [
    | inl y2 ↦ inr (inl ((starts_with_iff (codes "unix://") m.address).0 y2))
    | inr n2 ↦ elim (Bool-cases (has_infix (codes "://") m.address)) [
      | inl y3 ↦ absurd (h (ground arith))
      | inr n3 ↦ elim (Bool-cases (is_empty m.address)) [
        | inl y4 ↦ absurd (h (ground arith))
        | inr n4 ↦ inr (
            inr (
              (is_empty_iff m.address).0 n4,
              λ i. absurd (ground (arith, (has_infix_iff (codes "://") m.address).1 i)),
            ))
      ]
    ]
  ]
]

-- What an address that is not taken is like.
parse_address-none :
    (m : Milter)
    → parse_address m ≡ none
    → (starts_with (codes "tcp://") m.address ≡ false)
      × (starts_with (codes "unix://") m.address ≡ false)
      × ((has_infix (codes "://") m.address ≡ true) ⊎ (is_empty m.address ≡ true))
unfolding parse_address
parse_address-none m h = elim (Bool-cases (starts_with (codes "tcp://") m.address)) [
  | inl y ↦ absurd (ground arith)
  | inr n ↦ elim (Bool-cases (starts_with (codes "unix://") m.address)) [
    | inl y2 ↦ absurd (ground arith)
    | inr n2 ↦ elim (Bool-cases (has_infix (codes "://") m.address)) [
      | inl y3 ↦ (n, n2, inl y3)
      | inr n3 ↦ (n, n2, inr (ground arith))
    ]
  ]
]

IsMilterAddress-parse_address : (m : Milter) → IsMilterAddress m.address → parse_address m ≢ none
IsMilterAddress-parse_address m (inl i) n =
    true-ne-false ((starts_with_iff (codes "tcp://") m.address).1 i) (parse_address-none m n).0
IsMilterAddress-parse_address m (inr (inl i)) n =
    true-ne-false ((starts_with_iff (codes "unix://") m.address).1 i) (parse_address-none m n).1
IsMilterAddress-parse_address m (inr (inr (given, no_scheme))) n = elim (parse_address-none m n).2 [
  | inl y ↦ no_scheme ((has_infix_iff (codes "://") m.address).0 y)
  | inr e ↦ true-ne-false e ((is_empty_iff m.address).1 given)
]

-- No listener that has a fixed port has an address that was seen.
abbrev AreNew : List Bytes → List Listener → Type 0
AreNew seen ls = All (λ m. has m.addr seen ≡ true → IsAnyPort m.addr) ls

AreNew-nil : (ls : List Listener) → AreNew [] ls
unfolding has
AreNew-nil [] = tt
AreNew-nil (l ∷ ls) = (λ h. absurd (ground arith), AreNew-nil ls)

-- A listener with a fixed port, and those behind it.
AreNew-add :
    (seen : List Bytes) (l : Listener) (ls : List Listener)
    → AreNew (add l.addr seen) ls
    → AreNew seen ls × All (λ m. l.addr ≡ m.addr → IsAnyPort l.addr) ls
AreNew-add seen l ls a = (
  All-map (λ m p h. p (ground (arith, has-add m.addr l.addr seen))) ls a,
  All-map
      (λ m p e.
        subst IsAnyPort (sym e)
          (p (ground (arith, has-add m.addr l.addr seen, (same_iff l.addr m.addr).1 e))))
      ls a,
)

add-AreNew :
    (seen : List Bytes) (l : Listener) (ls : List Listener)
    → AreNew seen ls
    → All (λ m. l.addr ≡ m.addr → IsAnyPort l.addr) ls
    → AreNew (add l.addr seen) ls
add-AreNew seen l [] a b = tt
add-AreNew seen l (m ∷ ls) a b = (
  λ h. elim (Bool-cases (same l.addr m.addr)) [
    | inl y ↦ let e = (same_iff l.addr m.addr).0 y in subst IsAnyPort e (b.0 e)
    | inr n ↦ a.0 (ground (arith, has-add m.addr l.addr seen))
  ],
  add-AreNew seen l ls a.1 b.1,
)

-- What the loop over the listeners asks for, one requirement after the other.
abbrev AreSound : List Bytes → List Listener → Type 0
AreSound seen ls =
    All (λ l. l.addr ≢ []) ls × All (λ l. IsListenerMode l.mode) ls × AreApart ls × AreNew seen ls

AreListeners-AreSound :
    (seen : List Bytes) (ls : List Listener) → AreListeners seen ls → AreSound seen ls
AreListeners-AreSound seen [] a = (tt, tt, tt, tt)
AreListeners-AreSound seen (l ∷ ls) (given, mode, new, rest) =
    let first_given = (is_empty_iff l.addr).0 given in
    let first_mode = (is_listener_mode_iff l.mode).0 mode in
    elim (Bool-cases (ends_with (codes ":0") l.addr)) [
      | inl y ↦
          let any_port = (ends_with_iff (codes ":0") l.addr).0 y in
          let (g, m, p, n) = AreListeners-AreSound seen ls (rw y at rest) in
          (
            (first_given, g),
            (first_mode, m),
            (All-map (λ o q e. any_port) ls g, p),
            (λ h. any_port, n),
          )
      | inr fixed ↦
          let (g, m, p, n) = AreListeners-AreSound (add l.addr seen) ls (rw fixed at rest) in
          let (old, apart) = AreNew-add seen l ls n in
          ((first_given, g), (first_mode, m), (apart, p), (λ h. absurd (ground arith), old))
    ]

AreSound-AreListeners :
    (seen : List Bytes) (ls : List Listener) → AreSound seen ls → AreListeners seen ls
AreSound-AreListeners seen [] a = tt
AreSound-AreListeners seen (l ∷ ls) ((first_given, g), (first_mode, m), (apart, p), (new, old)) =
    let given = (is_empty_iff l.addr).1 first_given in
    let mode = (is_listener_mode_iff l.mode).1 first_mode in
    elim (Bool-cases (ends_with (codes ":0") l.addr)) [
      | inl y ↦ (given, mode, inl y, rw y (AreSound-AreListeners seen ls (g, m, p, old)))
      | inr fixed ↦
          let fresh : has l.addr seen ≡ false = elim (Bool-cases (has l.addr seen)) [
            | inl h ↦ absurd (ground (arith, (ends_with_iff (codes ":0") l.addr).1 (new h)))
            | inr n ↦ n
          ] in
          (
            given,
            mode,
            inr fresh,
            rw fixed (
                AreSound-AreListeners (add l.addr seen) ls
                  (g, m, p, add-AreNew seen l ls old apart)),
          )
    ]

-- `Validate` reports nothing exactly under these conditions. There is a listener, every one has an
-- address and STARTTLS or implicit TLS, and two have one address only if that asks for any port.
-- There is a certificate, and each is a pair from files or an inline one. The upstream has a host,
-- and one of the three modes. A quota has a store with an address, and certificate checks of the
-- store are skipped only over TLS. The address of every milter has the scheme `tcp` or `unix`, or is
-- not empty and has none.
pub validate-IsSound : (c : Config) → (validate c ≡ []) ↔ IsSound c
validate-IsSound c = (
  λ e.
      let v = (validate_iff c).0 e in
      let (given, modes, apart, new) = AreListeners-AreSound [] c.listeners v.listeners_good in
      record {
        some_listener = (is_empty_iff c.listeners).0 v.some_listener;
        addresses_given = given;
        modes_known = modes;
        addresses_apart = apart;
        some_certificate = (is_empty_iff c.tls.certificates).0 v.some_certificate;
        pairs = All-map (λ r. (is_complete_iff r).0) c.tls.certificates v.certificates_good;
        host_given = (is_empty_iff c.upstream.host).0 v.host_given;
        upstream_mode = (is_upstream_mode_iff c.upstream.tls).0 v.upstream_mode;
        store_given = (IsRateLimit-IsStore c.rate_limit).0 v.rate_limit_good;
        milter_addresses = All-map parse_address-IsMilterAddress c.milters v.milters_good;
      },
  λ s. (validate_iff c).1 (record {
    some_listener = (is_empty_iff c.listeners).1 s.some_listener;
    listeners_good =
        AreSound-AreListeners [] c.listeners
          (s.addresses_given, s.modes_known, s.addresses_apart, AreNew-nil c.listeners);
    some_certificate = (is_empty_iff c.tls.certificates).1 s.some_certificate;
    certificates_good = All-map (λ r. (is_complete_iff r).1) c.tls.certificates s.pairs;
    host_given = (is_empty_iff c.upstream.host).1 s.host_given;
    upstream_mode = (is_upstream_mode_iff c.upstream.tls).1 s.upstream_mode;
    rate_limit_good = (IsRateLimit-IsStore c.rate_limit).1 s.store_given;
    milters_good = All-map IsMilterAddress-parse_address c.milters s.milter_addresses;
  }),
)
