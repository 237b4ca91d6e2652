-- ===== src/Policy/Grants.antt =====
-- Which addresses a compiled policy allows, and which domains it signs.
use mailout_operator.Base.{
  Bool, true, false, not, ◌&&◌, ◌||◌, List, [], ◌∷◌, ◌++◌, Option, none, some, ◌≡◌, ◌≢◌, ◌↔◌, inl,
  inr, refl, ap, subst, arith, Bool-cases, Option-cases, is_empty, Any, some_of, some_of-or,
  some_of-Any, append_cons-ne-nil,
}
use mailout_operator.Text.{
  Bytes, same, same_iff, same_refl, has, has-add, to_lower, contains, cut, cut-eq_some, cut-append,
}
use mailout_operator.Policy.{
  SenderPolicy, no_policy, normalize, star, add_cut, add_entry, add_entries, new_sender_policy,
  bare_address, allows_domain, allows,
}

-- Does the cut entry put the domain into `domains`, or the address into `addresses`?
unfoldable pub opens_domain_cut : Bytes → Option (Bytes × Bytes) → Bool
opens_domain_cut d none = false
opens_domain_cut d (some (local, domain)) =
    not (is_empty domain || is_empty local) && same local star && same domain d

unfoldable pub opens_domain : Bytes → Bytes → Bool
unfolding opens_domain_cut
opens_domain d entry = opens_domain_cut d (cut b'@' (normalize entry))

unfoldable pub opens_address_cut : Bytes → Bytes → Option (Bytes × Bytes) → Bool
opens_address_cut a e none = false
opens_address_cut a e (some (local, domain)) =
    not (is_empty domain || is_empty local) && not (same local star) && same e a

unfoldable pub opens_address : Bytes → Bytes → Bool
unfolding opens_address_cut
opens_address a entry = opens_address_cut a (normalize entry) (cut b'@' (normalize entry))

add_cut-domains :
    (p : SenderPolicy) (e d : Bytes) (parts : Option (Bytes × Bytes))
    → has d (add_cut p e parts).domains ≡ (opens_domain_cut d parts || has d p.domains)
unfolding add_cut opens_domain_cut
add_cut-domains p e d none = refl
add_cut-domains p e d (some (local, domain)) = ground (arith, has-add d domain p.domains)

add_cut-addresses :
    (p : SenderPolicy) (e a : Bytes) (parts : Option (Bytes × Bytes))
    → has a (add_cut p e parts).addresses ≡ (opens_address_cut a e parts || has a p.addresses)
unfolding add_cut opens_address_cut
add_cut-addresses p e a none = refl
add_cut-addresses p e a (some (local, domain)) = ground (arith, has-add a e p.addresses)

add_entries-domains :
    (es : List Bytes) (p : SenderPolicy) (d : Bytes)
    → has d (add_entries p es).domains ≡ (some_of (opens_domain d) es || has d p.domains)
unfolding add_entries opens_domain
add_entries-domains [] p d = refl
add_entries-domains (e ∷ es) p d = ground (
  arith,
  add_entries-domains es (add_entry p e) d,
  add_cut-domains p (normalize e) d (cut b'@' (normalize e)),
)

add_entries-addresses :
    (es : List Bytes) (p : SenderPolicy) (a : Bytes)
    → has a (add_entries p es).addresses ≡ (some_of (opens_address a) es || has a p.addresses)
unfolding add_entries opens_address
add_entries-addresses [] p a = refl
add_entries-addresses (e ∷ es) p a = ground (
  arith,
  add_entries-addresses es (add_entry p e) a,
  add_cut-addresses p (normalize e) a (cut b'@' (normalize e)),
)

pub has-domains :
    (es : List Bytes) (d : Bytes)
    → has d (new_sender_policy es).domains ≡ some_of (opens_domain d) es
unfolding new_sender_policy has
has-domains es d = ground (arith, add_entries-domains es no_policy d)

pub has-addresses :
    (es : List Bytes) (a : Bytes)
    → has a (new_sender_policy es).addresses ≡ some_of (opens_address a) es
unfolding new_sender_policy has
has-addresses es a = ground (arith, add_entries-addresses es no_policy a)

-- The entry stands for the address: it is the address, or a star at the address's domain.
pub data Covers (address entry : Bytes) : Type 0 where
  exact :
      (local domain : Bytes)
      → address ≡ local ++ (b'@' ∷ domain)
      → contains b'@' local ≡ false
      → normalize entry ≡ address
      → local ≢ []
      → local ≢ star
      → domain ≢ []
      → Covers address entry
  whole_domain :
      (local domain : Bytes)
      → address ≡ local ++ (b'@' ∷ domain)
      → contains b'@' local ≡ false
      → normalize entry ≡ star ++ (b'@' ∷ domain)
      → domain ≢ []
      → Covers address entry

-- What one entry adds to the answer for an address cut at its at sign.
unfoldable pub covers_cut : Bytes → Option (Bytes × Bytes) → Bytes → Bool
covers_cut a none entry = opens_address a entry
covers_cut a (some (local, domain)) entry = opens_address a entry || opens_domain domain entry

pub cut-star : (d : Bytes) → cut b'@' (star ++ (b'@' ∷ d)) ≡ some (star, d)
unfolding contains
cut-star d = cut-append b'@' star d refl

pub opens_domain_iff :
    (d entry : Bytes)
    → (opens_domain d entry ≡ true) ↔ ((normalize entry ≡ star ++ (b'@' ∷ d)) × (d ≢ []))
unfolding opens_domain
opens_domain_iff d entry = (
  λ h. elim (Option-cases (cut b'@' (normalize entry))) [
    | inl e ↦ ground arith
    | inr ((local, domain), e) ↦
        ground (arith, cut-eq_some b'@' (normalize entry) e, same_iff local star, same_iff domain d)
  ],
  λ h. ground (arith, cut-star d, same_refl star, same_refl d, ap (cut b'@') h.0),
)

pub opens_address_iff :
    (a entry : Bytes)
    → (opens_address a entry ≡ true) ↔ (
        (local : Bytes) × (domain : Bytes) × (cut b'@' a ≡ some (local, domain))
        × (normalize entry ≡ a)
        × (local ≢ [])
        × (local ≢ star)
        × (domain ≢ []))
unfolding opens_address
opens_address_iff a entry = (
  λ h. elim (Option-cases (cut b'@' (normalize entry))) [
    | inl e ↦ ground arith
    | inr ((local, domain), e) ↦
        let eq : normalize entry ≡ a = ground (arith, same_iff (normalize entry) a) in
        (
          local,
          domain,
          rw (← eq) e,
          eq,
          ground arith,
          ground (arith, same_iff local star),
          ground arith,
        )
  ],
  λ (local, domain, e, n, l, w, d).
      ground (arith, ap (cut b'@') n, same_iff local star, same_iff (normalize entry) a),
)

Covers-of_cut : (a entry : Bytes) → covers_cut a (cut b'@' a) entry ≡ true → Covers a entry
unfolding covers_cut
Covers-of_cut a entry h = elim (Bool-cases (opens_address a entry)) [
  | inl e ↦
      let (l, d, c, n, ne, w, dn) = (opens_address_iff a entry).0 e in
      let s = cut-eq_some b'@' a c in exact l d s.0 s.1 n ne w dn
  | inr e ↦ elim (Option-cases (cut b'@' a)) [
    | inl c ↦ ground arith
    | inr ((l, d), c) ↦
        let s = cut-eq_some b'@' a c in
        let o = (opens_domain_iff d entry).0 (ground arith) in whole_domain l d s.0 s.1 o.0 o.1
  ]
]

cut-of_Covers : (a entry : Bytes) → Covers a entry → covers_cut a (cut b'@' a) entry ≡ true
unfolding covers_cut
cut-of_Covers a entry (exact l d s c n ne w dn) =
    let split : cut b'@' a ≡ some (l, d) = rw s (cut-append b'@' l d c) in
    let opened = (opens_address_iff a entry).1 (l, d, split, n, ne, w, dn) in ground arith
cut-of_Covers a entry (whole_domain l d s c n dn) =
    let split : cut b'@' a ≡ some (l, d) = rw s (cut-append b'@' l d c) in
    let opened = (opens_domain_iff d entry).1 (n, dn) in ground arith

pub covers_cut_iff : (a entry : Bytes) → (covers_cut a (cut b'@' a) entry ≡ true) ↔ Covers a entry
covers_cut_iff a entry = (Covers-of_cut a entry, cut-of_Covers a entry)

some_of-covers_cut :
    (es : List Bytes) (a : Bytes) (parts : Option (Bytes × Bytes))
    → some_of (covers_cut a parts) es
      ≡ (has a (new_sender_policy es).addresses || allows_domain (new_sender_policy es) parts)
unfolding covers_cut allows_domain
some_of-covers_cut es a none = ground (arith, has-addresses es a)
some_of-covers_cut es a (some (local, domain)) = ground (
  arith,
  has-addresses es a,
  has-domains es domain,
  some_of-or (opens_address a) (opens_domain domain) es,
)

-- The answer of the two lookups for an address, in terms of the entries.
pub lookups_iff :
    (es : List Bytes) (a : Bytes)
    → ((has a (new_sender_policy es).addresses || allows_domain (new_sender_policy es) (cut b'@' a))
        ≡ true)
      ↔ Any (Covers a) es
lookups_iff es a =
    rw (← some_of-covers_cut es a (cut b'@' a))
      (some_of-Any (covers_cut a (cut b'@' a)) (Covers a) (covers_cut_iff a) es)

is_empty-eq : (s : Bytes) → is_empty s ≡ true → s ≡ []
is_empty-eq s h = ground arith

not_empty_Covers : (es : List Bytes) → Any (Covers []) es → ⊥
not_empty_Covers [] h = h
not_empty_Covers (e ∷ es) (inl (exact l d s c n ne w dn)) = append_cons-ne-nil l b'@' d s
not_empty_Covers (e ∷ es) (inl (whole_domain l d s c n dn)) = append_cons-ne-nil l b'@' d s
not_empty_Covers (e ∷ es) (inr h) = not_empty_Covers es h

-- An account may send from an address exactly when one of its entries is that address, the
-- display name and the case left aside, or is a star at its domain.
pub allows_iff :
    (es : List Bytes) (address : Bytes)
    → (allows (new_sender_policy es) address ≡ true)
      ↔ Any (Covers (to_lower (bare_address address))) es
unfolding allows
allows_iff es address = (
  λ h. (lookups_iff es (to_lower (bare_address address))).0 (ground arith),
  λ h. elim (Bool-cases (is_empty (to_lower (bare_address address)))) [
    | inl e ↦ absurd (not_empty_Covers es (subst (λ a. Any (Covers a) es) (is_empty-eq _ e) h))
    | inr e ↦ let found = (lookups_iff es (to_lower (bare_address address))).1 h in ground arith
  ],
)
