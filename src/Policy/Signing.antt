-- ===== src/Policy/Signing.antt =====
-- Which domains a compiled policy signs.
use mailout_operator.Base.{
  Bool, true, false, not, ◌&&◌, ◌||◌, List, [], ◌∷◌, ◌++◌, Option, none, some, ◌≡◌, ◌≢◌, ◌↔◌, inl,
  inr, refl, ap, arith, Bool-cases, Option-cases, is_empty, Any, some_of, some_of-or, some_of-Any,
}
use mailout_operator.Text.{
  Bytes, same, same_iff, same_refl, has, add, contains, cut, cut-eq_some, cut-append,
}
use mailout_operator.Policy.{
  SenderPolicy, no_policy, normalize, star, add_cut, add_entry, add_entries, new_sender_policy,
  is_domain_of, signs_address, can_sign,
}
use mailout_operator.Policy.Grants.{opens_domain, has-domains}

-- The entry lets its holder sign for the domain: it is an address there, or a star.
pub data Signs (d entry : Bytes) : Type 0 where
  address_of :
      (local : Bytes)
      → normalize entry ≡ local ++ (b'@' ∷ d)
      → contains b'@' local ≡ false
      → local ≢ []
      → d ≢ []
      → Signs d entry

unfoldable pub signs_cut : Bytes → Option (Bytes × Bytes) → Bool
signs_cut d none = false
signs_cut d (some (local, domain)) =
    not (is_empty domain || is_empty local) && not (same local star) && same domain d

unfoldable pub signs_exact : Bytes → Bytes → Bool
unfolding signs_cut
signs_exact d entry = signs_cut d (cut b'@' (normalize entry))

unfoldable pub signs_entry : Bytes → Bytes → Bool
unfolding signs_exact
signs_entry d entry = opens_domain d entry || signs_exact d entry

pub signs_address-has :
    (d a : Bytes) (s : List Bytes)
    → has a s ≡ true
    → is_domain_of d (cut b'@' a) ≡ true
    → signs_address d s ≡ true
unfolding signs_address has
signs_address-has d a [] h e = cc
signs_address-has d a (x ∷ s) h e = elim (Bool-cases (same x a)) [
  | inl found ↦ rw (ap (λ y. is_domain_of d (cut b'@' y)) ((same_iff x a).0 found)) (rw e)
  | inr other ↦ ground (arith, signs_address-has d a s)
]

signs_address-add :
    (d a : Bytes) (s : List Bytes)
    → signs_address d (add a s) ≡ (is_domain_of d (cut b'@' a) || signs_address d s)
unfolding add signs_address
signs_address-add d a s = ground (arith, signs_address-has d a s)

add_cut-signs :
    (p : SenderPolicy) (e d : Bytes) (parts : Option (Bytes × Bytes))
    → cut b'@' e ≡ parts
    → signs_address d (add_cut p e parts).addresses
      ≡ (signs_cut d parts || signs_address d p.addresses)
unfolding add_cut signs_cut is_domain_of
add_cut-signs p e d none h = refl
add_cut-signs p e d (some (local, domain)) h = ground (arith, signs_address-add d e p.addresses)

add_entries-signs :
    (es : List Bytes) (p : SenderPolicy) (d : Bytes)
    → signs_address d (add_entries p es).addresses
      ≡ (some_of (signs_exact d) es || signs_address d p.addresses)
unfolding add_entries signs_exact
add_entries-signs [] p d = refl
add_entries-signs (e ∷ es) p d = ground (
  arith,
  add_entries-signs es (add_entry p e) d,
  add_cut-signs p (normalize e) d (cut b'@' (normalize e)) refl,
)

either_way :
    (es : List Bytes) (d : Bytes)
    → some_of (signs_entry d) es ≡ (some_of (opens_domain d) es || some_of (signs_exact d) es)
unfolding signs_entry
either_way es d = some_of-or (opens_domain d) (signs_exact d) es

pub signs-entries :
    (es : List Bytes) (d : Bytes)
    → (has d (new_sender_policy es).domains || signs_address d (new_sender_policy es).addresses)
      ≡ some_of (signs_entry d) es
unfolding new_sender_policy signs_address
signs-entries es d =
    ground (arith, has-domains es d, add_entries-signs es no_policy d, either_way es d)

signs_entry_iff : (d entry : Bytes) → (signs_entry d entry ≡ true) ↔ Signs d entry
unfolding signs_entry opens_domain
signs_entry_iff d entry = (
  λ h. elim (Option-cases (cut b'@' (normalize entry))) [
    | inl e ↦ ground arith
    | inr ((local, domain), e) ↦
        let s = cut-eq_some b'@' (normalize entry) e in
        let eq : domain ≡ d = ground (arith, same_iff domain d) in
        address_of local (rw (← eq) s.0) s.1 (ground arith) (ground arith)
  ],
  λ h. elim h [
    | address_of local n c l dn ↦
        ground (arith, ap (cut b'@') n, cut-append b'@' local d c, same_refl d)
  ],
)

-- The answer of the two lookups for a domain, in terms of the entries.
pub signed_iff :
    (es : List Bytes) (d : Bytes)
    → ((has d (new_sender_policy es).domains || signs_address d (new_sender_policy es).addresses)
        ≡ true)
      ↔ Any (Signs d) es
signed_iff es d =
    rw (signs-entries es d) (some_of-Any (signs_entry d) (Signs d) (signs_entry_iff d) es)

Signs-nonempty : (es : List Bytes) (d : Bytes) → Any (Signs d) es → is_empty d ≡ false
Signs-nonempty [] d h = absurd h
Signs-nonempty (e ∷ es) d (inl (address_of local n c l dn)) = ground arith
Signs-nonempty (e ∷ es) d (inr h) = Signs-nonempty es d h

-- A domain is signed for an account exactly when one of its entries is an address at that domain
-- or the domain's star.
pub can_sign_iff :
    (es : List Bytes) (domain : Bytes)
    → (can_sign (new_sender_policy es) domain ≡ true) ↔ Any (Signs (normalize domain)) es
unfolding can_sign
can_sign_iff es domain =
    let d = normalize domain in
    let per_entry = some_of-Any (signs_entry d) (Signs d) (signs_entry_iff d) es in
    (
      λ h. per_entry.0 (ground (arith, signs-entries es d)),
      λ h. ground (arith, signs-entries es d, per_entry.1 h, Signs-nonempty es d h),
    )
