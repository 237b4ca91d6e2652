-- ===== src/Policy/Narrowing.antt =====
-- `GrantedSubset`: what an account asks for never widens what its gateway grants.
use mailout_operator.Base.{
  All-Any, All-keep, All-map, All-append, Any-elim, Bool, true, false, not, ◌&&◌, ◌||◌, List, [],
  ◌∷◌, ◌++◌, some, ◌≡◌, ◌≢◌, refl, sym, ap, subst, ◌∙◌, arith, keep, All, some_of-Any,
}
use mailout_operator.Text.{
  codes, All-sort, Bytes, same_iff, same_refl, has, normalize-normalize, cut, cut-append,
}
use mailout_operator.Policy.{
  bare_address, to_lower, can_sign, granted_subset, allows, SenderPolicy, normalize, star,
  new_sender_policy, allows_domain, is_domain_of, signs_address, uncovered, covers, wildcards,
  entries,
}
use mailout_operator.Policy.Grants.{
  lookups_iff, allows_iff, Covers, exact, whole_domain, opens_domain, opens_domain_iff,
  opens_address, opens_address_iff, has-domains, has-addresses, cut-star,
}
use mailout_operator.Policy.Signing.{signed_iff, can_sign_iff, Signs, address_of, signs_address-has}

-- A covered entry: the map lookups for what it stands for succeed.
pub uncovered-Covers :
    (p : SenderPolicy) (e a : Bytes)
    → uncovered p e ≡ false
    → Covers a e
    → (has a p.addresses || allows_domain p (cut b'@' a)) ≡ true
unfolding uncovered allows_domain
uncovered-Covers p e a h (exact l d s c n ne w dn) =
    let split : cut b'@' a ≡ some (l, d) = rw s (cut-append b'@' l d c) in
    ground (arith, ap (cut b'@') n, ap (λ k. has k p.addresses) n, same_iff l star)
uncovered-Covers p e a h (whole_domain l d s c n dn) =
    let split : cut b'@' a ≡ some (l, d) = rw s (cut-append b'@' l d c) in
    ground (arith, ap (cut b'@') n, cut-star d, same_refl star)

uncovered-Signs :
    (p : SenderPolicy) (e d : Bytes)
    → uncovered p e ≡ false
    → Signs d e
    → (has d p.domains || signs_address d p.addresses) ≡ true
unfolding uncovered is_domain_of
uncovered-Signs p e d h (address_of l n c ne dn) =
    let split : cut b'@' (normalize e) ≡ some (l, d) = rw n (cut-append b'@' l d c) in
    ground (arith, same_refl d, signs_address-has d (normalize e) p.addresses)

-- The domains and the addresses of a compiled policy are normalised.
pub domains_clean :
    (g : List Bytes) (d : Bytes)
    → has d (new_sender_policy g).domains ≡ true
    → (normalize (codes "*@" ++ d) ≡ codes "*@" ++ d) × (d ≢ [])
domains_clean g d h =
    Any-elim (λ e o. (subst (λ t. normalize t ≡ t) o.0 (normalize-normalize e), o.1)) g
      ((some_of-Any (opens_domain d) _ (opens_domain_iff d) g).0 (sym (has-domains g d) ∙ h))

pub addresses_clean :
    (g : List Bytes) (a : Bytes)
    → has a (new_sender_policy g).addresses ≡ true
    → (local : Bytes) × (domain : Bytes) × (cut b'@' a ≡ some (local, domain))
      × (normalize a ≡ a)
      × (local ≢ [])
      × (local ≢ star)
      × (domain ≢ [])
addresses_clean g a h =
    Any-elim
      (λ e (l, d, c, n, ne, w, dn).
        (l, d, c, subst (λ t. normalize t ≡ t) n (normalize-normalize e), ne, w, dn))
      g ((some_of-Any (opens_address a) _ (opens_address_iff a) g).0 (sym (has-addresses g a) ∙ h))

module _ (g : List Bytes) where
  policy : SenderPolicy
  policy = new_sender_policy g

  wildcard_covered :
      (d : Bytes) → has d policy.domains ≡ true → uncovered policy (codes "*@" ++ d) ≡ false
  unfolding uncovered policy
  wildcard_covered d h =
      let clean = domains_clean g d h in
      ground (arith, cut-star d, same_refl star, ap (cut b'@') clean.0)

  address_covered : (a : Bytes) → has a policy.addresses ≡ true → uncovered policy a ≡ false
  unfolding uncovered policy
  address_covered a h =
      let (l, d, c, n, ne, w, dn) = addresses_clean g a h in
      ground (arith, ap (cut b'@') n, ap (λ k. has k policy.addresses) n, same_iff l star)

  wildcards_covered :
      (ds : List Bytes)
      → ((d : Bytes) → has d ds ≡ true → has d policy.domains ≡ true)
      → All (λ e. uncovered policy e ≡ false) (wildcards ds)
  unfolding has
  wildcards_covered [] h = tt
  wildcards_covered (d ∷ ds) h = (
    wildcard_covered d (h d (rw (same_refl d))),
    wildcards_covered ds (λ k e. h k (ground arith)),
  )

  addresses_covered :
      (as' : List Bytes)
      → ((a : Bytes) → has a as' ≡ true → has a policy.addresses ≡ true)
      → All (λ e. uncovered policy e ≡ false) as'
  unfolding has
  addresses_covered [] h = tt
  addresses_covered (a ∷ as') h = (
    address_covered a (h a (rw (same_refl a))),
    addresses_covered as' (λ k e. h k (ground arith)),
  )

  -- What a policy lists as its entries, it covers.
  entries_covered : All (λ e. uncovered policy e ≡ false) (entries policy)
  unfolding entries
  entries_covered = All-sort _ _ (
      All-append _ (wildcards policy.domains) policy.addresses
        (wildcards_covered policy.domains (λ d h. h))
        (addresses_covered policy.addresses (λ a h. h)))

has-keep : (p : Bytes → Bool) (e : Bytes) (r : List Bytes) → has e (keep p r) ≡ (p e && has e r)
unfolding has
has-keep p e [] = ground arith
has-keep p e (x ∷ r) = ground (arith, has-keep p e r, same_iff x e, ap p)

-- Removing the refused entries leaves the covered ones.
pub allowed_entries :
    (p : SenderPolicy) (r s : List Bytes)
    → ((e : Bytes) → has e r ≡ true → has e s ≡ true)
    → keep (λ e. not (has e (covers p s))) r ≡ keep (λ e. not (uncovered p e)) r
unfolding covers has
allowed_entries p [] s h = refl
allowed_entries p (e ∷ r) s h = ground (
  arith,
  allowed_entries p r s (λ k m. h k (ground arith)),
  has-keep (uncovered p) e s,
  h e (rw (same_refl e)),
)

-- Every entry that an account is allowed, its grant covers.
allowed_covered :
    (granted requested : List Bytes)
    → All
        (λ e. uncovered (new_sender_policy granted) e ≡ false)
        (granted_subset granted requested).0
unfolding granted_subset policy
allowed_covered granted [] = entries_covered granted
allowed_covered granted (e ∷ r) =
    let p = new_sender_policy granted in
    rw (allowed_entries p (e ∷ r) (e ∷ r) (λ k m. m))
      (All-map (λ x h. ground arith) _ (All-keep (λ x. not (uncovered p x)) (e ∷ r)))

-- An account's own list of senders only narrows what its gateway grants: an address that the
-- account may use with the allowed part of its list, the grant allows as well.
pub allows-granted_subset :
    (granted requested : List Bytes) (address : Bytes)
    → allows (new_sender_policy (granted_subset granted requested).0) address ≡ true
    → allows (new_sender_policy granted) address ≡ true
allows-granted_subset granted requested address h =
    let a = to_lower (bare_address address) in
    let allowed = (granted_subset granted requested).0 in
    (allows_iff granted address).1 (
      Any-elim (λ e (c, u). (lookups_iff granted a).0 u) allowed
        (All-Any (λ e u c. uncovered-Covers (new_sender_policy granted) e a u c) allowed
          (allowed_covered granted requested) ((allows_iff allowed address).0 h)))

-- Nor does it widen what is signed: a domain signed for the allowed part of the list is one that
-- the grant itself has signed.
can_sign-granted_subset :
    (granted requested : List Bytes) (domain : Bytes)
    → can_sign (new_sender_policy (granted_subset granted requested).0) domain ≡ true
    → can_sign (new_sender_policy granted) domain ≡ true
can_sign-granted_subset granted requested domain h =
    let d = normalize domain in
    let allowed = (granted_subset granted requested).0 in
    (can_sign_iff granted domain).1 (
      Any-elim (λ e (c, u). (signed_iff granted d).0 u) allowed
        (All-Any (λ e u c. uncovered-Signs (new_sender_policy granted) e d u c) allowed
          (allowed_covered granted requested) ((can_sign_iff allowed domain).0 h)))
