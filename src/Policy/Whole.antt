-- ===== src/Policy/Whole.antt =====
-- `GrantedSubset` of no request is the whole grant, and of a request it loses no entry.
use mailout_operator.Base.{
  some_of-append, Bool-eq, Bool, true, ◌||◌, List, [], ◌∷◌, ◌++◌, ◌≡◌, inl, inr, ap, arith,
  Bool-cases, Option-cases, some_of, some_of-Any,
}
use mailout_operator.Text.{Bytes, codes, same_iff, has, some_of-sort, to_lower, cut, cut-eq_some}
use mailout_operator.Policy.{
  new_sender_policy, bare_address, allows_domain, allows, wildcards, entries, granted_subset,
}
use mailout_operator.Policy.Grants.{
  Covers, exact, whole_domain, covers_cut, covers_cut_iff, lookups_iff, allows_iff,
}
use mailout_operator.Policy.Narrowing.{allows-granted_subset, domains_clean, addresses_clean}

some_of-has :
    (p : Bytes → Bool) (k : Bytes) (s : List Bytes)
    → has k s ≡ true
    → p k ≡ true
    → some_of p s ≡ true
unfolding has
some_of-has p k [] h e = cc
some_of-has p k (x ∷ s) h e = ground (arith, same_iff x k, ap p, some_of-has p k s)

some_of-wildcards :
    (p : Bytes → Bool) (d : Bytes) (ds : List Bytes)
    → has d ds ≡ true
    → p (codes "*@" ++ d) ≡ true
    → some_of p (wildcards ds) ≡ true
unfolding has
some_of-wildcards p d [] h e = cc
some_of-wildcards p d (x ∷ ds) h e =
    ground (arith, same_iff x d, ap (λ t. p (codes "*@" ++ t)), some_of-wildcards p d ds)

module _ (g : List Bytes) (a : Bytes) where
  address_listed :
      has a (new_sender_policy g).addresses ≡ true
      → some_of (covers_cut a (cut b'@' a)) (entries (new_sender_policy g)) ≡ true
  unfolding entries
  address_listed h =
      let (l, d, c, n, ne, w, dn) = addresses_clean g a h in
      let s = cut-eq_some b'@' a c in
      let p = covers_cut a (cut b'@' a) in
      let q = new_sender_policy g in
      ground (
        arith,
        some_of-sort p (wildcards q.domains ++ q.addresses),
        some_of-append p (wildcards q.domains) q.addresses,
        some_of-has p a q.addresses h ((covers_cut_iff a a).1 (exact l d s.0 s.1 n ne w dn)),
      )

  domain_listed :
      allows_domain (new_sender_policy g) (cut b'@' a) ≡ true
      → some_of (covers_cut a (cut b'@' a)) (entries (new_sender_policy g)) ≡ true
  unfolding entries allows_domain
  domain_listed h = elim (Option-cases (cut b'@' a)) [
    | inl e ↦ ground arith
    | inr ((l, d), c) ↦
        let held : has d (new_sender_policy g).domains ≡ true = ground arith in
        let clean = domains_clean g d held in
        let s = cut-eq_some b'@' a c in
        let p = covers_cut a (cut b'@' a) in
        let q = new_sender_policy g in
        ground (
          arith,
          some_of-sort p (wildcards q.domains ++ q.addresses),
          some_of-append p (wildcards q.domains) q.addresses,
          some_of-wildcards p d q.domains held
              ((covers_cut_iff a (codes "*@" ++ d)).1 (whole_domain l d s.0 s.1 clean.0 clean.1)),
        )
  ]

  listed :
      (has a (new_sender_policy g).addresses || allows_domain (new_sender_policy g) (cut b'@' a))
        ≡ true
      → some_of (covers_cut a (cut b'@' a)) (entries (new_sender_policy g)) ≡ true
  listed h = elim (Bool-cases (has a (new_sender_policy g).addresses)) [
    | inl e ↦ address_listed e
    | inr e ↦ domain_listed (ground arith)
  ]

-- An account that asks for nothing may use exactly the addresses of its whole grant.
allows-granted_subset-nil :
    (granted : List Bytes) (address : Bytes)
    → allows (new_sender_policy (granted_subset granted []).0) address
      ≡ allows (new_sender_policy granted) address
allows-granted_subset-nil granted address =
    let a = to_lower (bare_address address) in
    Bool-eq _ _ (allows-granted_subset granted [] address) (λ h.
      (allows_iff (granted_subset granted []).0 address).1 (
        unfold granted_subset in
        (some_of-Any (covers_cut a (cut b'@' a)) (Covers a) (covers_cut_iff a) _).0
          (listed granted a ((lookups_iff granted a).1 ((allows_iff granted address).0 h)))))
