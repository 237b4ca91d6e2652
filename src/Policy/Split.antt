-- ===== src/Policy/Split.antt =====
-- `GrantedSubset` and `covers`: which requested entries are allowed and which are refused.
use mailout_operator.Base.{
  All-keep, All-map, Any-elim, Bool, true, false, not, ◌||◌, List, [], ◌∷◌, ◌++◌, some, ◌≡◌, ◌≢◌,
  ◌↔◌, inl, inr, refl, ap, arith, Bool-cases, keep, All, Any,
}
use mathlib.Core.List.{Perm, perm_middle}
use mathlib.Core.List.Perm
use mailout_operator.Text.{Bytes, same_iff, has, cut, cut-eq_some, cut-append}
use mailout_operator.Policy.{
  SenderPolicy, normalize, star, new_sender_policy, allows_domain, uncovered, covers,
  granted_subset,
}
use mailout_operator.Policy.Grants.{Covers, exact, whole_domain, lookups_iff}
use mailout_operator.Policy.Narrowing.{addresses_clean, allowed_entries}

-- The grant holds the entry itself or a star at its domain, and the entry has a local part.
abbrev pub Granted : List Bytes → Bytes → Type 0
Granted granted entry =
    Any (Covers (normalize entry)) granted × ((domain : Bytes) → normalize entry ≢ b'@' ∷ domain)

covered-lookups :
    (p : SenderPolicy) (e : Bytes)
    → uncovered p e ≡ false
    → ((has (normalize e) p.addresses || allows_domain p (cut b'@' (normalize e))) ≡ true)
      × ((domain : Bytes) → normalize e ≢ b'@' ∷ domain)
unfolding uncovered allows_domain cut
covered-lookups p e h = (ground arith, λ d n. ground (arith, ap (cut b'@') n))

abbrev Parts : Bytes → Type 0
Parts a = (local : Bytes) × (domain : Bytes) × (cut b'@' a ≡ some (local, domain)) × (domain ≢ [])

Covers-Parts : {a : Bytes} (e : Bytes) → Covers a e → Parts a
Covers-Parts e (exact l d s c n ne w dn) = (l, d, rw s (cut-append b'@' l d c), dn)
Covers-Parts e (whole_domain l d s c n dn) = (l, d, rw s (cut-append b'@' l d c), dn)

lookups-covered :
    (g : List Bytes) (e : Bytes)
    → Parts (normalize e)
    → (has (normalize e) (new_sender_policy g).addresses
        || allows_domain (new_sender_policy g) (cut b'@' (normalize e)))
      ≡ true
    → ((domain : Bytes) → normalize e ≢ b'@' ∷ domain)
    → uncovered (new_sender_policy g) e ≡ false
unfolding uncovered allows_domain
lookups-covered g e ([], d, c, dn) h free = absurd (free d (cut-eq_some b'@' (normalize e) c).0)
lookups-covered g e (x ∷ l, d, c, dn) h free =
    elim (Bool-cases (has (normalize e) (new_sender_policy g).addresses)) [
      | inl a ↦
          let (l', d', c', n, ne, w, dn') = addresses_clean g (normalize e) a in
          ground (arith, same_iff (x ∷ l) star)
      | inr a ↦ ground arith
    ]

-- The policy covers the entries that are granted, and no others.
uncovered_iff :
    (g : List Bytes) (e : Bytes) → (uncovered (new_sender_policy g) e ≡ false) ↔ Granted g e
uncovered_iff g e = (
  λ h.
      let found = covered-lookups (new_sender_policy g) e h in
      ((lookups_iff g (normalize e)).0 found.0, found.1),
  λ h. lookups-covered g e (Any-elim Covers-Parts g h.0) ((lookups_iff g (normalize e)).1 h.0) h.1,
)

keep-perm : (p : Bytes → Bool) (xs : List Bytes) → Perm (keep (λ x. not (p x)) xs ++ keep p xs) xs
keep-perm p [] = Perm.nil
keep-perm p (x ∷ xs) = elim (Bool-cases (p x)) [
  | inl e ↦ rw e (
      Perm.trans (perm_middle (keep (λ y. not (p y)) xs) (keep p xs))
        (Perm.cons x (keep-perm p xs)))
  | inr e ↦ rw e (Perm.cons x (keep-perm p xs))
]

-- A request that is not empty is split into two lists that together hold each entry as often as
-- it was asked for: the allowed ones, which are all granted, and the refused ones, none of which is.
pub granted_subset-splits :
    (granted requested : List Bytes)
    → requested ≢ []
    → Perm ((granted_subset granted requested).0 ++ (granted_subset granted requested).1) requested
      × All (Granted granted) (granted_subset granted requested).0
      × All (λ e. ¬ Granted granted e) (granted_subset granted requested).1
unfolding granted_subset covers
granted_subset-splits g [] h = absurd (h refl)
granted_subset-splits g (x ∷ r) h =
    let p = new_sender_policy g in
    let same_split = allowed_entries p (x ∷ r) (x ∷ r) (λ k m. m) in
    (
      rw same_split (keep-perm (uncovered p) (x ∷ r)),
      rw same_split (
          All-map (λ e k. (uncovered_iff g e).0 (ground arith)) _
            (All-keep (λ e. not (uncovered p e)) (x ∷ r))),
      All-map (λ e k m. ground (arith, (uncovered_iff g e).1 m)) _ (All-keep (uncovered p) (x ∷ r)),
    )
