-- ===== src/Config/Accounts.antt =====
-- `PartitionAccounts`: which accounts are served.
use mailout_operator.Base.{
  ℕ, suc, true, false, not, ◌&&◌, List, [], ◌∷◌, ◌++◌, Option, none, some, ◌≡◌, ◌≢◌, inl, inr, refl,
  ap, ◌∙◌, arith, Option-cases, is_empty,
}
use mailout_operator.Text.{Bytes, has, add}
use mailout_operator.Config.{
  Config, Account, RejectedAccount, valid_username, usable_hash, rejection, partition_from,
  partition_accounts,
}

module _ (cost : Bytes → Option ℕ) where
  -- The account can be served, whatever the others are.
  pub record IsServable (a : Account) : Type 0 where
    pub safe : valid_username a.username ≡ true
    pub has_hash : a.password_hash ≢ []
    pub usable : usable_hash cost a.password_hash ≡ true

  -- An account that is not reported is servable, and its name is new.
  pub rejection-none :
      (seen : List Bytes) (i : ℕ) (a : Account)
      → rejection cost seen i a ≡ none
      → IsServable a × (has a.username seen ≡ false)
  unfolding rejection
  rejection-none seen i a e = (
    record { safe = ground arith; has_hash = λ h. ground arith; usable = ground arith },
    ground arith,
  )

  -- Whether an account is served does not depend on its position.
  rejection_index :
      (seen : List Bytes) (i j : ℕ) (a : Account) (r : RejectedAccount)
      → rejection cost seen i a ≡ some r
      → (q : RejectedAccount) × (rejection cost seen j a ≡ some q)
  unfolding rejection
  rejection_index seen i j a r e = elim (Option-cases (rejection cost seen j a)) [
    | inl n ↦ ground arith
    | inr q ↦ q
  ]

  served_index :
      (seen : List Bytes) (i j : ℕ) (as' : List Account)
      → (partition_from cost seen i as').0 ≡ (partition_from cost seen j as').0
  unfolding partition_from
  served_index seen i j [] = refl
  served_index seen i j (a ∷ as') = elim (Option-cases (rejection cost seen i a)) [
    | inl e ↦ elim (Option-cases (rejection cost seen j a)) [
      | inl f ↦
          rw (e, f, partition_from)
            (ap (◌∷◌ a) (served_index (add a.username seen) (suc i) (suc j) as'))
      | inr (r, f) ↦ let (q, g) = rejection_index seen j i a r f in ground arith
    ]
    | inr (r, e) ↦
        let (q, f) = rejection_index seen i j a r e in
        rw (e, f, partition_from) (served_index seen (suc i) (suc j) as')
  ]

  -- The account could not be served even if it were alone.
  abbrev pub IsBroken : Account → Type 0
  IsBroken a =
      (valid_username a.username
        && not (is_empty a.password_hash)
        && usable_hash cost a.password_hash)
      ≡ false

  broken-rejection :
      (seen : List Bytes) (i : ℕ) (a : Account)
      → IsBroken a
      → (r : RejectedAccount) × (rejection cost seen i a ≡ some r)
  unfolding rejection
  broken-rejection seen i a b = elim (Option-cases (rejection cost seen i a)) [
    | inl n ↦ ground arith
    | inr q ↦ q
  ]

  partition_from_broken :
      (seen : List Bytes) (i : ℕ) (xs ys : List Account) (b : Account)
      → IsBroken b
      → (partition_from cost seen i (xs ++ b ∷ ys)).0 ≡ (partition_from cost seen i (xs ++ ys)).0
  unfolding partition_from
  partition_from_broken seen i [] ys b h =
      let (r, e) = broken-rejection seen i b h in
      rw (e, partition_from) (served_index seen (suc i) i ys)
  partition_from_broken seen i (x ∷ xs) ys b h = elim (Option-cases (rejection cost seen i x)) [
    | inl e ↦
        rw (e, partition_from)
          (ap (◌∷◌ x) (partition_from_broken (add x.username seen) (suc i) xs ys b h))
    | inr (r, e) ↦ rw (e, partition_from) (partition_from_broken seen (suc i) xs ys b h)
  ]

  -- An account that is broken in itself changes nothing for the others, wherever it stands: the
  -- accounts served are those that are served without it.
  pub partition_accounts_broken :
      (c : Config) (xs ys : List Account) (b : Account)
      → c.accounts ≡ xs ++ b ∷ ys
      → IsBroken b
      → (partition_accounts cost c).0
        ≡ (partition_accounts cost (record c { accounts = xs ++ ys })).0
  unfolding partition_accounts
  partition_accounts_broken c xs ys b e h =
      ap (λ l. (partition_from cost [] 0 l).0) e ∙ partition_from_broken [] 0 xs ys b h
