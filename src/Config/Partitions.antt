-- ===== src/Config/Partitions.antt =====
-- `PartitionAccounts`: an account is served or reported, one after the other.
use mailout_operator.Base.{
  ℕ, suc, true, ◌||◌, List, [], ◌∷◌, Option, some, ◌≡◌, ◌≢◌, ◌↔◌, inl, inr, subst, ◌∙◌, arith,
  Bool-cases, true-ne-false, Option-cases, is_empty, Any,
}
use mailout_operator.Text.{Bytes, has, add, same, same_iff, has-add}
use mailout_operator.Config.{
  Config, Account, RejectedAccount, numbered, named, username_required, duplicate_username,
  unsafe_username, hash_required, unusable_hash, valid_username, usable_hash, rejection,
  partition_from, partition_accounts,
}
use mailout_operator.Config.Accounts.{rejection-none}
use mailout_operator.Config.Usable.{IsSafeName, IsUsable, valid_username_iff, usable_hash_iff}

-- One of these accounts has the name.
abbrev pub IsTaken : List Account → Bytes → Type 0
IsTaken earlier name = Any (λ o. o.username ≡ name) earlier

-- The names seen are those of the accounts.
abbrev Tracks : List Bytes → List Account → Type 0
Tracks seen earlier = (name : Bytes) → (has name seen ≡ true) ↔ IsTaken earlier name

Tracks-none : Tracks [] []
unfolding has
Tracks-none name = (λ h. absurd (ground arith), λ m. absurd m)

Tracks-add :
    (seen : List Bytes) (earlier : List Account) (a : Account)
    → Tracks seen earlier
    → Tracks (add a.username seen) (a ∷ earlier)
Tracks-add seen earlier a t name = (
  λ h. elim (Bool-cases (same a.username name)) [
    | inl y ↦ inl ((same_iff a.username name).0 y)
    | inr n ↦ inr ((t name).0 (ground (arith, has-add name a.username seen)))
  ],
  λ taken. has-add name a.username seen ∙ present taken,
)
  where
    present : IsTaken (a ∷ earlier) name → (same a.username name || has name seen) ≡ true
    present (inl e) = ground (arith, (same_iff a.username name).1 e)
    present (inr m) = ground (arith, (t name).1 m)

module _ (cost : Bytes → Option ℕ) where
  -- Why an account is reported, the accounts served before it and its position given.
  pub data IsReported (earlier : List Account) (i : ℕ) (a : Account)
      : RejectedAccount → Type 0 where
    no_name :
        a.username ≡ []
        → IsReported earlier i a (record { username = numbered i; reason = username_required })
    taken :
        a.username ≢ []
        → IsTaken earlier a.username
        → IsReported earlier i a
            (record { username = named a.username; reason = duplicate_username })
    not_safe :
        a.username ≢ []
        → ¬ IsTaken earlier a.username
        → ¬ IsSafeName a.username
        → IsReported earlier i a (record { username = numbered i; reason = unsafe_username })
    no_hash :
        ¬ IsTaken earlier a.username
        → IsSafeName a.username
        → a.password_hash ≡ []
        → IsReported earlier i a (record { username = named a.username; reason = hash_required })
    not_usable :
        ¬ IsTaken earlier a.username
        → IsSafeName a.username
        → a.password_hash ≢ []
        → ¬ IsUsable cost a.password_hash
        → IsReported earlier i a (record { username = named a.username; reason = unusable_hash })

  -- The accounts, from a position on, with those served before them: each is served as it is, when its
  -- name and its hash are good and no account served before has the name, or it is reported.
  pub data Partitions
      : List Account → ℕ → List Account → List Account → List RejectedAccount → Type 0 where
    no_more : {earlier : List Account} {i : ℕ} → Partitions earlier i [] [] []
    serve :
        {earlier rest served : List Account} {rejected : List RejectedAccount} {i : ℕ} (a : Account)
        → IsSafeName a.username
        → a.password_hash ≢ []
        → IsUsable cost a.password_hash
        → ¬ IsTaken earlier a.username
        → Partitions (a ∷ earlier) (suc i) rest served rejected
        → Partitions earlier i (a ∷ rest) (a ∷ served) rejected
    report :
        {earlier rest served : List Account} {rejected : List RejectedAccount} {i : ℕ} (a : Account)
        (r : RejectedAccount)
        → IsReported earlier i a r
        → Partitions earlier (suc i) rest served rejected
        → Partitions earlier i (a ∷ rest) served (r ∷ rejected)

  rejection-IsReported :
      (seen : List Bytes) (earlier : List Account) (i : ℕ) (a : Account) (r : RejectedAccount)
      → Tracks seen earlier
      → rejection cost seen i a ≡ some r
      → IsReported earlier i a r
  unfolding rejection
  rejection-IsReported seen earlier i a r t e = elim (Bool-cases (is_empty a.username)) [
    | inl y1 ↦
        let made : record { username = numbered i; reason = username_required } ≡ r =
          ground arith in
        subst (IsReported earlier i a) made (no_name (ground arith))
    | inr n1 ↦ elim (Bool-cases (has a.username seen)) [
      | inl y2 ↦
          let made : record { username = named a.username; reason = duplicate_username } ≡ r =
            ground arith in
          subst (IsReported earlier i a) made
            (taken (λ h. absurd (ground arith)) ((t a.username).0 y2))
      | inr n2 ↦
          let new : ¬ IsTaken earlier a.username = λ m. true-ne-false ((t a.username).1 m) n2 in
          elim (Bool-cases (valid_username a.username)) [
            | inr n3 ↦
                let made : record { username = numbered i; reason = unsafe_username } ≡ r =
                  ground arith in
                subst (IsReported earlier i a) made (
                  not_safe (λ h. absurd (ground arith)) new
                    (λ h. true-ne-false ((valid_username_iff a.username).1 h) n3))
            | inl y3 ↦
                let safe = (valid_username_iff a.username).0 y3 in
                elim (Bool-cases (is_empty a.password_hash)) [
                  | inl y4 ↦
                      let made : record { username = named a.username; reason = hash_required }
                          ≡ r =
                        ground arith in
                      subst (IsReported earlier i a) made (no_hash new safe (ground arith))
                  | inr n4 ↦ elim (Bool-cases (usable_hash cost a.password_hash)) [
                    | inl y5 ↦ absurd (ground arith)
                    | inr n5 ↦
                        let made : record { username = named a.username; reason = unusable_hash }
                            ≡ r =
                          ground arith in
                        subst (IsReported earlier i a) made (
                          not_usable new safe (λ h. absurd (ground arith))
                            (λ h. true-ne-false ((usable_hash_iff cost a.password_hash).1 h) n5))
                  ]
                ]
          ]
    ]
  ]

  partition_from-Partitions :
      (seen : List Bytes) (earlier : List Account) (i : ℕ) (rest : List Account)
      → Tracks seen earlier
      → Partitions earlier i rest
          (partition_from cost seen i rest).0
          (partition_from cost seen i rest).1
  unfolding partition_from
  partition_from-Partitions seen earlier i [] t = no_more
  partition_from-Partitions seen earlier i (a ∷ rest) t =
      elim (Option-cases (rejection cost seen i a)) [
        | inl e ↦
            let (good, new) = rejection-none cost seen i a e in
            rw (e, partition_from)
              (serve a ((valid_username_iff a.username).0 good.safe) good.has_hash
                ((usable_hash_iff cost a.password_hash).0 good.usable)
                (λ m. absurd (ground (arith, (t a.username).1 m)))
                (partition_from-Partitions (add a.username seen) (a ∷ earlier) (suc i) rest
                  (Tracks-add seen earlier a t)))
        | inr (r, e) ↦
            rw (e, partition_from)
              (report a r (rejection-IsReported seen earlier i a r t e)
                (partition_from-Partitions seen earlier (suc i) rest t))
      ]

  -- Going through the accounts in order, each one is served, unchanged, or reported. It is served
  -- when its username is safe, its hash is given and has a cost within the bounds, and no account
  -- served before has its name. It is reported, by its name or its position, for the first of these
  -- that holds: it has no username, an account served before has it, it is not safe, there is no
  -- hash, or the hash has no such cost.
  pub partition_accounts_sound :
      (c : Config)
      → Partitions [] 0 c.accounts (partition_accounts cost c).0 (partition_accounts cost c).1
  unfolding partition_accounts
  partition_accounts_sound c = partition_from-Partitions [] [] 0 c.accounts Tracks-none
