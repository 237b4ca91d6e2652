-- ===== src/Render/Fit/Candidates.antt =====
-- The candidates of `FitAccounts` and the accounts that they stand for.
use mailout_operator.Base.{
  ℕ, suc, true, List, [], ◌∷◌, Option, some, ◌≡◌, ◌⊎◌, inl, inr, refl, arith, Bool-cases, All, Any,
  All-map,
}
use mailout_operator.Config.{Config}
use mailout_operator.Config
use mailout_operator.Render.Fit.{
  Sized, goes_before, insert_sized, sort_sized, is_dropped, not_dropped, cons_sized, sizes_from,
}

-- Each account, counted from an index, is dropped or is a candidate with its size.
abbrev pub ConsidersAll :
    (Config.Account → ℕ) → List ℕ → List Sized → ℕ → List Config.Account → Type 0
ConsidersAll account_size dropped order i [] = Unit
ConsidersAll account_size dropped order i (a ∷ accounts) =
    ((is_dropped i dropped ≡ true) ⊎ Any (λ c. (c.index ≡ i) × (c.size ≡ account_size a)) order)
    × ConsidersAll account_size dropped order (suc i) accounts

insert_sized-Any :
    (P : Sized → Type 0) (a : Sized) (l : List Sized) → P a ⊎ Any P l → Any P (insert_sized a l)
unfolding insert_sized
insert_sized-Any P a [] h = h
insert_sized-Any P a (b ∷ l) h = elim (Bool-cases (goes_before b a)) [
  | inl y ↦ rw y (elim h [
    | inl first ↦ inr (insert_sized-Any P a l (inl first))
    | inr (inl second) ↦ inl second
    | inr (inr later) ↦ inr (insert_sized-Any P a l (inr later))
  ])
  | inr n ↦ rw n h
]

pub sort_sized-Any : (P : Sized → Type 0) (l : List Sized) → Any P l → Any P (sort_sized l)
unfolding sort_sized
sort_sized-Any P [] h = h
sort_sized-Any P (a ∷ l) (inl h) = insert_sized-Any P a (sort_sized l) (inl h)
sort_sized-Any P (a ∷ l) (inr h) = insert_sized-Any P a (sort_sized l) (inr (sort_sized-Any P l h))

module _ (account_size : Config.Account → ℕ) where
  -- A candidate with the username and the size of one of the accounts.
  abbrev pub StandsFor : Sized → List Config.Account → Type 0
  StandsFor c accounts = Any (λ a. (a.username ≡ c.username) × (c.size ≡ account_size a)) accounts

  -- Once each index is dropped no account is left.
  pub all_dropped :
      (dropped : List ℕ) (i : ℕ) (accounts : List Config.Account)
      → ConsidersAll account_size dropped [] i accounts
      → not_dropped dropped i accounts ≡ []
  unfolding not_dropped
  all_dropped dropped i [] h = refl
  all_dropped dropped i (a ∷ accounts) (inl y, h) = rw y (all_dropped dropped (suc i) accounts h)
  all_dropped dropped i (a ∷ accounts) (inr n, h) = absurd n

  -- A candidate that is dropped is still considered.
  pub drop_one :
      (c : Sized) (order : List Sized) (dropped : List ℕ) (i : ℕ) (accounts : List Config.Account)
      → ConsidersAll account_size dropped (c ∷ order) i accounts
      → ConsidersAll account_size (c.index ∷ dropped) order i accounts
  drop_one c order dropped i [] h = tt
  drop_one c order dropped i (a ∷ accounts) (h, more) = (
    elim h [
      | inl y ↦ inl (ground (arith, y))
      | inr (inl first) ↦ inl (ground (arith, first.0))
      | inr (inr later) ↦ inr later
    ],
    drop_one c order dropped (suc i) accounts more,
  )

  pub considers_more :
      (order more : List Sized)
      → ((P : Sized → Type 0) → Any P order → Any P more)
      → (i : ℕ) (accounts : List Config.Account) → ConsidersAll account_size [] order i accounts
      → ConsidersAll account_size [] more i accounts
  considers_more order more f i [] h = tt
  considers_more order more f i (a ∷ accounts) (inl y, later) = cc
  considers_more order more f i (a ∷ accounts) (inr n, later) =
      (inr (f _ n), considers_more order more f (suc i) accounts later)

  -- Each account has its candidate, and each candidate stands for an account.
  pub sizes_from-ConsidersAll :
      (config_size : Config → Option ℕ) (i : ℕ) (accounts : List Config.Account)
      → (order : List Sized) × (sizes_from config_size (λ a. some (account_size a)) i accounts
          ≡ some order)
        × ConsidersAll account_size [] order i accounts
        × All (λ c. StandsFor c accounts) order
  unfolding sizes_from cons_sized
  sizes_from-ConsidersAll config_size i [] = ([], refl, tt, tt)
  sizes_from-ConsidersAll config_size i (a ∷ accounts) =
      let c : Sized = record { index = i; size = account_size a; username = a.username } in
      let (order, e, all, stand) = sizes_from-ConsidersAll config_size (suc i) accounts in
      (
        c ∷ order,
        rw e refl,
        (
          inr (inl (refl, refl)),
          considers_more order (c ∷ order) (λ P h. inr h) (suc i) accounts all,
        ),
        (inl (refl, refl), All-map (λ d s. inr s) order stand),
      )
