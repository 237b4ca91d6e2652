-- ===== src/Render/Fit/Enough.antt =====
-- Dropping accounts makes room.
use mailout_operator.Base.{
  ℕ, ◌≤◌, true, false, List, [], ◌∷◌, ◌++◌, some, ◌≡◌, ◌⊎◌, inl, inr, refl, sym, ap, subst, arith,
  leb, Bool-cases, is_empty,
}
use mailout_operator.Text.{Bytes}
use mailout_operator.Config.{Config}
use mailout_operator.Config
use mailout_operator.Render.Fit.Candidates.{
  ConsidersAll, sort_sized-Any, all_dropped, drop_one, considers_more, sizes_from-ConsidersAll,
}
use mailout_operator.Render.Fit.{
  drop_sized, fit_accounts, drop_from, Sized, sort_sized, not_dropped,
}

no_or_some {ℓ} : {A : Type ℓ} (l : List A) → (l ≡ []) ⊎ (is_empty l ≡ false)
no_or_some [] = inl refl
no_or_some (x ∷ l) = inr refl

some_candidate :
    (account_size : Config.Account → ℕ) (accounts : List Config.Account) (order : List Sized)
    → ConsidersAll account_size [] order 0 accounts
    → is_empty accounts ≡ false
    → is_empty order ≡ false
some_candidate account_size [] order h e = absurd (ground arith)
some_candidate account_size (a ∷ accounts) [] (inl y, more) e = absurd (ground arith)
some_candidate account_size (a ∷ accounts) [] (inr n, more) e = absurd n
some_candidate account_size (a ∷ accounts) (c ∷ order) h e = refl

leb_of : {m n : ℕ} → m ≤ n → leb m n ≡ true
leb_of h = ground arith

module _ (config_size : Config → ℕ) (account_size : Config.Account → ℕ) where
  drop_from-fits :
      (config : Config) (budget : ℕ) (order : List Sized) (dropped : List ℕ) (names : List Bytes)
      → config_size (record config { accounts = [] }) ≤ budget
      → is_empty order ≡ false
      → ConsidersAll account_size dropped order 0 config.accounts
      → config_size
          (drop_from
            (λ c. some (config_size c))
            (λ a. some (account_size a))
            config
            budget
            dropped
            names
            order).0
        ≤ budget
  unfolding drop_from
  drop_from-fits config budget [] dropped names bare some_left all = absurd (ground arith)
  drop_from-fits config budget (c ∷ []) dropped names bare some_left all =
      let none_left =
        all_dropped account_size (c.index ∷ dropped) 0 config.accounts
          (drop_one account_size c [] dropped 0 config.accounts all) in
      let size = ap (λ l. config_size (record config { accounts = l })) none_left in
      rw (size, leb_of bare) (rw size bare)
  drop_from-fits config budget (c ∷ d ∷ order) dropped names bare some_left all =
      let probe : Config = record config {
        accounts = not_dropped (c.index ∷ dropped) 0 config.accounts;
      } in
      let all' = drop_one account_size c (d ∷ order) dropped 0 config.accounts all in
      elim (Bool-cases (leb (config_size probe) budget)) [
        | inl y ↦ rw y (ground (arith, y))
        | inr n ↦ rw n (
            drop_from-fits config budget (d ∷ order) (c.index ∷ dropped) (names ++ c.username ∷ [])
              bare refl all')
      ]

  -- A configuration that does not fit has an account.
  some_account :
      (config : Config) (budget : ℕ)
      → config_size (record config { accounts = [] }) ≤ budget
      → leb (config_size config) budget ≡ false
      → is_empty config.accounts ≡ false
  some_account config budget bare n = elim (no_or_some config.accounts) [
    | inl e ↦
        let size = ap (λ l. config_size (record config { accounts = l })) e in
        let fits = leb_of (subst (λ m. m ≤ budget) (sym size) bare) in ground (arith, fits)
    | inr e ↦ e
  ]

  -- Whatever the sizes are, once the configuration without any account fits the budget, the one that
  -- is served does.
  pub fit_accounts-fits :
      (config : Config) (budget : ℕ)
      → config_size (record config { accounts = [] }) ≤ budget
      → config_size
          (fit_accounts (λ c. some (config_size c)) (λ a. some (account_size a)) config budget).0
        ≤ budget
  unfolding fit_accounts drop_sized
  fit_accounts-fits config budget bare = elim (Bool-cases (leb (config_size config) budget)) [
    | inl y ↦ rw y (ground (arith, y))
    | inr n ↦
        let (order, e, all, stand) =
          sizes_from-ConsidersAll account_size (λ c. some (config_size c)) 0 config.accounts in
        let all' =
          considers_more account_size order (sort_sized order) (λ P. sort_sized-Any P order) 0
            config.accounts all in
        rw (n, e)
          (drop_from-fits config budget (sort_sized order) [] [] bare
            (some_candidate account_size config.accounts (sort_sized order) all'
              (some_account config budget bare n))
            all')
  ]
