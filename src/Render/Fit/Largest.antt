-- ===== src/Render/Fit/Largest.antt =====
-- The largest accounts are dropped first.
use mailout_operator.Base.{
  ℕ, suc, ◌≤◌, true, false, List, [], ◌∷◌, ◌++◌, Option, none, some, ◌≡◌, inl, inr, subst, arith,
  leb, if◌then◌else◌, Bool-cases, All, Any, All-append, All-map, Any-map,
}
use mailout_operator.Text.{Bytes}
use mailout_operator.Config.{Config}
use mailout_operator.Config
use mailout_operator.Render.Fit.{
  Sized, goes_before, insert_sized, sort_sized, is_dropped, not_dropped, drop_from, drop_sized,
  fit_accounts,
}
use mailout_operator.Render.Fit.Candidates.{
  ConsidersAll, StandsFor, sort_sized-Any, drop_one, considers_more, sizes_from-ConsidersAll,
}

-- Candidates from the largest to the smallest.
abbrev AreDescending : List Sized → Type 0
AreDescending [] = Unit
AreDescending (c ∷ order) = All (λ d. d.size ≤ c.size) order × AreDescending order

goes_before-size : (a b : Sized) → goes_before a b ≡ true → b.size ≤ a.size
unfolding goes_before
goes_before-size a b h = ground arith

goes_before-not : (a b : Sized) → goes_before a b ≡ false → a.size ≤ b.size
unfolding goes_before
goes_before-not a b h = ground arith

insert_sized-All :
    (P : Sized → Type 0) (a : Sized) (l : List Sized) → P a → All P l → All P (insert_sized a l)
unfolding insert_sized
insert_sized-All P a [] x h = (x, tt)
insert_sized-All P a (b ∷ l) x (y, h) = elim (Bool-cases (goes_before b a)) [
  | inl t ↦ rw t (y, insert_sized-All P a l x h)
  | inr f ↦ rw f (x, (y, h))
]

sort_sized-All : (P : Sized → Type 0) (l : List Sized) → All P l → All P (sort_sized l)
unfolding sort_sized
sort_sized-All P [] h = tt
sort_sized-All P (a ∷ l) (x, h) = insert_sized-All P a (sort_sized l) x (sort_sized-All P l h)

insert_sized-AreDescending :
    (a : Sized) (l : List Sized) → AreDescending l → AreDescending (insert_sized a l)
unfolding insert_sized
insert_sized-AreDescending a [] h = (tt, tt)
insert_sized-AreDescending a (b ∷ l) (x, h) = elim (Bool-cases (goes_before b a)) [
  | inl t ↦ rw t (
    insert_sized-All (λ d. d.size ≤ b.size) a l (goes_before-size b a t) x,
    insert_sized-AreDescending a l h,
  )
  | inr f ↦
      let first = goes_before-not b a f in
      rw f ((first, All-map (λ d s. omega (arith, first, s)) l x), (x, h))
]

sort_sized-AreDescending : (l : List Sized) → AreDescending (sort_sized l)
unfolding sort_sized
sort_sized-AreDescending [] = tt
sort_sized-AreDescending (a ∷ l) =
    insert_sized-AreDescending a (sort_sized l) (sort_sized-AreDescending l)

candidate_small :
    (i t size : ℕ) (order : List Sized)
    → All (λ d. d.size ≤ t) order
    → Any (λ c. (c.index ≡ i) × (c.size ≡ size)) order
    → size ≤ t
candidate_small i t size [] small h = absurd h
candidate_small i t size (c ∷ order) (x, small) (inl (e, f)) = subst (λ m. m ≤ t) f x
candidate_small i t size (c ∷ order) (x, small) (inr h) = candidate_small i t size order small h

module _ (config_size : Config → Option ℕ) (account_size : Config.Account → ℕ) where
  -- An account of at least this size has the username.
  abbrev pub IsLarge : ℕ → List Config.Account → Bytes → Type 0
  IsLarge t accounts u = Any (λ a. (a.username ≡ u) × (t ≤ account_size a)) accounts

  -- Nothing is dropped, or there is a size that no account left exceeds and no dropped one is below.
  pub data DropsLargest (config : Config) : Config × List Bytes → Type 0 where
    all_kept : DropsLargest config (config, [])
    largest_dropped :
        {left : Config} {names : List Bytes} (t : ℕ)
        → All (λ a. account_size a ≤ t) left.accounts
        → All (IsLarge t config.accounts) names
        → DropsLargest config (left, names)

  -- What is not dropped is a candidate, hence no larger than the last one.
  left_small :
      (t : ℕ) (dropped : List ℕ) (order : List Sized) (i : ℕ) (accounts : List Config.Account)
      → All (λ d. d.size ≤ t) order
      → ConsidersAll account_size dropped order i accounts
      → All (λ a. account_size a ≤ t) (not_dropped dropped i accounts)
  unfolding not_dropped
  left_small t dropped order i [] small h = tt
  left_small t dropped order i (a ∷ accounts) small (inl y, h) =
      rw y (left_small t dropped order (suc i) accounts small h)
  left_small t dropped order i (a ∷ accounts) small (inr n, h) =
      let rest = left_small t dropped order (suc i) accounts small h in
      elim (Bool-cases (is_dropped i dropped)) [
        | inl y ↦ rw y rest
        | inr k ↦ rw k (candidate_small i t (account_size a) order small n, rest)
      ]

  one_step :
      (config probe : Config) (names : List Bytes) (rest : Config × List Bytes) (budget : ℕ)
      (size : Option ℕ)
      → DropsLargest config (probe, names)
      → DropsLargest config rest
      → DropsLargest config (elim size [
        | none ↦ (config, [])
        | some n ↦ if leb n budget then (probe, names) else rest
      ])
  one_step config probe names rest budget none here there = all_kept
  one_step config probe names rest budget (some n) here there = elim (Bool-cases (leb n budget)) [
    | inl y ↦ rw y here
    | inr k ↦ rw k there
  ]

  drop_from-DropsLargest :
      (config : Config) (budget : ℕ) (order : List Sized) (dropped : List ℕ) (names : List Bytes)
      → AreDescending order
      → ConsidersAll account_size dropped order 0 config.accounts
      → All (λ c. StandsFor account_size c config.accounts) order
      → All (λ u. All (λ c. IsLarge c.size config.accounts u) order) names
      → DropsLargest config
          (drop_from config_size (λ a. some (account_size a)) config budget dropped names order)
  unfolding drop_from
  drop_from-DropsLargest config budget [] dropped names sorted all stand large = all_kept
  drop_from-DropsLargest config budget (c ∷ order) dropped names (below, sorted) all (first, stand)
        large =
      let all' = drop_one account_size c order dropped 0 config.accounts all in
      let probe : Config = record config {
        accounts = not_dropped (c.index ∷ dropped) 0 config.accounts;
      } in
      let itself : IsLarge c.size config.accounts c.username =
        Any-map (λ a (e, f). (e, omega (arith, f))) config.accounts first in
      one_step config probe (names ++ c.username ∷ []) _ budget (config_size probe)
        (largest_dropped c.size
          (left_small c.size (c.index ∷ dropped) order 0 config.accounts below all')
          (All-append _ names (c.username ∷ []) (All-map (λ u h. h.0) names large) (itself, tt)))
        (drop_from-DropsLargest config budget order (c.index ∷ dropped) (names ++ c.username ∷ [])
          sorted all' stand
          (All-append _ names (c.username ∷ []) (All-map (λ u h. h.1) names large) (
            All-map (λ d s. Any-map (λ a (e, f). (e, omega (arith, f, s))) config.accounts itself)
                order below,
            tt,
          )))

  -- Whatever the sizes of configurations are: nothing is dropped, or there is a size that no account
  -- left exceeds, and that each dropped username has an account to reach.
  pub fit_accounts-DropsLargest :
      (config : Config) (budget : ℕ)
      → DropsLargest config (fit_accounts config_size (λ a. some (account_size a)) config budget)
  unfolding fit_accounts drop_sized
  fit_accounts-DropsLargest config budget =
      let (order, e, all, stand) =
        sizes_from-ConsidersAll account_size config_size 0 config.accounts in
      let all' =
        considers_more account_size order (sort_sized order) (λ P. sort_sized-Any P order) 0
          config.accounts all in
      let sorted =
        drop_from-DropsLargest config budget (sort_sized order) [] []
          (sort_sized-AreDescending order) all' (sort_sized-All _ order stand) tt in
      one_step config config [] _ budget (config_size config) (all_kept) (rw e sorted)
