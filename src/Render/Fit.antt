-- ===== src/Render/Fit.antt =====
-- `FitAccounts` of internal/render/render.go: accounts are dropped until the configuration fits the
-- Secret that holds it. The size of what YAML makes of a value is a parameter, `none` its error.
pub mod Candidates
pub mod Enough
pub mod Largest
use mailout_operator.Base.{
  ℕ, zero, suc, ◌+◌, ◌-◌, ◌*◌, ◌/◌, ◌%◌, ◌≤◌, ◌<◌, Bool, true, false, not, ◌&&◌, ◌||◌, List, [],
  ◌∷◌, ◌++◌, Option, none, some, ◌≡◌, ◌≢◌, ◌↔◌, ◌⊎◌, inl, inr, refl, sym, ap, subst, ◌∙◌, arith,
  ◌==◌, ltb, leb, if◌then◌else◌, Bool-cases, Option-cases, length, take, drop, is_empty, keep, All,
  Any, append-nil, append_assoc, length-append, some_of, some_of-or, some_of-Any, some_of-keep,
  some_of_mono, ==_iff, Any-append, All-append, All-map, All-keep, Any-elim, All-Any, map, keep_ext,
  some_of-append, append-eq_nil,
}
use mailout_operator.Text.{Bytes, text_before}
use mailout_operator.Config.{Config}
use mailout_operator.Config

abbrev pub config_budget : ℕ
config_budget = 700 * 1024

-- `sized`, with the username that its index stands for.
pub record Sized : Type 0 where
  pub index : ℕ
  pub size : ℕ
  pub username : Bytes

-- The order of `sort.Slice`.
unfoldable pub goes_before : Sized → Sized → Bool
unfolding text_before
goes_before a b =
    if not (a.size == b.size) then ltb b.size a.size else text_before a.username b.username

unfoldable pub insert_sized : Sized → List Sized → List Sized
unfolding goes_before
insert_sized a [] = a ∷ []
insert_sized a (b ∷ bs) =
    let rest = insert_sized a bs in if goes_before b a then b ∷ rest else a ∷ b ∷ bs

unfoldable pub sort_sized : List Sized → List Sized
unfolding insert_sized
sort_sized [] = []
sort_sized (a ∷ as') = insert_sized a (sort_sized as')

abbrev pub is_dropped : ℕ → List ℕ → Bool
is_dropped i dropped = some_of (λ j. j == i) dropped

-- The accounts, counted from an index, that are not dropped.
unfoldable pub not_dropped : List ℕ → ℕ → List Config.Account → List Config.Account
not_dropped dropped i [] = []
not_dropped dropped i (a ∷ accounts) =
    let rest = not_dropped dropped (suc i) accounts in
    if not (is_dropped i dropped) then a ∷ rest else rest

unfoldable pub cons_sized : Sized → Option (List Sized) → Option (List Sized)
cons_sized s none = none
cons_sized s (some rest) = some (s ∷ rest)

module _ (config_size : Config → Option ℕ) (account_size : Config.Account → Option ℕ) where
  unfoldable pub sizes_from : ℕ → List Config.Account → Option (List Sized)
  unfolding cons_sized
  sizes_from i [] = some []
  sizes_from i (a ∷ accounts) = elim (account_size a) [
    | none ↦ none
    | some size ↦
        cons_sized (record { index = i; size = size; username = a.username })
          (sizes_from (suc i) accounts)
  ]

  -- The loop over the candidates: the configuration afterwards, and the names of what is dropped.
  unfoldable pub drop_from : Config → ℕ → List ℕ → List Bytes → List Sized → Config × List Bytes
  unfolding not_dropped
  drop_from config budget dropped names [] = (config, [])
  drop_from config budget dropped names (candidate ∷ order) =
      let dropped' = candidate.index ∷ dropped in
      let names' = names ++ candidate.username ∷ [] in
      let probe : Config = record config { accounts = not_dropped dropped' 0 config.accounts } in
      let rest = drop_from config budget dropped' names' order in
      elim (config_size probe) [
        | none ↦ (config, [])
        | some size ↦ if leb size budget then (probe, names') else rest
      ]

  unfoldable pub drop_sized : Config → ℕ → Option (List Sized) → Config × List Bytes
  unfolding drop_from sort_sized
  drop_sized config budget none = (config, [])
  drop_sized config budget (some order) = drop_from config budget [] [] (sort_sized order)

  unfoldable pub fit_accounts : Config → ℕ → Config × List Bytes
  unfolding drop_sized sizes_from
  fit_accounts config budget = elim (config_size config) [
    | none ↦ (config, [])
    | some size ↦
        if leb size budget
        then (config, [])
        else drop_sized config budget (sizes_from 0 config.accounts)
  ]
