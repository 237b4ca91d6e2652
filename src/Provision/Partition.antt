-- ===== src/Provision/Partition.antt =====
-- A rendered account that can be served, with a name of its own, is served.
use mailout_operator.Base.{
  ℕ, suc, true, false, List, [], ◌∷◌, Option, none, ◌≡◌, ◌≢◌, inl, inr, refl, sym, ap, subst, ◌∙◌,
  arith, Bool-cases, Option-cases, is_empty, All, Any, Any-elim, All-Any, map,
}
use mailout_operator.Text.{Bytes, add, same, same_iff, has, has-add}
use mailout_operator.Config.{
  Config, valid_username, usable_hash, rejection, partition_from, partition_accounts,
}
use mailout_operator.Config
use mailout_operator.Config.Accounts.{IsServable}
use mailout_operator.Render.{Account, render_account}
use mailout_operator.Render.Ordering.{AreDistinct}

not_empty {ℓ} : {A : Type ℓ} (l : List A) → l ≢ [] → is_empty l ≡ false
not_empty [] h = absurd (h refl)
not_empty (x ∷ l) h = refl

valid_username-given : (u : Bytes) → valid_username u ≡ true → is_empty u ≡ false
unfolding valid_username
valid_username-given [] h = cc
valid_username-given (c ∷ u) h = refl

-- An account that can be served, with a name of its own so far, is not rejected.
rejection-IsServable :
    (cost : Bytes → Option ℕ) (seen : List Bytes) (i : ℕ) (a : Config.Account)
    → IsServable cost a
    → has a.username seen ≡ false
    → rejection cost seen i a ≡ none
unfolding rejection
rejection-IsServable cost seen i a good new =
    rw
      (
        valid_username-given a.username good.safe,
        new,
        good.safe,
        not_empty a.password_hash good.has_hash,
        good.usable,
      )
      refl

distinct_from :
    (x a : Account) (l : List Account)
    → All (λ b. x.username ≢ b.username) l
    → Any (λ b. b ≡ a) l
    → same x.username a.username ≡ false
distinct_from x a l apart m = elim (Bool-cases (same x.username a.username)) [
  | inr n ↦ n
  | inl y ↦ absurd (
      Any-elim (λ b (f, e). e ((same_iff x.username a.username).0 y ∙ ap (λ v. v.username) (sym f)))
        l (All-Any (λ b e f. e) l apart m))
]

-- A rendered account with a name of its own that can be served is served.
pub partition_from_serves :
    (cost : Bytes → Option ℕ) (seen : List Bytes) (i : ℕ) (l : List Account) (a : Account)
    → AreDistinct l
    → Any (λ b. b ≡ a) l
    → IsServable cost (render_account a)
    → has a.username seen ≡ false
    → Any (λ b. b ≡ render_account a) (partition_from cost seen i (map render_account l)).0
unfolding partition_from render_account
partition_from_serves cost seen i [] a d m good new = absurd m
partition_from_serves cost seen i (x ∷ l) a (apart, d) (inl e) good new =
    subst
      (λ v.
        Any (λ b. b ≡ render_account a) (partition_from cost seen i (map render_account (v ∷ l))).0)
      (sym e)
      (rw (partition_from, rejection-IsServable cost seen i (render_account a) good new) (inl refl))
partition_from_serves cost seen i (x ∷ l) a (apart, d) (inr m) good new =
    elim (Option-cases (rejection cost seen i (render_account x))) [
      | inl free ↦
          rw (partition_from, free)
            (inr (
              partition_from_serves cost (add x.username seen) (suc i) l a d m good (
                has-add a.username x.username seen
                ∙ ground (arith, distinct_from x a l apart m, new))))
      | inr (r, rejected) ↦
          rw (partition_from, rejected) (partition_from_serves cost seen (suc i) l a d m good new)
    ]
