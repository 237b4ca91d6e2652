-- ===== src/Render/Ordering.antt =====
-- The rendered configuration does not depend on the order in which the API server lists the accounts.
use mailout_operator.Base.{
  List, [], ◌∷◌, ◌≡◌, ◌≢◌, inl, inr, refl, sym, ap, subst, ◌∙◌, arith, Bool-cases, All, Any, map,
}
use mathlib.Core.List.{Permᴰ}
use mathlib.Core.List.Permᴰ
use mailout_operator.Text.{text_before, text_before_total, text_before_asym, text_before_trans}
use mailout_operator.Render.{
  Account, Input, insert_account, sort_accounts, gateway_config, render_account,
}

-- No two accounts have one username.
abbrev pub AreDistinct : List Account → Type 0
AreDistinct [] = Unit
AreDistinct (a ∷ l) = All (λ b. a.username ≢ b.username) l × AreDistinct l

insert_account_comm :
    (a b : Account) (l : List Account)
    → a.username ≢ b.username
    → insert_account a (insert_account b l) ≡ insert_account b (insert_account a l)
unfolding insert_account
insert_account_comm a b [] apart =
    ground (arith, text_before_total a.username b.username, text_before_asym a.username b.username)
insert_account_comm a b (c ∷ l) apart = ground (
  arith,
  insert_account_comm a b l apart,
  text_before_total a.username b.username,
  text_before_asym a.username b.username,
  text_before_trans a.username c.username b.username,
  text_before_trans b.username c.username a.username,
  text_before_asym a.username c.username,
  text_before_asym b.username c.username,
  text_before_trans c.username a.username b.username,
  text_before_trans c.username b.username a.username,
  text_before_trans a.username b.username c.username,
  text_before_trans b.username a.username c.username,
)

All-perm : (P : Account → Type 0) {l m : List Account} → Permᴰ l m → All P l → All P m
All-perm P Permᴰ.nil h = tt
All-perm P (Permᴰ.cons e p) (x, h) = (subst P e x, All-perm P p h)
All-perm P (Permᴰ.swap e d) (x, (y, h)) = (subst P d y, (subst P e x, h))
All-perm P (Permᴰ.trans p q) h = All-perm P q (All-perm P p h)

pub AreDistinct-perm : {l m : List Account} → Permᴰ l m → AreDistinct l → AreDistinct m
AreDistinct-perm Permᴰ.nil h = tt
AreDistinct-perm (Permᴰ.cons {l₂ = m} e p) (x, h) =
    (subst (λ v. All (λ w. v.username ≢ w.username) m) e (All-perm _ p x), AreDistinct-perm p h)
AreDistinct-perm (Permᴰ.swap {l = l} e d) ((x, y), (z, h)) = (
  (
    (λ same'. x (ap (λ v. v.username) e ∙ sym same' ∙ ap (λ v. v.username) (sym d))),
    subst (λ v. All (λ w. v.username ≢ w.username) l) d z,
  ),
  (subst (λ v. All (λ w. v.username ≢ w.username) l) e y, h),
)
AreDistinct-perm (Permᴰ.trans p q) h = AreDistinct-perm q (AreDistinct-perm p h)

sort_accounts-perm :
    {l m : List Account} → Permᴰ l m → AreDistinct l → sort_accounts l ≡ sort_accounts m
unfolding sort_accounts
sort_accounts-perm Permᴰ.nil h = refl
sort_accounts-perm (Permᴰ.cons {a = a} {l₂ = m} e p) (x, h) =
    ap (insert_account a) (sort_accounts-perm p h) ∙ ap (λ v. insert_account v (sort_accounts m)) e
sort_accounts-perm (Permᴰ.swap {a = a} {b = b} {a' = c} {l = l} e d) ((x, y), (z, h)) =
    insert_account_comm a b (sort_accounts l) x
    ∙ ap (λ v. insert_account v (insert_account a (sort_accounts l))) d
    ∙ ap (λ v. insert_account c (insert_account v (sort_accounts l))) e
sort_accounts-perm (Permᴰ.trans p q) h =
    sort_accounts-perm p h ∙ sort_accounts-perm q (AreDistinct-perm p h)

-- With usernames that are distinct, the rendered configuration is the same for every order in which
-- the accounts are listed.
pub gateway_config-perm :
    {Selector : Type 0} (input : Input Selector) (accounts : List Account)
    → Permᴰ input.accounts accounts
    → AreDistinct input.accounts
    → gateway_config input ≡ gateway_config (record input { accounts = accounts })
unfolding gateway_config
gateway_config-perm input accounts p h =
    ap (λ l. record (gateway_config input) { accounts = map render_account l })
      (sort_accounts-perm p h)

insert_account-perm : (a : Account) (l : List Account) → Permᴰ (a ∷ l) (insert_account a l)
unfolding insert_account
insert_account-perm a [] = Permᴰ.cons refl Permᴰ.nil
insert_account-perm a (b ∷ l) = elim (Bool-cases (text_before b.username a.username)) [
  | inl y ↦ rw y (Permᴰ.trans (Permᴰ.swap refl refl) (Permᴰ.cons refl (insert_account-perm a l)))
  | inr n ↦ rw n (Permᴰ.refl (a ∷ b ∷ l))
]

-- Sorting accounts neither loses nor makes one.
pub sort_accounts-Permᴰ : (l : List Account) → Permᴰ l (sort_accounts l)
unfolding sort_accounts
sort_accounts-Permᴰ [] = Permᴰ.nil
sort_accounts-Permᴰ (a ∷ l) =
    Permᴰ.trans (Permᴰ.cons refl (sort_accounts-Permᴰ l)) (insert_account-perm a (sort_accounts l))

pub Any-perm : (P : Account → Type 0) {l m : List Account} → Permᴰ l m → Any P l → Any P m
Any-perm P Permᴰ.nil h = h
Any-perm P (Permᴰ.cons e p) (inl h) = inl (subst P e h)
Any-perm P (Permᴰ.cons e p) (inr h) = inr (Any-perm P p h)
Any-perm P (Permᴰ.swap e d) (inl h) = inr (inl (subst P e h))
Any-perm P (Permᴰ.swap e d) (inr (inl h)) = inl (subst P d h)
Any-perm P (Permᴰ.swap e d) (inr (inr h)) = inr (inr h)
Any-perm P (Permᴰ.trans p q) h = Any-perm P q (Any-perm P p h)
