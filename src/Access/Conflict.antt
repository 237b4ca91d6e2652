-- ===== src/Access/Conflict.antt =====
-- Of two accounts with one username on a gateway, one is refused.
use mailout_operator.Base.{
  ◌∙◌, true, false, List, [], ◌∷◌, none, ◌≡◌, ◌≢◌, ◌⊎◌, inl, inr, arith, Bool-cases, Any,
}
use mailout_operator.Text.{text_before_total, Bytes, same, same_iff}
use mailout_operator.Api.{MailoutAccount, MailoutGateway}
use mailout_operator.Access.{
  sym, username_for, is_same_object, is_on, keeps_name, username_conflict,
}

keeps_name-total :
    (a b : MailoutAccount) → a.uid ≢ b.uid → (keeps_name a b ≡ true) ⊎ (keeps_name b a ≡ true)
unfolding keeps_name
keeps_name-total a b d = elim (Bool-cases (keeps_name a b)) [
  | inl y ↦ inl y
  | inr n ↦ elim (Bool-cases (keeps_name b a)) [
    | inl y ↦ inr y
    | inr m ↦ absurd (d (text_before_total a.uid b.uid (ground arith) (ground arith)))
  ]
]

same_sym : (s t : Bytes) → same s t ≡ same t s
same_sym s t = elim (Bool-cases (same s t)) [
  | inl y ↦ y ∙ sym ((same_iff t s).1 (sym ((same_iff s t).0 y)))
  | inr n ↦ elim (Bool-cases (same t s)) [
    | inl y ↦ (same_iff s t).1 (sym ((same_iff t s).0 y)) ∙ sym y
    | inr m ↦ n ∙ sym m
  ]
]

is_same_object-sym :
    (a b : MailoutAccount) → is_same_object a b ≡ false → is_same_object b a ≡ false
is_same_object-sym a b s = ground (arith, same_sym b.namespace a.namespace, same_sym b.name a.name)

module _ {Selector : Type 0} (operator_namespace : Bytes) (gw : MailoutGateway Selector)
    (username : Bytes) where
  -- The account refers to the gateway, and goes by the username there.
  pub record Claims (a : MailoutAccount) : Type 0 where
    pub on_gateway : is_on operator_namespace gw a ≡ true
    pub by_name : username_for a ≡ username

  username_conflict-some :
      (account other : MailoutAccount) (items : List MailoutAccount)
      → Any (λ o. o ≡ other) items
      → is_same_object other account ≡ false
      → Claims other
      → keeps_name other account ≡ true
      → username_conflict operator_namespace gw username account items ≢ none
  unfolding username_conflict
  username_conflict-some account other [] m s c k e = absurd m
  username_conflict-some account other (o ∷ items) (inl q) s c k e =
      let named : same (username_for other) username ≡ true = (same_iff _ _).1 c.by_name in
      let on = c.on_gateway in ground arith
  username_conflict-some account other (o ∷ items) (inr m) s c k e =
      username_conflict-some account other items m s c k (ground arith)

  -- Of two accounts in the list that are different objects with different UIDs, refer to one gateway
  -- and go by one username there, at least one is found in conflict, whatever their creation times.
  pub username_conflict_excludes :
      (a b : MailoutAccount) (items : List MailoutAccount)
      → Any (λ o. o ≡ a) items
      → Any (λ o. o ≡ b) items
      → is_same_object a b ≡ false
      → a.uid ≢ b.uid
      → Claims a
      → Claims b
      → (username_conflict operator_namespace gw username a items ≢ none)
        ⊎ (username_conflict operator_namespace gw username b items ≢ none)
  username_conflict_excludes a b items ma mb s d ca cb = elim (keeps_name-total a b d) [
    | inl k ↦ inr (username_conflict-some b a items ma s ca k)
    | inr k ↦ inl (username_conflict-some a b items mb (is_same_object-sym a b s) cb k)
  ]
