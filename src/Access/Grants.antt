-- ===== src/Access/Grants.antt =====
-- Which senders a gateway grants to a namespace.
use mailout_operator.Base.{
  Bool, true, false, List, [], ◌∷◌, ◌++◌, Option, none, some, ◌≡◌, ◌⊎◌, inl, inr, refl, sym, subst,
  ◌∙◌, arith, if◌then◌else◌, Option-cases, Any, Any-append,
}
use mailout_operator.Text.{Bytes}
use mailout_operator.Api.{MailoutGateway, SenderGrantSpec}
use mailout_operator.Access.{
  granted_from, add_senders, granted_senders, Labelling, cached_labels, matched, grant_applies,
}

add_senders-some :
    (applies : Bool) (senders granted : List Bytes) (rest : Option (List Bytes))
    → add_senders applies senders rest ≡ some granted
    → (more : List Bytes) × (rest ≡ some more)
      × (granted ≡ (if applies then senders ++ more else more))
unfolding add_senders
add_senders-some applies senders granted none h = cc
add_senders-some applies senders granted (some more) h = (more, refl, ground arith)

split_senders :
    (P : Bytes → Type 0) (applies : Bool) (senders more granted : List Bytes)
    → granted ≡ (if applies then senders ++ more else more)
    → Any P granted
    → ((applies ≡ true) × Any P senders) ⊎ Any P more
split_senders P true senders more granted e a =
    elim (Any-append P senders more (subst (Any P) e a)) [ inl y ↦ inl (refl, y) | inr z ↦ inr z ]
split_senders P false senders more granted e a = inr (subst (Any P) e a)

module _ {Selector Labels : Type 0} (cluster : Labelling Selector Labels) where
  -- A grant without a selector applies everywhere, another to the namespaces it selects.
  pub data Applies (namespace : Bytes) : Option Selector → Type 0 where
    everywhere : Applies namespace none
    selected :
        {s : Selector} {matches : Labels → Bool} {labels : Labels}
        → cluster.as_selector s ≡ some matches
        → cluster.namespace_labels namespace ≡ some labels
        → matches labels ≡ true
        → Applies namespace (some s)

  -- What is known of the labels is right.
  abbrev AreKnown : Bytes → Option Labels → Type 0
  AreKnown namespace none = Unit
  AreKnown namespace (some labels) = cluster.namespace_labels namespace ≡ some labels

  cached_labels-right :
      (namespace : Bytes) (known : Option Labels)
      → AreKnown namespace known
      → cached_labels cluster namespace known ≡ cluster.namespace_labels namespace
  unfolding cached_labels
  cached_labels-right namespace none k = refl
  cached_labels-right namespace (some labels) k = sym k

  matched-eq :
      (t : Option (Labels → Bool)) (l : Option Labels) (applies : Bool) (known : Option Labels)
      → matched cluster t l ≡ some (applies, known)
      → (matches : Labels → Bool) × (labels : Labels) × (t ≡ some matches)
        × (l ≡ some labels)
        × (matches labels ≡ applies)
        × (known ≡ some labels)
  unfolding matched
  matched-eq none l applies known h = cc
  matched-eq (some m) none applies known h = cc
  matched-eq (some m) (some labels) applies known h = (m, labels, refl, refl, cc, cc)

  grant_applies-Applies :
      (namespace : Bytes) (known : Option Labels) (s : Option Selector) (applies : Bool)
      (next : Option Labels)
      → AreKnown namespace known
      → grant_applies cluster namespace known s ≡ some (applies, next)
      → AreKnown namespace next × (applies ≡ true → Applies namespace s)
  unfolding grant_applies
  grant_applies-Applies namespace known none applies next k h =
      (subst (AreKnown namespace) (ground arith) k, λ e. everywhere)
  grant_applies-Applies namespace known (some s) applies next k h =
      let (matches, labels, parsed, found, verdict, kept) =
        matched-eq (cluster.as_selector s) (cached_labels cluster namespace known) applies next h in
      let read : cluster.namespace_labels namespace ≡ some labels =
        sym (cached_labels-right namespace known k) ∙ found in
      (subst (AreKnown namespace) (sym kept) read, λ e. selected parsed read (verdict ∙ e))

  pub GrantWith : (Bytes → Type 0) → Bytes → SenderGrantSpec Selector → Type 0
  GrantWith P namespace grant = Applies namespace grant.namespace_selector × Any P grant.senders

  granted_from-GrantWith :
      (P : Bytes → Type 0) (namespace : Bytes) (known : Option Labels)
      (grants : List (SenderGrantSpec Selector)) (granted : List Bytes)
      → AreKnown namespace known
      → granted_from cluster namespace known grants ≡ some granted
      → Any P granted
      → Any (GrantWith P namespace) grants
  unfolding granted_from GrantWith
  granted_from-GrantWith P namespace known [] granted k h a =
      let e : granted ≡ [] = ground arith in absurd (subst (Any P) e a)
  granted_from-GrantWith P namespace known (grant ∷ grants) granted k h a =
      elim (Option-cases (grant_applies cluster namespace known grant.namespace_selector)) [
        | inl n ↦ absurd (ground arith)
        | inr ((applies, next), n) ↦
            let (right, means) =
              grant_applies-Applies namespace known grant.namespace_selector applies next k n in
            let (more, found, e) =
              add_senders-some applies grant.senders granted
                (granted_from cluster namespace next grants) (ground arith) in
            elim (split_senders P applies grant.senders more granted e a) [
              | inl y ↦ inl (means y.0, y.1)
              | inr z ↦ inr (granted_from-GrantWith P namespace next grants more right found z)
            ]
      ]

  -- What is granted to a namespace comes from a grant that applies to it.
  pub granted_senders-GrantWith :
      (P : Bytes → Type 0) (gw : MailoutGateway Selector) (namespace : Bytes) (granted : List Bytes)
      → granted_senders cluster gw namespace ≡ some granted
      → Any P granted
      → Any (GrantWith P namespace) gw.spec.allowed_senders
  unfolding granted_senders
  granted_senders-GrantWith P gw namespace granted h a =
      granted_from-GrantWith P namespace none gw.spec.allowed_senders granted tt h a
