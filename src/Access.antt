-- ===== src/Access.antt =====
-- internal/controller/access.go and `usernameConflict` of account_controller.go: which account object
-- holds a username on a gateway. A creation time is a number of seconds.
pub mod Conflict
pub mod Grants
pub mod Samples
mod Tests
use mailout_operator.Base.{
  ℕ, zero, suc, ◌+◌, ◌-◌, ◌*◌, ◌/◌, ◌%◌, ◌≤◌, ◌<◌, Bool, true, false, not, ◌&&◌, ◌||◌, List, [],
  ◌∷◌, ◌++◌, Option, none, some, ◌≡◌, ◌≢◌, ◌↔◌, ◌⊎◌, inl, inr, refl, sym, ap, subst, ◌∙◌, arith,
  ◌==◌, ltb, leb, if◌then◌else◌, Bool-cases, Option-cases, length, take, drop, is_empty, keep, All,
  Any, append-nil, append_assoc, length-append, some_of, some_of-or, some_of-Any, some_of-keep,
  some_of_mono, ==_iff, Any-append, All-append, All-map, All-keep, Any-elim, All-Any, map, keep_ext,
  some_of-append,
}
use mailout_operator.Text.{Bytes, same, text_before}
use mailout_operator.Api.{
  MailoutAccount, MailoutGateway, SenderGrantSpec, NamespacesFrom, from_all, from_same,
  from_selector, from_default, from_other,
}

unfoldable pub gateway_namespace_for : MailoutAccount → Bytes → Bytes
gateway_namespace_for account operator_namespace =
    if not (is_empty account.spec.gateway_ref.namespace)
    then account.spec.gateway_ref.namespace
    else operator_namespace

unfoldable pub username_for : MailoutAccount → Bytes
username_for account =
    if not (is_empty account.spec.username)
    then account.spec.username
    else account.namespace ++ b'.' ∷ account.name

abbrev pub is_same_object : MailoutAccount → MailoutAccount → Bool
is_same_object other account =
    same other.namespace account.namespace && same other.name account.name

abbrev pub is_on : {Selector : Type 0} → Bytes → MailoutGateway Selector → MailoutAccount → Bool
is_on operator_namespace gw other =
    same (gateway_namespace_for other operator_namespace) gw.namespace
    && same other.spec.gateway_ref.name gw.name

-- The switch on the creation times and the UIDs.
unfoldable pub keeps_name : MailoutAccount → MailoutAccount → Bool
unfolding text_before
keeps_name other account =
    if ltb other.creation_timestamp account.creation_timestamp
    then true
    else if ltb account.creation_timestamp other.creation_timestamp
    then false
    else text_before other.uid account.uid

-- The holder of the name, over the list of all accounts.
unfoldable pub username_conflict :
    {Selector : Type 0}
    → Bytes
    → MailoutGateway Selector
    → Bytes
    → MailoutAccount
    → List MailoutAccount
    → Option Bytes
unfolding keeps_name gateway_namespace_for username_for
username_conflict operator_namespace gw username account [] = none
username_conflict operator_namespace gw username account (other ∷ items) =
    let rest = username_conflict operator_namespace gw username account items in
    if is_same_object other account
    then rest
    else if not (is_on operator_namespace gw other)
    then rest
    else if not (same (username_for other) username)
    then rest
    else if keeps_name other account
    then some (other.namespace ++ b'/' ∷ other.name)
    else rest

-- What the Kubernetes libraries and the API server answer: the test that a selector stands for, and the
-- labels of a namespace; `none` is an error.
pub record Labelling (Selector Labels : Type 0) : Type 0 where
  pub as_selector : Selector → Option (Labels → Bool)
  pub namespace_labels : Bytes → Option Labels

-- What a lookup of a gateway answers.
pub data GatewayAnswer (Selector : Type 0) : Type 0 where
  gateway_found : MailoutGateway Selector → GatewayAnswer Selector
  gateway_missing gateway_failed : GatewayAnswer Selector

unfoldable pub add_senders : Bool → List Bytes → Option (List Bytes) → Option (List Bytes)
add_senders applies senders none = none
add_senders applies senders (some rest) = some (if applies then senders ++ rest else rest)

module _ {Selector Labels : Type 0} (cluster : Labelling Selector Labels) where
  unfoldable pub selects : Bytes → Option (Labels → Bool) → Option Bool
  selects namespace none = none
  selects namespace (some matches) = elim (cluster.namespace_labels namespace) [
    | none ↦ none
    | some labels ↦ some (matches labels)
  ]

  unfoldable pub allowed_by_selector : Bytes → Option Selector → Option Bool
  unfolding selects
  allowed_by_selector namespace none = some false
  allowed_by_selector namespace (some s) = selects namespace (cluster.as_selector s)

  unfoldable pub allowed_from : MailoutGateway Selector → Bytes → NamespacesFrom → Option Bool
  unfolding allowed_by_selector
  allowed_from gw namespace from_default = some true
  allowed_from gw namespace from_all = some true
  allowed_from gw namespace from_same = some (same namespace gw.namespace)
  allowed_from gw namespace from_selector =
      allowed_by_selector namespace gw.spec.allowed_accounts.selector
  allowed_from gw namespace (from_other s) = none

  -- `none` is an error.
  unfoldable pub namespace_allowed : MailoutGateway Selector → Bytes → Option Bool
  unfolding allowed_from
  namespace_allowed gw namespace = allowed_from gw namespace gw.spec.allowed_accounts.namespaces

  -- The labels read before, or read now.
  unfoldable pub cached_labels : Bytes → Option Labels → Option Labels
  cached_labels namespace (some labels) = some labels
  cached_labels namespace none = cluster.namespace_labels namespace

  unfoldable pub matched : Option (Labels → Bool) → Option Labels → Option (Bool × Option Labels)
  matched none labels = none
  matched (some matches) none = none
  matched (some matches) (some labels) = some (matches labels, some labels)

  -- Whether a grant applies, and the labels that are known then.
  unfoldable pub grant_applies :
      Bytes → Option Labels → Option Selector → Option (Bool × Option Labels)
  unfolding cached_labels matched
  grant_applies namespace ns_labels none = some (true, ns_labels)
  grant_applies namespace ns_labels (some s) =
      matched (cluster.as_selector s) (cached_labels namespace ns_labels)

  -- The loop over the grants.
  unfoldable pub granted_from :
      Bytes → Option Labels → List (SenderGrantSpec Selector) → Option (List Bytes)
  unfolding grant_applies add_senders
  granted_from namespace ns_labels [] = some []
  granted_from namespace ns_labels (grant ∷ grants) =
      elim (grant_applies namespace ns_labels grant.namespace_selector) [
        | none ↦ none
        | some (applies, known) ↦
            add_senders applies grant.senders (granted_from namespace known grants)
      ]

  unfoldable pub granted_senders : MailoutGateway Selector → Bytes → Option (List Bytes)
  unfolding granted_from
  granted_senders gw namespace = granted_from namespace none gw.spec.allowed_senders
