-- ===== src/Webhook/Accounts.antt =====
-- internal/webhook/v1alpha1/mailoutaccount_webhook.go: the checks of an account. What the API server
-- answers is a parameter.
pub mod Names
use mailout_operator.Base.{
  ℕ, zero, suc, ◌+◌, ◌-◌, ◌*◌, ◌/◌, ◌%◌, ◌≤◌, ◌<◌, Bool, true, false, not, ◌&&◌, ◌||◌, List, [],
  ◌∷◌, ◌++◌, Option, none, some, ◌≡◌, ◌≢◌, ◌↔◌, ◌⊎◌, inl, inr, refl, sym, ap, subst, ◌∙◌, arith,
  ◌==◌, ltb, leb, if◌then◌else◌, Bool-cases, Option-cases, length, take, drop, is_empty, keep, All,
  Any, append-nil, append_assoc, length-append, some_of, some_of-or, some_of-Any, some_of-keep,
  some_of_mono, ==_iff, Any-append, All-append, All-map, All-keep, Any-elim, All-Any, map, keep_ext,
  some_of-append,
}
use mailout_operator.Text.{Bytes, codes, same}
use mailout_operator.Config.{starts_with, valid_username}
use mailout_operator.Policy.{granted_subset}
use mailout_operator.Api.{
  MailoutAccount, MailoutGateway, NamespacesFrom, from_all, from_same, from_selector, from_default,
  from_other,
}
use mailout_operator.Access.{
  GatewayAnswer, gateway_found, gateway_missing, gateway_failed, Labelling, gateway_namespace_for,
  username_for, is_same_object, is_on, granted_senders,
}
use mailout_operator.Webhook.Senders.{SenderError, validate_allowed_senders}

pub data AccountError : Type 0 where
  no_such_gateway namespace_not_accepted username_taken : AccountError
  not_qualified unusable_username unusable_default : AccountError
  in_senders : SenderError → AccountError
  grant_not_resolved : AccountError
  -- An entry that is not granted, and whether nothing at all is.
  not_granted : Bytes → Bool → AccountError
  secret_not_managed : AccountError

pub data AccountWarning : Type 0 where
  header_from_not_enforced : AccountWarning

-- The owners of a Secret, each with its kind and its name, and its label `app.kubernetes.io/managed-by`.
pub record SecretMeta : Type 0 where
  pub owners : List (Bytes × Bytes)
  pub managed_by : Bytes

-- What a validator answers: the error of a lookup, or its warnings and its errors.
pub data Verdict : Type 0 where
  lookup_failed : Verdict
  judged : List AccountWarning → List AccountError → Verdict

abbrev pub refuse_if : Bool → AccountError → List AccountError
refuse_if true e = e ∷ []
refuse_if false e = []

abbrev pub is_from_same : NamespacesFrom → Bool
is_from_same from_same = true
is_from_same from_all = false
is_from_same from_selector = false
is_from_same from_default = false
is_from_same (from_other s) = false

-- The loop over the other accounts.
unfoldable pub name_is_taken :
    {Selector : Type 0}
    → Bytes
    → MailoutGateway Selector
    → MailoutAccount
    → List MailoutAccount
    → Bool
unfolding gateway_namespace_for username_for
name_is_taken operator_namespace gw account [] = false
name_is_taken operator_namespace gw account (other ∷ items) =
    let rest = name_is_taken operator_namespace gw account items in
    if is_same_object other account
    then rest
    else if not (is_on operator_namespace gw other)
    then rest
    else if same (username_for other) (username_for account)
    then true
    else rest

unfoldable pub taken_in_list :
    {Selector : Type 0}
    → Bytes
    → MailoutGateway Selector
    → MailoutAccount
    → Option (List MailoutAccount)
    → Bool
unfolding name_is_taken
taken_in_list operator_namespace gw account none = false
taken_in_list operator_namespace gw account (some items) =
    name_is_taken operator_namespace gw account items

-- `validateAgainstGateway`; a list that cannot be read is `none`.
unfoldable pub validate_against_gateway :
    {Selector : Type 0}
    → Bytes
    → MailoutGateway Selector
    → MailoutAccount
    → Option (List MailoutAccount)
    → List AccountError
unfolding taken_in_list
validate_against_gateway operator_namespace gw account accounts =
    refuse_if
      (is_from_same gw.spec.allowed_accounts.namespaces
        && not (same account.namespace gw.namespace))
      namespace_not_accepted
    ++ refuse_if (taken_in_list operator_namespace gw account accounts) username_taken

unfoldable pub validate_username : MailoutAccount → List AccountError
unfolding starts_with valid_username username_for
validate_username account =
    refuse_if
      (not (is_empty account.spec.username)
        && not (starts_with (account.namespace ++ codes ".") account.spec.username))
      not_qualified
    ++ refuse_if (not (valid_username (username_for account)))
        (if is_empty account.spec.username then unusable_default else unusable_username)

unfoldable pub refused_senders : List Bytes → Option (List Bytes) → List AccountError
unfolding granted_subset
refused_senders requested none = grant_not_resolved ∷ []
refused_senders requested (some granted) =
    map (λ entry. not_granted entry (is_empty granted)) (granted_subset granted requested).1

unfoldable pub owned_by_account : Bytes → List (Bytes × Bytes) → Bool
owned_by_account name [] = false
owned_by_account name ((kind, owner) ∷ owners) =
    (same kind (codes "MailoutAccount") && same owner name) || owned_by_account name owners

-- `validateSecretRef`; a Secret that is absent or cannot be read is `none`.
unfoldable pub validate_secret_ref : MailoutAccount → Option SecretMeta → List AccountError
unfolding owned_by_account
validate_secret_ref account none = []
validate_secret_ref account (some secret) =
    if owned_by_account account.name secret.owners
    then []
    else if same secret.managed_by (codes "mailout-operator")
    then []
    else secret_not_managed ∷ []

unfoldable pub header_from_warnings : Option Bool → List AccountWarning
header_from_warnings (some false) = header_from_not_enforced ∷ []
header_from_warnings (some true) = []
header_from_warnings none = []

module _ {Selector Labels : Type 0} (cluster : Labelling Selector Labels) where
  -- `validateAgainstGrant`, from the answer of its own lookup of the gateway.
  unfoldable pub validate_against_grant :
      GatewayAnswer Selector → MailoutAccount → List AccountError
  unfolding refused_senders granted_senders
  validate_against_grant gateway_missing account = []
  validate_against_grant gateway_failed account = []
  validate_against_grant (gateway_found gw) account =
      if is_empty account.spec.allowed_senders
      then []
      else refused_senders account.spec.allowed_senders
          (granted_senders cluster gw account.namespace)

  -- The rest of `validate`, from the errors of the gateway.
  unfoldable pub validate_rest :
      GatewayAnswer Selector → Option SecretMeta → MailoutAccount → List AccountError → Verdict
  unfolding validate_username validate_against_grant validate_secret_ref validate_allowed_senders
      header_from_warnings
  validate_rest grant_answer secret account errs =
      judged (header_from_warnings account.spec.enforce_header_from) (
        errs
        ++ (validate_username account
            ++ (map in_senders (validate_allowed_senders [] 0 account.spec.allowed_senders)
                ++ (validate_against_grant grant_answer account
                    ++ validate_secret_ref account secret))))

  -- `validate`, from the answers of the two lookups of the gateway (its own and, later, the one of
  -- `validateAgainstGrant`), and about the other accounts and the Secret.
  unfoldable pub validate_account :
      Bytes
      → GatewayAnswer Selector
      → GatewayAnswer Selector
      → Option (List MailoutAccount)
      → Option SecretMeta
      → MailoutAccount
      → Verdict
  unfolding validate_rest validate_against_gateway
  validate_account operator_namespace gateway_failed grant_answer accounts secret account =
      lookup_failed
  validate_account operator_namespace gateway_missing grant_answer accounts secret account =
      validate_rest grant_answer secret account (no_such_gateway ∷ [])
  validate_account operator_namespace (gateway_found gw) grant_answer accounts secret account =
      validate_rest grant_answer secret account
        (validate_against_gateway operator_namespace gw account accounts)
