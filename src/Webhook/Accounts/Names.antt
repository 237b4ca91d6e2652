-- ===== src/Webhook/Accounts/Names.antt =====
-- What the admission of an account settles: whose name it has, and what it may send from.
use mailout_operator.Base.{
  Bool, true, false, not, ◌&&◌, List, [], ◌∷◌, ◌++◌, Option, none, some, ◌≡◌, ◌≢◌, inl, inr, refl,
  sym, ap, subst, ◌∙◌, arith, if◌then◌else◌, Bool-cases, is_empty, keep, append_assoc, map,
  append-eq_nil,
}
use mailout_operator.Text.{Bytes, codes, same, has, contains}
use mailout_operator.Config.{valid_username, starts_with}
use mailout_operator.Config.Texts.{starts_with-append}
use mailout_operator.Render.{Account}
use mailout_operator.Policy.{entries, granted_subset}
use mailout_operator.Api.{MailoutAccount, MailoutGateway}
use mailout_operator.Access.{
  GatewayAnswer, gateway_found, gateway_missing, gateway_failed, Labelling, username_for,
  username_conflict, granted_senders,
}
use mailout_operator.Collect.{collected, render_account_of, is_false}
use mailout_operator.Webhook.Accounts.{
  unusable_default, unusable_username, AccountError, AccountWarning, SecretMeta, Verdict,
  lookup_failed, judged, refuse_if, is_from_same, namespace_not_accepted, username_taken,
  not_qualified, name_is_taken, taken_in_list, validate_against_gateway, validate_username,
  refused_senders, validate_against_grant, validate_rest, validate_account, in_senders,
  no_such_gateway,
}
use mailout_operator.Webhook.Senders.{validate_allowed_senders}

abbrev errors_of : Verdict → List AccountError
errors_of lookup_failed = []
errors_of (judged ws errs) = errs

refuse_if-nil : (test : Bool) (e : AccountError) → refuse_if test e ≡ [] → test ≡ false
refuse_if-nil true e h = cc
refuse_if-nil false e h = refl

map-nil {ℓ} : {A : Type ℓ} (f : A → AccountError) (xs : List A) → map f xs ≡ [] → xs ≡ []
map-nil f [] h = refl
map-nil f (x ∷ xs) h = cc

-- A text is split at its first dot in one way.
first_dot :
    (a b r s : Bytes)
    → contains b'.' a ≡ false
    → contains b'.' b ≡ false
    → a ++ b'.' ∷ r ≡ b ++ b'.' ∷ s
    → a ≡ b
unfolding contains
first_dot [] [] r s ha hb e = refl
first_dot [] (y ∷ b) r s ha hb e = absurd (ground arith)
first_dot (x ∷ a) [] r s ha hb e = absurd (ground arith)
first_dot (x ∷ a) (y ∷ b) r s ha hb e =
    let rest = first_dot a b r s (ground arith) (ground arith) (ground arith) in
    let first : x ≡ y = ground arith in ap (λ c. c ∷ a) first ∙ ap (λ l. y ∷ l) rest

-- A username with no error is that of the object's own namespace.
qualified :
    (account : MailoutAccount)
    → validate_username account ≡ []
    → (r : Bytes) × (username_for account ≡ account.namespace ++ b'.' ∷ r)
unfolding validate_username username_for
qualified account h =
    let free =
      refuse_if-nil
        (not (is_empty account.spec.username)
          && not (starts_with (account.namespace ++ codes ".") account.spec.username))
        not_qualified (append-eq_nil _ _ h).0 in
    elim (Bool-cases (is_empty account.spec.username)) [
      | inl default ↦ (account.name, rw default refl)
      | inr given ↦
          let (r, e) =
            starts_with-append (account.namespace ++ codes ".") account.spec.username
              (ground arith) in
          (r, rw given (e ∙ append_assoc account.namespace (codes ".") r))
    ]

name_free :
    {Selector : Type 0} (operator_namespace : Bytes) (gw : MailoutGateway Selector)
    (account : MailoutAccount) (items : List MailoutAccount)
    → name_is_taken operator_namespace gw account items ≡ false
    → username_conflict operator_namespace gw (username_for account) account items ≡ none
unfolding name_is_taken username_conflict
name_free operator_namespace gw account [] h = refl
name_free operator_namespace gw account (other ∷ items) h =
    ground (arith, name_free operator_namespace gw account items)

-- What the errors of the last step are, one part after the other.
rest_parts :
    {Selector Labels : Type 0} (cluster : Labelling Selector Labels)
    (grant_answer : GatewayAnswer Selector) (secret : Option SecretMeta) (account : MailoutAccount)
    (errs : List AccountError)
    → errors_of (validate_rest cluster grant_answer secret account errs) ≡ []
    → (errs ≡ [])
      × (validate_username account ≡ [])
      × (validate_against_grant cluster grant_answer account ≡ [])
unfolding validate_rest
rest_parts cluster grant_answer secret account errs h =
    let first = append-eq_nil errs _ h in
    let second = append-eq_nil (validate_username account) _ first.1 in
    let third =
      append-eq_nil (map in_senders (validate_allowed_senders [] 0 account.spec.allowed_senders)) _
        second.1 in
    (
      first.0,
      second.0,
      (append-eq_nil (validate_against_grant cluster grant_answer account) _ third.1).0,
    )

module _ {Selector Labels : Type 0} (cluster : Labelling Selector Labels)
    (operator_namespace : Bytes) (grant_answer : GatewayAnswer Selector)
    (accounts : Option (List MailoutAccount)) (secret : Option SecretMeta) where
  -- An account with no error refers to a gateway that there is.
  admitted_parts :
      (answer : GatewayAnswer Selector) (account : MailoutAccount) (warnings : List AccountWarning)
      → validate_account cluster operator_namespace answer grant_answer accounts secret account
        ≡ judged warnings []
      → (gw : MailoutGateway Selector) × (answer ≡ gateway_found gw)
        × (validate_against_gateway operator_namespace gw account accounts ≡ [])
        × (validate_username account ≡ [])
        × (validate_against_grant cluster grant_answer account ≡ [])
  unfolding validate_account
  admitted_parts gateway_failed account warnings h = absurd (ground arith)
  admitted_parts gateway_missing account warnings h =
      let parts =
        rest_parts cluster grant_answer secret account (no_such_gateway ∷ []) (ap errors_of h) in
      absurd (ground (arith, parts.0))
  admitted_parts (gateway_found gw) account warnings h =
      let parts = rest_parts cluster grant_answer secret account _ (ap errors_of h) in
      (gw, refl, parts.0, parts.1, parts.2)

-- An admitted account has a username that the dataplane takes.
pub admitted-valid_username :
    {Selector Labels : Type 0} (cluster : Labelling Selector Labels) (operator_namespace : Bytes)
    (answer grant_answer : GatewayAnswer Selector) (accounts : Option (List MailoutAccount))
    (secret : Option SecretMeta) (account : MailoutAccount) (warnings : List AccountWarning)
    → validate_account cluster operator_namespace answer grant_answer accounts secret account
      ≡ judged warnings []
    → valid_username (username_for account) ≡ true
unfolding validate_username
admitted-valid_username cluster operator_namespace answer grant_answer accounts secret account
      warnings h =
    let (gw, found, against, named, granted) =
      admitted_parts cluster operator_namespace grant_answer accounts secret answer account warnings
        h in
    let usable =
      refuse_if-nil (not (valid_username (username_for account)))
        (if is_empty account.spec.username then unusable_default else unusable_username)
        (append-eq_nil
          (refuse_if
            (not (is_empty account.spec.username)
              && not (starts_with (account.namespace ++ codes ".") account.spec.username))
            not_qualified)
          _ named).1 in
    ground (arith, usable)

-- Two accounts that are both admitted, whatever the cluster answered then, have distinct usernames
-- when they are in distinct namespaces, whose names have no dot.
pub admitted_names_apart :
    {Selector Labels : Type 0} (cluster : Labelling Selector Labels) (operator_namespace : Bytes)
    (answer grant_answer answer2 grant_answer2 : GatewayAnswer Selector)
    (accounts accounts2 : Option (List MailoutAccount)) (secret secret2 : Option SecretMeta)
    (account account2 : MailoutAccount) (warnings warnings2 : List AccountWarning)
    → validate_account cluster operator_namespace answer grant_answer accounts secret account
      ≡ judged warnings []
    → validate_account cluster operator_namespace answer2 grant_answer2 accounts2 secret2 account2
      ≡ judged warnings2 []
    → contains b'.' account.namespace ≡ false
    → contains b'.' account2.namespace ≡ false
    → account.namespace ≢ account2.namespace
    → username_for account ≢ username_for account2
admitted_names_apart cluster operator_namespace answer grant_answer answer2 grant_answer2 accounts
      accounts2 secret secret2 account account2 warnings warnings2 h h2 no_dot no_dot2 apart e =
    let (gw, found, against, named, granted) =
      admitted_parts cluster operator_namespace grant_answer accounts secret answer account warnings
        h in
    let (gw2, found2, against2, named2, granted2) =
      admitted_parts cluster operator_namespace grant_answer2 accounts2 secret2 answer2 account2
        warnings2 h2 in
    let (r, own) = qualified account named in
    let (r2, own2) = qualified account2 named2 in
    apart (first_dot account.namespace account2.namespace r r2 no_dot no_dot2 (sym own ∙ e ∙ own2))

-- The controller finds no conflict on an account that the webhook admits, over the list of accounts
-- that the webhook saw.
pub admitted-username_conflict :
    {Selector Labels : Type 0} (cluster : Labelling Selector Labels) (operator_namespace : Bytes)
    (gw : MailoutGateway Selector) (grant_answer : GatewayAnswer Selector)
    (items : List MailoutAccount) (secret : Option SecretMeta) (account : MailoutAccount)
    (warnings : List AccountWarning)
    → validate_account cluster operator_namespace
        (gateway_found gw)
        grant_answer
        (some items)
        secret
        account
      ≡ judged warnings []
    → username_conflict operator_namespace gw (username_for account) account items ≡ none
unfolding validate_account validate_against_gateway taken_in_list
admitted-username_conflict cluster operator_namespace gw grant_answer items secret account warnings
      h =
    let parts = rest_parts cluster grant_answer secret account _ (ap errors_of h) in
    name_free operator_namespace gw account items (
      refuse_if-nil _ username_taken
        (append-eq_nil
          (refuse_if
            (is_from_same gw.spec.allowed_accounts.namespaces
              && not (same account.namespace gw.namespace))
            namespace_not_accepted)
          _ parts.0).1)

keep_all : (entries : List Bytes) → keep (λ e. not (has e [])) entries ≡ entries
unfolding has
keep_all [] = refl
keep_all (e ∷ entries) = ap (λ l. e ∷ l) (keep_all entries)

nothing_refused :
    (granted requested : List Bytes)
    → is_empty requested ≡ false
    → (granted_subset granted requested).1 ≡ []
    → (granted_subset granted requested).0 ≡ requested
unfolding granted_subset
nothing_refused granted [] given none_refused = absurd (ground arith)
nothing_refused granted (e ∷ r) given none_refused =
    ap (λ refused. keep (λ entry. not (has entry refused)) (e ∷ r)) none_refused ∙ keep_all (e ∷ r)

-- The account that an object describes, all that it asks for granted.
abbrev pub as_asked : MailoutAccount → Bytes → Account
as_asked account hash = record {
  username = username_for account;
  password_hash = hash;
  disabled = account.spec.disabled;
  allowed_senders = account.spec.allowed_senders;
  skip_header_from_check = is_false account.spec.enforce_header_from;
}

served_as_asked :
    (account : MailoutAccount) (hash : Bytes) (granted : Option (List Bytes))
    → is_empty account.spec.allowed_senders ≡ false
    → refused_senders account.spec.allowed_senders granted ≡ []
    → render_account_of account hash granted ≡ collected (as_asked account hash)
unfolding refused_senders render_account_of
served_as_asked account hash none given e = cc
served_as_asked account hash (some granted) given e =
    rw (nothing_refused granted account.spec.allowed_senders given (map-nil _ _ e)) refl

-- An account is admitted, it asks for at least one sender, and the lookup of the gateway that the
-- check of the grant makes (the second one of the admission) found the gateway. What the account asks
-- for is then what it is served with, by that gateway and the labels of the namespace of then. What
-- the first lookup found is not used.
pub admitted-render_account_of :
    {Selector Labels : Type 0} (cluster : Labelling Selector Labels) (operator_namespace : Bytes)
    (answer : GatewayAnswer Selector) (gw : MailoutGateway Selector)
    (accounts : Option (List MailoutAccount)) (secret : Option SecretMeta)
    (account : MailoutAccount) (warnings : List AccountWarning) (hash : Bytes)
    → validate_account cluster operator_namespace answer (gateway_found gw) accounts secret account
      ≡ judged warnings []
    → is_empty account.spec.allowed_senders ≡ false
    → render_account_of account hash (granted_senders cluster gw account.namespace)
      ≡ collected (as_asked account hash)
unfolding validate_against_grant
admitted-render_account_of cluster operator_namespace answer gw accounts secret account warnings
      hash h given =
    let (found, was_found, against, named, granted) =
      admitted_parts cluster operator_namespace (gateway_found gw) accounts secret answer account
        warnings h in
    served_as_asked account hash (granted_senders cluster gw account.namespace) given (
      subst
        (λ b.
          (if b
            then []
            else refused_senders account.spec.allowed_senders
                (granted_senders cluster gw account.namespace))
          ≡ [])
        given granted)
