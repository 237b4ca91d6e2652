-- ===== src/Collect.antt =====
-- `collectAccounts` of internal/controller/gateway_controller.go: the accounts that a gateway serves, out
-- of all account objects. The answers of the API server are parameters.
pub mod Granted
mod Tests
use mailout_operator.Base.{
  ℕ, zero, suc, ◌+◌, ◌-◌, ◌*◌, ◌/◌, ◌%◌, ◌≤◌, ◌<◌, Bool, true, false, not, ◌&&◌, ◌||◌, List, [],
  ◌∷◌, ◌++◌, Option, none, some, ◌≡◌, ◌≢◌, ◌↔◌, ◌⊎◌, inl, inr, refl, sym, ap, subst, ◌∙◌, arith,
  ◌==◌, ltb, leb, if◌then◌else◌, Bool-cases, Option-cases, length, take, drop, is_empty, keep, All,
  Any, append-nil, append_assoc, length-append, some_of, some_of-or, some_of-Any, some_of-keep,
  some_of_mono, ==_iff, Any-append, All-append, All-map, All-keep, Any-elim, All-Any, map, keep_ext,
  some_of-append,
}
use mailout_operator.Text.{Bytes, codes}
use mailout_operator.Policy.{granted_subset}
use mailout_operator.Api.{MailoutAccount, MailoutGateway}
use mailout_operator.Access.{Labelling, is_on, username_for, namespace_allowed, granted_senders}
use mailout_operator.Render.{Account}

-- The data of a Secret, where a missing key reads as empty; or there is no such Secret; or an error.
pub data SecretAnswer : Type 0 where
  found : (Bytes → Bytes) → SecretAnswer
  not_found : SecretAnswer
  get_failed : SecretAnswer

abbrev pub password_hash_key : Bytes
password_hash_key = codes "passwordHash"

-- What the loop makes of one account object.
pub data Collected : Type 0 where
  skipped : Collected
  failed_to_collect : Collected
  collected : Account → Collected

abbrev pub is_false : Option Bool → Bool
is_false (some false) = true
is_false (some true) = false
is_false none = false

unfoldable pub render_account_of : MailoutAccount → Bytes → Option (List Bytes) → Collected
unfolding granted_subset username_for
render_account_of account hash none = failed_to_collect
render_account_of account hash (some granted) = collected record {
  username = username_for account;
  password_hash = hash;
  disabled = account.spec.disabled;
  allowed_senders = (granted_subset granted account.spec.allowed_senders).0;
  skip_header_from_check = is_false account.spec.enforce_header_from;
}

module _ {Selector Labels : Type 0} (cluster : Labelling Selector Labels)
    (get_secret : Bytes → Bytes → SecretAnswer) (operator_namespace : Bytes)
    (gw : MailoutGateway Selector) where
  unfoldable pub collect_with_secret : MailoutAccount → SecretAnswer → Collected
  unfolding render_account_of granted_senders
  collect_with_secret account get_failed = failed_to_collect
  collect_with_secret account not_found = skipped
  collect_with_secret account (found read) =
      if is_empty (read password_hash_key)
      then skipped
      else render_account_of account (read password_hash_key)
          (granted_senders cluster gw account.namespace)

  unfoldable pub collect_allowed : MailoutAccount → Option Bool → Collected
  unfolding collect_with_secret
  collect_allowed account none = failed_to_collect
  collect_allowed account (some false) = skipped
  collect_allowed account (some true) =
      collect_with_secret account (get_secret account.namespace account.spec.secret_ref)

  unfoldable pub collect_one : MailoutAccount → Collected
  unfolding collect_allowed namespace_allowed
  collect_one account =
      if not (is_on operator_namespace gw account)
      then skipped
      else collect_allowed account (namespace_allowed cluster gw account.namespace)

  unfoldable pub collect_more : Collected → Option (List Account) → Option (List Account)
  collect_more failed_to_collect rest = none
  collect_more skipped rest = rest
  collect_more (collected a) none = none
  collect_more (collected a) (some rest) = some (a ∷ rest)

  -- `none` is an error.
  unfoldable pub collect_accounts : List MailoutAccount → Option (List Account)
  unfolding collect_one collect_more
  collect_accounts [] = some []
  collect_accounts (account ∷ items) = collect_more (collect_one account) (collect_accounts items)
