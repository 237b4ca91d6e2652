-- ===== src/Provision/Served.antt =====
-- An account that is admitted and provided is served.
use mailout_operator.Base.{
  ℕ, Bool, true, false, List, [], ◌∷◌, Option, none, some, ◌≡◌, ◌≢◌, ◌⊎◌, inl, inr, refl, sym, ap,
  subst, ◌∙◌, arith, is_empty, Any, Any-map,
}
use mailout_operator.Text.{Bytes, has}
use mailout_operator.Config.{
  Config, valid_username, usable_hash, rejection, partition_from, partition_accounts,
}
use mailout_operator.Config
use mailout_operator.Provision.Partition.{partition_from_serves}
use mailout_operator.Config.Accounts.{IsServable}
use mailout_operator.Api.{MailoutAccount, MailoutGateway}
use mailout_operator.Access.{
  gateway_namespace_for, gateway_missing, gateway_failed, Labelling, GatewayAnswer, gateway_found,
  is_on, username_for, namespace_allowed, granted_senders,
}
use mailout_operator.Render.{Account, Input, gateway_config, render_account, sort_accounts}
use mailout_operator.Render.Ordering.{AreDistinct, AreDistinct-perm, sort_accounts-Permᴰ, Any-perm}
use mailout_operator.Webhook.Accounts.{AccountWarning, SecretMeta, validate_account, judged}
use mailout_operator.Webhook.Accounts.Names.{admitted-valid_username}
use mailout_operator.Provision.{Answers, reconcile_account}
use mailout_operator.Provision.Settling.{IsGenerator, is_accepted, reconcile_account-Settled}
use mailout_operator.Collect.Granted.{collect_more-some, collect_one-Served}
use mailout_operator.Collect.{
  SecretAnswer, found, not_found, get_failed, password_hash_key, skipped, collected,
  render_account_of, collect_with_secret, collect_allowed, collect_one, collect_accounts,
}

render_account_of-not_skipped :
    (account : MailoutAccount) (hash : Bytes) (granted : Option (List Bytes))
    → render_account_of account hash granted ≢ skipped
unfolding render_account_of
render_account_of-not_skipped account hash none e = ground arith
render_account_of-not_skipped account hash (some senders) e = ground arith

-- The hash in a Secret.
abbrev hash_in : SecretAnswer → Bytes
hash_in (found read) = read password_hash_key
hash_in not_found = []
hash_in get_failed = []

module _ {Selector Labels : Type 0} (cluster : Labelling Selector Labels)
    (get_secret : Bytes → Bytes → SecretAnswer) (operator_namespace : Bytes)
    (gw : MailoutGateway Selector) where
  -- An object of the list is skipped, or collected into the accounts.
  collect_accounts-Any :
      (items : List MailoutAccount) (accounts : List Account) (o : MailoutAccount)
      → Any (λ i. i ≡ o) items
      → collect_accounts cluster get_secret operator_namespace gw items ≡ some accounts
      → (collect_one cluster get_secret operator_namespace gw o ≡ skipped)
        ⊎ ((a : Account) × (collect_one cluster get_secret operator_namespace gw o ≡ collected a)
            × Any (λ b. b ≡ a) accounts)
  unfolding collect_accounts
  collect_accounts-Any [] accounts o m h = absurd m
  collect_accounts-Any (i ∷ items) accounts o m h =
      elim (collect_more-some cluster get_secret operator_namespace gw
        (collect_one cluster get_secret operator_namespace gw i)
        (collect_accounts cluster get_secret operator_namespace gw items) accounts h) [
          | inl (none_here, rest) ↦ elim m [
            | inl e ↦
                inl (ap (collect_one cluster get_secret operator_namespace gw) (sym e) ∙ none_here)
            | inr later ↦ collect_accounts-Any items accounts o later rest
          ]
          | inr (a, more, one, rest, all) ↦ elim m [
            | inl e ↦ inr (
              a,
              ap (collect_one cluster get_secret operator_namespace gw) (sym e) ∙ one,
              subst (Any (λ b. b ≡ a)) (sym all) (inl refl),
            )
            | inr later ↦ elim (collect_accounts-Any items more o later rest) [
              | inl s ↦ inl s
              | inr (b, found_here, mem) ↦
                  inr (b, found_here, subst (Any (λ v. v ≡ b)) (sym all) (inr mem))
            ]
          ]
        ]

  -- An account of the gateway with a Secret that holds a hash is not skipped.
  collect_one-not_skipped :
      (account : MailoutAccount) (read : Bytes → Bytes)
      → is_on operator_namespace gw account ≡ true
      → namespace_allowed cluster gw account.namespace ≡ some true
      → get_secret account.namespace account.spec.secret_ref ≡ found read
      → is_empty (read password_hash_key) ≡ false
      → collect_one cluster get_secret operator_namespace gw account ≢ skipped
  unfolding collect_one collect_allowed collect_with_secret
  collect_one-not_skipped account read on allowed secret has_hash e =
      let hash = read password_hash_key in
      let granted = granted_senders cluster gw account.namespace in
      let one : collect_one cluster get_secret operator_namespace gw account
          ≡ render_account_of account hash granted =
        rw (on, allowed, secret, has_hash) refl in
      render_account_of-not_skipped account hash granted (sym one ∙ e)

  -- What is known of an account object in the accounts that are collected.
  abbrev pub IsServedFrom : MailoutAccount → (Bytes → Bytes) → Config.Account → Type 0
  IsServedFrom account read a =
      (a.username ≡ username_for account)
      × (a.password_hash ≡ read password_hash_key)
      × (a.disabled ≡ account.spec.disabled)

  -- An account object whose username the dataplane takes, on a gateway that accepts its namespace,
  -- with a Secret that holds a usable hash, is served once the accounts can be collected and no two
  -- of them have one name.
  pub collect_accounts-partition_accounts :
      (cost : Bytes → Option ℕ) (items : List MailoutAccount) (input : Input Selector)
      (account : MailoutAccount) (read : Bytes → Bytes)
      → collect_accounts cluster get_secret operator_namespace gw items ≡ some input.accounts
      → Any (λ i. i ≡ account) items
      → AreDistinct input.accounts
      → valid_username (username_for account) ≡ true
      → is_on operator_namespace gw account ≡ true
      → namespace_allowed cluster gw account.namespace ≡ some true
      → get_secret account.namespace account.spec.secret_ref ≡ found read
      → is_empty (read password_hash_key) ≡ false
      → usable_hash cost (read password_hash_key) ≡ true
      → Any (IsServedFrom account read) (partition_accounts cost (gateway_config input)).0
  unfolding partition_accounts gateway_config render_account has
  collect_accounts-partition_accounts cost items input account read all m distinct valid on allowed
        secret has_hash usable =
      elim (collect_accounts-Any items input.accounts account m all) [
        | inl none_here ↦
            absurd (collect_one-not_skipped account read on allowed secret has_hash none_here)
        | inr (a, one, mem) ↦
            let (stands, granted) =
              collect_one-Served cluster get_secret operator_namespace gw account a one in
            let (read2, got, hash_is, some_hash) = stands.secret in
            let hash : a.password_hash ≡ read password_hash_key =
              hash_is ∙ ap hash_in (sym got ∙ secret) in
            let good : IsServable cost (render_account a) = record {
              safe = subst (λ u. valid_username u ≡ true) (sym stands.named) valid;
              has_hash = λ e. ground (arith, some_hash, e);
              usable = subst (λ v. usable_hash cost v ≡ true) (sym hash) usable;
            } in
            let sorted = sort_accounts-Permᴰ input.accounts in
            Any-map
              (λ b e.
                subst (IsServedFrom account read) (sym e)
                  (stands.named, hash, stands.disabled_kept))
              (partition_accounts cost (gateway_config input)).0
              (partition_from_serves cost [] 0 (sort_accounts input.accounts) a
                (AreDistinct-perm sorted distinct) (Any-perm (λ b. b ≡ a) sorted mem) good refl)
      ]

-- What a gateway that was found says of a namespace.
abbrev allowed_by :
    {Selector Labels : Type 0}
    → Labelling Selector Labels
    → Bytes
    → GatewayAnswer Selector
    → Option Bool
allowed_by cluster namespace (gateway_found gw) = namespace_allowed cluster gw namespace
allowed_by cluster namespace gateway_missing = none
allowed_by cluster namespace gateway_failed = none

-- An account that the webhook admits, and that its controller then accepts in a run without an error,
-- with generated credentials that can be served, is served by the gateway: once the accounts, among
-- them this one with its new status, can be collected, and no two of them have one name, the
-- rendered configuration has a served account with its username and the hash of the Secret left by
-- the run.
pub admitted_account_served :
    {Selector Labels : Type 0} (cluster : Labelling Selector Labels) (cost : Bytes → Option ℕ)
    (get_secret : Bytes → Bytes → SecretAnswer) (operator_namespace : Bytes)
    (gw : MailoutGateway Selector) (admission grant_answer : GatewayAnswer Selector)
    (accounts : Option (List MailoutAccount)) (meta : Option SecretMeta) (account : MailoutAccount)
    (warnings : List AccountWarning) (answers : Answers Selector) (stored : SecretAnswer)
    (items : List MailoutAccount) (input : Input Selector)
    → validate_account cluster operator_namespace admission grant_answer accounts meta account
      ≡ judged warnings []
    → IsGenerator cost answers.generated
    → answers.gateway ≡ gateway_found gw
    → is_on operator_namespace gw account ≡ true
    → let r = reconcile_account cluster cost operator_namespace account answers stored in
      r.failed ≡ false
      → is_accepted r.status.accepted ≡ true
      → get_secret account.namespace account.spec.secret_ref ≡ r.secret
      → Any (λ i. i ≡ record account { status = r.status }) items
      → collect_accounts cluster get_secret operator_namespace gw items ≡ some input.accounts
      → AreDistinct input.accounts
      → (read : Bytes → Bytes) × (r.secret ≡ found read)
        × Any
            (IsServedFrom cluster get_secret operator_namespace gw account read)
            (partition_accounts cost (gateway_config input)).0
unfolding username_for gateway_namespace_for
admitted_account_served cluster cost get_secret operator_namespace gw admission grant_answer
      accounts meta account warnings answers stored items input admitted good found_gw on ok acc
      secret m all distinct =
    let settled =
      reconcile_account-Settled cluster cost operator_namespace account answers stored good ok
        acc in
    let read = settled.held.content in
    let hash = settled.held.holds_hash in
    (
      read,
      settled.held.is_found,
      collect_accounts-partition_accounts cluster get_secret operator_namespace gw cost items input
          (record account {
            status =
                (reconcile_account cluster cost operator_namespace account answers stored).status;
          })
          read all m distinct
          (admitted-valid_username cluster operator_namespace admission grant_answer accounts meta
            account warnings admitted)
          on
          (ap (allowed_by cluster account.namespace) (sym found_gw ∙ settled.gateway_is)
            ∙ settled.allowed)
          (secret ∙ settled.held.is_found)
          (subst (λ v. is_empty v ≡ false) (sym hash) settled.good.has_hash)
          (subst (λ v. usable_hash cost v ≡ true) (sym hash) settled.good.is_usable),
    )
