-- ===== src/Provision/Settling.antt =====
-- What a run that accepts an account leaves.
use mailout_operator.Base.{
  ℕ, Bool, true, false, List, Option, none, some, ◌≡◌, inl, inr, refl, sym, ap, subst, arith,
  Bool-cases, is_empty,
}
use mailout_operator.Text.{Bytes}
use mailout_operator.Config.{usable_hash}
use mailout_operator.Api.{
  MailoutAccount, MailoutAccountStatus, MailoutGateway, Condition, ConditionReason,
  reason_username_conflict, reason_gateway_not_found, reason_namespace_not_allowed,
}
use mailout_operator.Access.{
  Labelling, GatewayAnswer, gateway_found, gateway_missing, gateway_failed, username_for,
  username_conflict, namespace_allowed,
}
use mailout_operator.Render.{gateway_config}
use mailout_operator.Render.Endpoint.{gateway_endpoint}
use mailout_operator.Collect.{SecretAnswer, found, password_hash_key}
use mailout_operator.Provision.{
  empty_input, existing_data, Answers, Provisioned, secret_data, account_secret, password_key,
  not_accepted, ready_status, patch_status, is_renewed, credentials_of, written_secret, secret_from,
  reconcile_secret, provision, reconcile_named, reconcile_allowed, reconcile_from,
  reconcile_account,
}
use mailout_operator.Provision.Keeping.{Holds, secret_data-Holds}

-- The condition says that the account is accepted.
abbrev pub is_accepted : Option Condition → Bool
is_accepted none = false
is_accepted (some c) = c.holds

module _ (cost : Bytes → Option ℕ) where
  -- Credentials that can be served.
  pub record AreGood (p h : Bytes) : Type 0 where
    pub has_password : is_empty p ≡ false
    pub has_hash : is_empty h ≡ false
    pub is_usable : usable_hash cost h ≡ true

  -- What the generator answers can be served.
  abbrev pub IsGenerator : Option (Bytes × Bytes) → Type 0
  IsGenerator generated = (p h : Bytes) → generated ≡ some (p, h) → AreGood p h

module _ {Selector Labels : Type 0} (cluster : Labelling Selector Labels) (cost : Bytes → Option ℕ)
    (operator_namespace : Bytes) where
  -- The run found a gateway that accepts the namespace, and leaves a Secret that can be served, and
  -- the rotation observed.
  pub record Settled (account : MailoutAccount) (answers : Answers Selector) (r : Provisioned)
      : Type 0 where
    pub gw : MailoutGateway Selector
    pub gateway_is : answers.gateway ≡ gateway_found gw
    pub allowed : namespace_allowed cluster gw account.namespace ≡ some true
    pub password : Bytes
    pub hash : Bytes
    pub good : AreGood cost password hash
    pub held : Holds password hash r.secret
    pub observed : r.status.rotation_observed ≡ account.spec.rotation

  not_renewed-AreGood :
      (account : MailoutAccount) (read : Bytes → Bytes)
      → is_renewed cluster cost operator_namespace account read ≡ false
      → AreGood cost (read password_key) (read password_hash_key)
  unfolding is_renewed
  not_renewed-AreGood account read n = record {
    has_password = ground (arith, n);
    has_hash = ground (arith, n);
    is_usable = ground (arith, n);
  }

  credentials_of-AreGood :
      (account : MailoutAccount) (read : Bytes → Bytes) (generated : Option (Bytes × Bytes))
      (p h : Bytes)
      → IsGenerator cost generated
      → credentials_of cluster cost operator_namespace account read generated ≡ some (p, h)
      → AreGood cost p h
  unfolding credentials_of
  credentials_of-AreGood account read generated p h good e =
      elim (Bool-cases (is_renewed cluster cost operator_namespace account read)) [
        | inl y ↦ good p h (ground (arith, y))
        | inr n ↦
            let same_password : read password_key ≡ p = ground (arith, n) in
            let same_hash : read password_hash_key ≡ h = ground (arith, n) in
            subst (AreGood cost p) same_hash (
              subst (λ q. AreGood cost q (read password_hash_key)) same_password
                (not_renewed-AreGood account read n))
      ]

  patched_status :
      (answers : Answers Selector) (account : MailoutAccount) (secret : SecretAnswer)
      (status : MailoutAccountStatus)
      → (patch_status answers account secret status).failed ≡ false
      → patch_status answers account secret status
        ≡ record { secret = secret; status = status; failed = false }
  unfolding patch_status
  patched_status answers account secret status ok = elim (Bool-cases answers.status_patched) [
    | inl y ↦ rw y refl
    | inr n ↦ absurd (ground (arith, n))
  ]

  -- The end of a run, from the credentials.
  written-Settled :
      (account : MailoutAccount) (gw : MailoutGateway Selector) (answers : Answers Selector)
      (stored : SecretAnswer) (made : Option (Bytes × Bytes)) (taken : Bool)
      → answers.gateway ≡ gateway_found gw
      → namespace_allowed cluster gw account.namespace ≡ some true
      → IsGenerator cost made
      → let r =
          provision cluster cost operator_namespace account gw answers stored
            (written_secret cluster cost operator_namespace account gw made taken) in
        r.failed ≡ false → Settled account answers r
  unfolding written_secret provision account_secret ready_status
  written-Settled account gw answers stored none taken g a good ok = cc
  written-Settled account gw answers stored (some (p, h)) false g a good ok = cc
  written-Settled account gw answers stored (some (p, h)) true g a good ok =
      let endpoint = gateway_endpoint gw (gateway_config (empty_input gw)) in
      let secret = account_secret account (username_for account) p h endpoint gw.namespace in
      let status = ready_status account gw (username_for account) in
      subst (Settled account answers)
        (sym (patched_status answers account (found (secret_data secret)) status ok))
        record {
          gw = gw;
          gateway_is = g;
          allowed = a;
          password = p;
          hash = h;
          good = good p h refl;
          held = secret_data-Holds secret;
          observed = refl;
        }

  provision-Settled :
      (account : MailoutAccount) (gw : MailoutGateway Selector) (answers : Answers Selector)
      (read : Option (Bytes → Bytes)) (stored : SecretAnswer)
      → answers.gateway ≡ gateway_found gw
      → namespace_allowed cluster gw account.namespace ≡ some true
      → IsGenerator cost answers.generated
      → let r =
          provision cluster cost operator_namespace account gw answers stored
            (secret_from cluster cost operator_namespace account gw answers read) in
        r.failed ≡ false → Settled account answers r
  unfolding secret_from provision
  provision-Settled account gw answers none stored g a good ok = cc
  provision-Settled account gw answers (some read) stored g a good ok =
      written-Settled account gw answers stored
        (credentials_of cluster cost operator_namespace account read answers.generated)
        answers.secret_written g a
        (λ p h. credentials_of-AreGood account read answers.generated p h good) ok

  -- A run that does not accept the account does not end with an accepted status.
  not_accepted_run :
      (answers : Answers Selector) (account : MailoutAccount) (secret : SecretAnswer)
      (reason : ConditionReason)
      → let r = patch_status answers account secret (not_accepted account.status reason) in
        r.failed ≡ false → is_accepted r.status.accepted ≡ false
  unfolding not_accepted
  not_accepted_run answers account secret reason ok =
      ap (λ r. is_accepted r.status.accepted)
        (patched_status answers account secret (not_accepted account.status reason) ok)

  reconcile_named-Settled :
      (account : MailoutAccount) (gw : MailoutGateway Selector) (answers : Answers Selector)
      (stored : SecretAnswer) (accounts : Option (List MailoutAccount))
      → answers.gateway ≡ gateway_found gw
      → namespace_allowed cluster gw account.namespace ≡ some true
      → IsGenerator cost answers.generated
      → let r =
          reconcile_named cluster cost operator_namespace account gw answers stored accounts in
        r.failed ≡ false → is_accepted r.status.accepted ≡ true → Settled account answers r
  unfolding reconcile_named reconcile_secret
  reconcile_named-Settled account gw answers stored none g a good ok acc = cc
  reconcile_named-Settled account gw answers stored (some items) g a good ok acc =
      named (username_conflict operator_namespace gw (username_for account) account items) ok acc
    where
      branch : Option Bytes → Provisioned
      branch conflict = elim conflict [
        | some holder ↦
            patch_status answers account stored
              (not_accepted account.status reason_username_conflict)
        | none ↦
            provision cluster cost operator_namespace account gw answers stored
              (reconcile_secret cluster cost operator_namespace account gw answers stored)
      ]

      named :
          (conflict : Option Bytes)
          → (branch conflict).failed ≡ false
          → is_accepted (branch conflict).status.accepted ≡ true
          → Settled account answers (branch conflict)
      named none ok acc =
          provision-Settled account gw answers (existing_data stored) stored g a good ok
      named (some holder) ok acc =
          absurd (
            ground
              (arith, acc, not_accepted_run answers account stored reason_username_conflict ok))

  reconcile_allowed-Settled :
      (account : MailoutAccount) (gw : MailoutGateway Selector) (answers : Answers Selector)
      (stored : SecretAnswer) (allowed : Option Bool)
      → answers.gateway ≡ gateway_found gw
      → namespace_allowed cluster gw account.namespace ≡ allowed
      → IsGenerator cost answers.generated
      → let r =
          reconcile_allowed cluster cost operator_namespace account gw answers stored allowed in
        r.failed ≡ false → is_accepted r.status.accepted ≡ true → Settled account answers r
  unfolding reconcile_allowed
  reconcile_allowed-Settled account gw answers stored none g a good ok acc = cc
  reconcile_allowed-Settled account gw answers stored (some false) g a good ok acc =
      absurd (
        ground
          (arith, acc, not_accepted_run answers account stored reason_namespace_not_allowed ok))
  reconcile_allowed-Settled account gw answers stored (some true) g a good ok acc =
      reconcile_named-Settled account gw answers stored answers.accounts g a good ok acc

  reconcile_from-Settled :
      (account : MailoutAccount) (answers : Answers Selector) (stored : SecretAnswer)
      (gateway : GatewayAnswer Selector)
      → answers.gateway ≡ gateway
      → IsGenerator cost answers.generated
      → let r = reconcile_from cluster cost operator_namespace account answers stored gateway in
        r.failed ≡ false → is_accepted r.status.accepted ≡ true → Settled account answers r
  unfolding reconcile_from
  reconcile_from-Settled account answers stored gateway_failed g good ok acc = cc
  reconcile_from-Settled account answers stored gateway_missing g good ok acc =
      absurd
        (ground (arith, acc, not_accepted_run answers account stored reason_gateway_not_found ok))
  reconcile_from-Settled account answers stored (gateway_found gw) g good ok acc =
      reconcile_allowed-Settled account gw answers stored
        (namespace_allowed cluster gw account.namespace) g refl good ok acc

  -- A run that ends without an error and with an accepted account has found a gateway that accepts
  -- the namespace, and leaves a Secret with a password and a hash that can be served, with the
  -- rotation observed, as long as what the generator answers can be served.
  pub reconcile_account-Settled :
      (account : MailoutAccount) (answers : Answers Selector) (stored : SecretAnswer)
      → IsGenerator cost answers.generated
      → let r = reconcile_account cluster cost operator_namespace account answers stored in
        r.failed ≡ false → is_accepted r.status.accepted ≡ true → Settled account answers r
  unfolding reconcile_account
  reconcile_account-Settled account answers stored good ok acc =
      reconcile_from-Settled account answers stored answers.gateway refl good ok acc
