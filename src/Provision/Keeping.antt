-- ===== src/Provision/Keeping.antt =====
-- Passwords are kept from one run of the controller to the next.
use mailout_operator.Base.{
  ℕ, Bool, true, false, List, [], ◌∷◌, Option, none, some, ◌≡◌, inl, inr, refl, sym, subst,
  Bool-cases, Option-cases, is_empty,
}
use mailout_operator.Text.{Bytes, same, same_refl}
use mailout_operator.Config.{usable_hash}
use mailout_operator.Api.{MailoutAccount, MailoutAccountStatus, MailoutGateway}
use mailout_operator.Access.{
  Labelling, GatewayAnswer, gateway_found, gateway_missing, gateway_failed, username_for,
  username_conflict, namespace_allowed,
}
use mailout_operator.Render.{gateway_config}
use mailout_operator.Render.Endpoint.{gateway_endpoint}
use mailout_operator.Collect.{SecretAnswer, found, password_hash_key}
use mailout_operator.Provision.{
  empty_input, Answers, AccountSecret, Provisioned, secret_data, account_secret, password_key,
  not_accepted, ready_status, patch_status, is_renewed, credentials_of, written_secret, secret_from,
  reconcile_secret, provision, reconcile_named, reconcile_allowed, reconcile_from,
  reconcile_account, run_all,
}

-- The Secret holds this password and this hash.
pub record Holds (p h : Bytes) (stored : SecretAnswer) : Type 0 where
  pub content : Bytes → Bytes
  pub is_found : stored ≡ found content
  pub holds_password : content password_key ≡ p
  pub holds_hash : content password_hash_key ≡ h

pub secret_data-Holds :
    (secret : AccountSecret)
    → Holds secret.password secret.password_hash (found (secret_data secret))
unfolding secret_data same
secret_data-Holds secret = record {
  content = secret_data secret;
  is_found = refl;
  holds_password = refl;
  holds_hash = refl;
}

-- The rotation asked for is the one observed, and the Secret holds the credentials.
pub record IsSettled (p h : Bytes) (account : MailoutAccount) (stored : SecretAnswer) : Type 0 where
  pub observed : account.status.rotation_observed ≡ account.spec.rotation
  pub held : Holds p h stored

module _ {Selector Labels : Type 0} (cluster : Labelling Selector Labels) (cost : Bytes → Option ℕ)
    (operator_namespace : Bytes) (p h : Bytes) (good_password : is_empty p ≡ false)
    (good_hash : is_empty h ≡ false) (good_cost : usable_hash cost h ≡ true) where
  found-Holds :
      (read : Bytes → Bytes)
      → read password_key ≡ p
      → read password_hash_key ≡ h
      → Holds p h (found read)
  found-Holds read d e = record {
    content = read;
    is_found = refl;
    holds_password = d;
    holds_hash = e;
  }

  -- What a run leaves is settled.
  abbrev LeavesSettled : MailoutAccount → Provisioned → Type 0
  LeavesSettled account r =
      (r.status.rotation_observed ≡ account.spec.rotation) × Holds p h r.secret

  kept_credentials :
      (account : MailoutAccount) (read : Bytes → Bytes) (generated : Option (Bytes × Bytes))
      → account.status.rotation_observed ≡ account.spec.rotation
      → read password_key ≡ p
      → read password_hash_key ≡ h
      → credentials_of cluster cost operator_namespace account read generated ≡ some (p, h)
  unfolding credentials_of is_renewed
  kept_credentials account read generated o d e =
      rw (d, e, o, same_refl account.spec.rotation, good_password, good_hash, good_cost) refl

  patch_status-LeavesSettled :
      (answers : Answers Selector) (account : MailoutAccount) (secret : SecretAnswer)
      (status : MailoutAccountStatus)
      → account.status.rotation_observed ≡ account.spec.rotation
      → status.rotation_observed ≡ account.spec.rotation
      → Holds p h secret
      → LeavesSettled account (patch_status answers account secret status)
  unfolding patch_status
  patch_status-LeavesSettled answers account secret status old new held =
      elim (Bool-cases answers.status_patched) [
        | inl y ↦ rw y (new, held)
        | inr n ↦ rw n (old, held)
      ]

  provision-LeavesSettled :
      (account : MailoutAccount) (gw : MailoutGateway Selector) (answers : Answers Selector)
      (read : Bytes → Bytes)
      → account.status.rotation_observed ≡ account.spec.rotation
      → read password_key ≡ p
      → read password_hash_key ≡ h
      → LeavesSettled account (
          provision cluster cost operator_namespace account gw answers
            (found read)
            (reconcile_secret cluster cost operator_namespace account gw answers (found read)))
  unfolding reconcile_secret secret_from provision written_secret account_secret ready_status
  provision-LeavesSettled account gw answers read o d e =
      let kept = kept_credentials account read answers.generated o d e in
      let endpoint = gateway_endpoint gw (gateway_config (empty_input gw)) in
      elim (Bool-cases answers.secret_written) [
        | inl y ↦
            rw (kept, y)
              (patch_status-LeavesSettled answers account _ _ o refl (
                secret_data-Holds
                  (account_secret account (username_for account) p h endpoint gw.namespace)))
        | inr n ↦ rw (kept, n) (o, (found-Holds read d e))
      ]

  reconcile_named-LeavesSettled :
      (account : MailoutAccount) (gw : MailoutGateway Selector) (answers : Answers Selector)
      (read : Bytes → Bytes) (accounts : Option (List MailoutAccount))
      → account.status.rotation_observed ≡ account.spec.rotation
      → read password_key ≡ p
      → read password_hash_key ≡ h
      → LeavesSettled account
          (reconcile_named cluster cost operator_namespace account gw answers (found read) accounts)
  unfolding reconcile_named not_accepted
  reconcile_named-LeavesSettled account gw answers read none o d e = (o, (found-Holds read d e))
  reconcile_named-LeavesSettled account gw answers read (some items) o d e =
      elim (Option-cases
        (username_conflict operator_namespace gw (username_for account) account items)) [
          | inl free ↦
              rw (reconcile_named, free) (provision-LeavesSettled account gw answers read o d e)
          | inr (holder, taken) ↦
              rw (reconcile_named, taken)
                (patch_status-LeavesSettled answers account _ _ o o (found-Holds read d e))
        ]

  reconcile_allowed-LeavesSettled :
      (account : MailoutAccount) (gw : MailoutGateway Selector) (answers : Answers Selector)
      (read : Bytes → Bytes) (allowed : Option Bool)
      → account.status.rotation_observed ≡ account.spec.rotation
      → read password_key ≡ p
      → read password_hash_key ≡ h
      → LeavesSettled account (
          reconcile_allowed cluster cost operator_namespace account gw answers (found read) allowed)
  unfolding reconcile_allowed not_accepted
  reconcile_allowed-LeavesSettled account gw answers read none o d e = (o, (found-Holds read d e))
  reconcile_allowed-LeavesSettled account gw answers read (some false) o d e =
      patch_status-LeavesSettled answers account _ _ o o (found-Holds read d e)
  reconcile_allowed-LeavesSettled account gw answers read (some true) o d e =
      reconcile_named-LeavesSettled account gw answers read answers.accounts o d e

  reconcile_from-LeavesSettled :
      (account : MailoutAccount) (answers : Answers Selector) (read : Bytes → Bytes)
      (gateway : GatewayAnswer Selector)
      → account.status.rotation_observed ≡ account.spec.rotation
      → read password_key ≡ p
      → read password_hash_key ≡ h
      → LeavesSettled account
          (reconcile_from cluster cost operator_namespace account answers (found read) gateway)
  unfolding reconcile_from not_accepted
  reconcile_from-LeavesSettled account answers read gateway_failed o d e =
      (o, (found-Holds read d e))
  reconcile_from-LeavesSettled account answers read gateway_missing o d e =
      patch_status-LeavesSettled answers account _ _ o o (found-Holds read d e)
  reconcile_from-LeavesSettled account answers read (gateway_found gw) o d e =
      reconcile_allowed-LeavesSettled account gw answers read
        (namespace_allowed cluster gw account.namespace) o d e

  reconcile_account-LeavesSettled :
      (account : MailoutAccount) (answers : Answers Selector) (stored : SecretAnswer)
      → IsSettled p h account stored
      → LeavesSettled account
          (reconcile_account cluster cost operator_namespace account answers stored)
  unfolding reconcile_account
  reconcile_account-LeavesSettled account answers stored s =
      subst
        (λ v.
          LeavesSettled account
            (reconcile_account cluster cost operator_namespace account answers v))
        (sym s.held.is_found)
        (reconcile_from-LeavesSettled account answers s.held.content answers.gateway s.observed
          s.held.holds_password s.held.holds_hash)

  -- Once the rotation that an account asks for is observed, and its Secret holds a password with a
  -- hash that can be served, both stay as they are, whatever the answers of any row of runs are.
  pub run_all-Holds :
      (runs : List (Answers Selector)) (account : MailoutAccount) (stored : SecretAnswer)
      → IsSettled p h account stored
      → Holds p h (run_all cluster cost operator_namespace account stored runs).1
  unfolding run_all
  run_all-Holds [] account stored s = s.held
  run_all-Holds (answers ∷ runs) account stored s =
      let left = reconcile_account-LeavesSettled account answers stored s in
      run_all-Holds runs _ _ record { observed = left.0; held = left.1 }
