-- ===== src/Provision/Tests.antt =====
-- The theorems on the controller of accounts at concrete inputs.
use mailout_operator.Render.Samples.{sample_input}
use mailout_operator.Base.{
  ℕ, true, false, List, [], ◌∷◌, Option, none, some, ◌≡◌, inl, refl, arith, if◌then◌else◌, Any,
}
use mailout_operator.Text.{Bytes, codes, same, has, cut, to_lower, trim_space, add}
use mailout_operator.Config.{usable_hash, partition_accounts}
use mailout_operator.Api.{MailoutAccount}
use mailout_operator.Api.Samples.{sample_gateway, sample_account}
use mailout_operator.Policy.{granted_subset}
use mailout_operator.Access.{gateway_found, gateway_namespace_for, username_conflict}
use mailout_operator.Access.Samples.{sample_cluster}
use mailout_operator.Render.{Input, gateway_config}
use mailout_operator.Collect.{SecretAnswer, found, not_found, collect_accounts}
use mailout_operator.Webhook.Accounts.{validate_account, judged}
use mailout_operator.Provision.{Answers, Provisioned, reconcile_account, run_all}
use mailout_operator.Provision.Keeping.{Holds, IsSettled, run_all-Holds}
use mailout_operator.Provision.Settling.{IsGenerator, is_accepted}
use mailout_operator.Provision.Served.{IsServedFrom, admitted_account_served}

-- Every hash has the cost 12.
abbrev cost : Bytes → Option ℕ
cost hash = some 12

abbrev blue : MailoutAccount
blue = sample_account (codes "blue") (codes "u")

abbrev answers : Answers (List Bytes)
answers = record {
  gateway = gateway_found sample_gateway;
  accounts = some (blue ∷ []);
  generated = some (codes "pw", codes "$2a$12$hash");
  secret_written = true;
  status_patched = true;
}

generated-IsGenerator : IsGenerator cost answers.generated
unfolding usable_hash
generated-IsGenerator p h e = record {
  has_password = ground (arith, e);
  has_hash = ground (arith, e);
  is_usable = refl;
}

abbrev first_run : Provisioned
first_run = reconcile_account sample_cluster cost (codes "mail") blue answers not_found

accepted : (first_run.failed ≡ false) × (is_accepted first_run.status.accepted ≡ true)
unfolding reconcile_account gateway_namespace_for same username_conflict
accepted = (refl, refl)

-- A Secret with an older password, kept by two runs.
abbrev older : SecretAnswer
older = found (λ key. if same key (codes "password") then codes "old" else codes "$2a$12$older")

older-IsSettled : IsSettled (codes "old") (codes "$2a$12$older") blue older
unfolding same
older-IsSettled = record {
  observed = refl;
  held = record {
    content = λ key. if same key (codes "password") then codes "old" else codes "$2a$12$older";
    is_found = refl;
    holds_password = refl;
    holds_hash = refl;
  };
}

run_all-Holds_example :
    Holds
      (codes "old")
      (codes "$2a$12$older")
      (run_all sample_cluster cost (codes "mail") blue older (answers ∷ answers ∷ [])).1
unfolding usable_hash
run_all-Holds_example =
    run_all-Holds sample_cluster cost (codes "mail") (codes "old") (codes "$2a$12$older") refl refl
      refl (answers ∷ answers ∷ []) blue older older-IsSettled

-- The Secrets after the first run.
abbrev secrets : Bytes → Bytes → SecretAnswer
secrets namespace name = first_run.secret

abbrev after : MailoutAccount
after = record blue { status = first_run.status }

abbrev input : Input (List Bytes)
input = sample_input (
    record {
      username = codes "blue.app";
      password_hash = codes "$2a$12$hash";
      disabled = false;
      allowed_senders = codes "app@blue.example" ∷ [];
      skip_header_from_check = false;
    }
    ∷ [])

collected-eq :
    collect_accounts sample_cluster secrets (codes "mail") sample_gateway (after ∷ [])
    ≡ some input.accounts
unfolding collect_accounts reconcile_account same has granted_subset gateway_namespace_for
    username_conflict cut to_lower trim_space add
collected-eq = refl

blue-admitted :
    validate_account sample_cluster
      (codes "mail")
      (gateway_found sample_gateway)
      (gateway_found sample_gateway)
      (some [])
      none
      blue
    ≡ judged [] []
unfolding validate_account same has cut to_lower trim_space add
blue-admitted = refl

admitted_account_served_example :
    (read : Bytes → Bytes) × (first_run.secret ≡ found read)
    × Any
        (IsServedFrom sample_cluster secrets (codes "mail") sample_gateway blue read)
        (partition_accounts cost (gateway_config input)).0
unfolding same gateway_namespace_for
admitted_account_served_example =
    admitted_account_served sample_cluster cost secrets (codes "mail") sample_gateway
      (gateway_found sample_gateway) (gateway_found sample_gateway) (some []) none blue [] answers
      not_found (after ∷ []) input blue-admitted generated-IsGenerator refl refl accepted.0
      accepted.1 refl (inl refl) collected-eq (tt, tt)
