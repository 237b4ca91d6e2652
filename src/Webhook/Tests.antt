-- ===== src/Webhook/Tests.antt =====
-- The theorems on admission at concrete inputs.
use mailout_operator.Render.Samples.{sample_input}
use mailout_operator.Base.{false, [], ◌∷◌, none, some, ◌≡◌, ◌≢◌, refl}
use mailout_operator.Text.{codes, same, has, contains, cut, to_lower, trim_space, add}
use mailout_operator.Config.{validate}
use mailout_operator.Api.{MailoutAccount}
use mailout_operator.Api.Samples.{sample_gateway, sample_account}
use mailout_operator.Access.{
  gateway_failed, gateway_missing, gateway_found, username_for, username_conflict, granted_senders,
}
use mailout_operator.Access.Samples.{sample_cluster}
use mailout_operator.Render.{gateway_config}
use mailout_operator.Collect.{collected, render_account_of}
use mailout_operator.Webhook.{validate_gateway}
use mailout_operator.Webhook.Admission.{admitted-validate}
use mailout_operator.Webhook.Accounts.{validate_account, judged}
use mailout_operator.Webhook.Accounts.Names.{
  admitted_names_apart, admitted-username_conflict, as_asked, admitted-render_account_of,
}

sample-admitted : validate_gateway sample_cluster (codes "mail") false sample_gateway ≡ []
unfolding validate_gateway same has cut to_lower trim_space
sample-admitted = refl

admitted-validate_example : validate (gateway_config (sample_input [])) ≡ []
admitted-validate_example =
    admitted-validate sample_cluster (codes "mail") false (sample_input []) sample-admitted refl

abbrev blue : MailoutAccount
blue = sample_account (codes "blue") (codes "u")

-- The green team asks for nothing in particular.
abbrev green : MailoutAccount
green =
    let account = sample_account (codes "green") (codes "uu") in
    record account { spec = record account.spec { allowed_senders = [] } }

blue-admitted :
    validate_account sample_cluster
      (codes "mail")
      (gateway_found sample_gateway)
      (gateway_found sample_gateway)
      (some (green ∷ []))
      none
      blue
    ≡ judged [] []
unfolding validate_account same has cut to_lower trim_space add
blue-admitted = refl

-- The blue team asks for a sender that it is not granted.
abbrev greedy : MailoutAccount
greedy = record blue { spec = record blue.spec { allowed_senders = codes "*@bank.test" ∷ [] } }

greedy-refused :
    validate_account sample_cluster
      (codes "mail")
      (gateway_found sample_gateway)
      (gateway_found sample_gateway)
      (some [])
      none
      greedy
    ≢ judged [] []
unfolding validate_account same has cut to_lower trim_space add
greedy-refused e = cc

-- When the second lookup of the gateway fails, nothing is checked against the grant.
greedy-admitted :
    validate_account sample_cluster
      (codes "mail")
      (gateway_found sample_gateway)
      gateway_failed
      (some [])
      none
      greedy
    ≡ judged [] []
unfolding validate_account same has cut to_lower trim_space add
greedy-admitted = refl

green-admitted :
    validate_account sample_cluster
      (codes "mail")
      (gateway_found sample_gateway)
      gateway_missing
      none
      none
      green
    ≡ judged [] []
unfolding validate_account same has cut to_lower trim_space add
green-admitted = refl

admitted_names_apart_example : codes "blue.app" ≢ codes "green.app"
unfolding username_for contains
admitted_names_apart_example =
    admitted_names_apart sample_cluster (codes "mail") (gateway_found sample_gateway)
      (gateway_found sample_gateway) (gateway_found sample_gateway) gateway_missing
      (some (green ∷ [])) none none none blue green [] [] blue-admitted green-admitted refl refl
      (λ e. cc)

admitted-username_conflict_example :
    username_conflict (codes "mail") sample_gateway (username_for blue) blue (green ∷ []) ≡ none
admitted-username_conflict_example =
    admitted-username_conflict sample_cluster (codes "mail") sample_gateway
      (gateway_found sample_gateway) (green ∷ []) none blue [] blue-admitted

admitted-render_account_of_example :
    render_account_of blue
      (codes "hash")
      (granted_senders sample_cluster sample_gateway (codes "blue"))
    ≡ collected (as_asked blue (codes "hash"))
admitted-render_account_of_example =
    admitted-render_account_of sample_cluster (codes "mail") (gateway_found sample_gateway)
      sample_gateway (some (green ∷ [])) none blue [] (codes "hash") blue-admitted refl
