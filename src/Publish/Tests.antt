-- ===== src/Publish/Tests.antt =====
-- The theorem on published gateways at a concrete input.
use mailout_operator.Render.Samples.{sample_input}
use mailout_operator.Base.{true, false, List, [], some, ◌≡◌, refl}
use mailout_operator.Text.{Bytes, codes, same, has, cut, to_lower, trim_space}
use mailout_operator.Config.{Config, validate}
use mailout_operator.Api.Samples.{sample_gateway}
use mailout_operator.Access.Samples.{sample_cluster}
use mailout_operator.Collect.{SecretAnswer, not_found}
use mailout_operator.Webhook.{validate_gateway}
use mailout_operator.Publish.{Writes, published, resolve_secrets, metrics_token, reconcile_gateway}
use mailout_operator.Publish.Admitted.{admitted_gateway_published}

abbrev secrets : Bytes → Bytes → SecretAnswer
secrets namespace name = not_found

abbrev writes : Writes
writes = record { certificate_written = true; config_written = true }

sample-resolved : resolve_secrets secrets (codes "mail") sample_gateway [] ≡ some (sample_input [])
unfolding resolve_secrets
sample-resolved = refl

new_token : metrics_token not_found (some (codes "token")) ≡ some (codes "token")
unfolding metrics_token
new_token = refl

sample-admitted : validate_gateway sample_cluster (codes "mail") false sample_gateway ≡ []
unfolding validate_gateway same has cut to_lower trim_space
sample-admitted = refl

admitted_gateway_published_example :
    (config : Config) × (dropped : List Bytes) × (reconcile_gateway
        (λ c. some 300)
        (λ a. some 100)
        secrets
        (codes "mail")
        false
        writes
        (some (codes "token"))
        sample_gateway
        (some [])
      ≡ published config dropped)
    × (validate config ≡ [])
admitted_gateway_published_example =
    admitted_gateway_published sample_cluster (λ c. some 300) (λ a. some 100) secrets (codes "mail")
      false writes (some (codes "token")) sample_gateway [] (sample_input []) (codes "token")
      sample-admitted refl sample-resolved new_token (λ c. refl) refl refl
