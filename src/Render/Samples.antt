-- ===== src/Render/Samples.antt =====
-- What the tests render: a gateway with some accounts, and no credentials.
use mailout_operator.Base.{List, []}
use mailout_operator.Text.{Bytes}
use mailout_operator.Api.Samples.{sample_gateway}
use mailout_operator.Render.{Account, Input}

abbrev pub sample_input : List Account → Input (List Bytes)
sample_input accounts = record {
  gateway = sample_gateway;
  accounts = accounts;
  upstream_username = [];
  upstream_password = [];
  upstream_ca_pem = [];
  rate_limit_store = record {
    username = [];
    password = [];
    sentinel_username = [];
    sentinel_password = [];
    ca_pem = [];
  };
  metrics_token = [];
}
