-- ===== src/Api/Samples.antt =====
-- Objects for the tests: a gateway in the namespace `mail` that grants `*@blue.example` to the
-- namespace `blue`, and accounts of one team or another.
use mailout_operator.Base.{true, false, List, [], ◌∷◌, none, some}
use mailout_operator.Text.{Bytes, codes}
use mailout_operator.Api.{
  MailoutGateway, MailoutAccount, from_all, start_tls, MilterSpec, RateLimitSpec,
}

abbrev pub sample_milter : MilterSpec
sample_milter = record {
  name = codes "rspamd";
  address = codes "tcp://rspamd:11332";
  fail_open = false;
  timeout = none;
}

abbrev pub sample_rate_limit : RateLimitSpec
sample_rate_limit = record {
  store = record {
    addresses = codes "valkey:6379" ∷ [];
    master_name = [];
    db = 0;
    auth_secret_ref = none;
    sentinel_auth_secret_ref = none;
    tls = some record { ca_secret_ref = none; insecure_skip_verify = true };
    timeout = none;
  };
  messages_per_minute = some 60;
  recipients_per_minute = none;
}

-- A selector is the namespaces it names.
abbrev pub sample_gateway : MailoutGateway (List Bytes)
sample_gateway = record {
  namespace = codes "mail";
  name = codes "main";
  spec = record {
    hostname = codes "mx.example";
    listeners = record { submission = some record { port = 0 }; smtps = some record { port = 0 } };
    tls = record {
      certificate_refs = codes "cert" ∷ [];
      issuer_ref = none;
      dns_names = [];
      default_certificate = [];
    };
    upstream = record {
      host = codes "smtp.example";
      port = 587;
      tls = start_tls;
      auth_secret_ref = none;
      ca_secret_ref = none;
      insecure_skip_verify = false;
      handles_dkim = false;
      timeout = none;
    };
    dkim = [];
    milters = sample_milter ∷ [];
    allowed_accounts = record { namespaces = from_all; selector = none };
    allowed_senders =
        record {
          senders = codes "*@blue.example" ∷ [];
          namespace_selector = some (codes "blue" ∷ []);
        }
        ∷ [];
    rate_limit = some sample_rate_limit;
  };
}

abbrev pub sample_account : Bytes → Bytes → MailoutAccount
sample_account namespace uid = record {
  namespace = namespace;
  name = codes "app";
  uid = uid;
  creation_timestamp = 7;
  spec = record {
    gateway_ref = record { name = codes "main"; namespace = [] };
    username = [];
    secret_ref = codes "smtp";
    rotation = [];
    allowed_senders = codes "app@blue.example" ∷ [];
    enforce_header_from = none;
    disabled = false;
  };
  status = record {
    accepted = none;
    ready = none;
    username = [];
    secret_name = [];
    gateway = [];
    rotation_observed = [];
  };
}
