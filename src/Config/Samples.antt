-- ===== src/Config/Samples.antt =====
-- A configuration for the tests.
use mailout_operator.Base.{ℕ, false, [], ◌∷◌, Option, none, some}
use mailout_operator.Text.{Bytes, codes}
use mailout_operator.Config.{Config, Account, starttls, implicit}

-- A hash costs twelve.
abbrev pub cost : Bytes → Option ℕ
cost hash = some 12

abbrev pub account : Bytes → Account
account name = record {
  username = name;
  password_hash = codes "hash";
  disabled = false;
  allowed_senders = codes "*@example.com" ∷ [];
  skip_header_from_check = false;
}

abbrev pub config : Config
config = record {
  hostname = codes "mail.example.com";
  listeners = record { name = codes "submission"; addr = codes ":587"; mode = starttls } ∷ [];
  tls = record {
    certificates =
        record {
          name = [];
          cert_file = codes "tls.crt";
          key_file = codes "tls.key";
          cert_pem = [];
          key_pem = [];
        }
        ∷ [];
    default_certificate = [];
  };
  upstream = record {
    host = codes "smtp.example.net";
    port = 465;
    tls = implicit;
    insecure_skip_verify = false;
    root_ca_pem = [];
    username = [];
    password = [];
    timeout = 60;
  };
  accounts = account (codes "shop") ∷ account (codes "a:b") ∷ account (codes "blog") ∷ [];
  milters = [];
  dkim = [];
  rate_limit = none;
  limits = record {
    max_message_bytes = 0;
    max_recipients = 0;
    read_timeout = 0;
    write_timeout = 0;
    max_line_length = 0;
    max_connections = 0;
    spool_dir = [];
    spool_threshold = 0;
  };
  metrics_token = [];
}
