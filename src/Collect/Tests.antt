-- ===== src/Collect/Tests.antt =====
-- The theorem on collected accounts at a concrete input.
use mailout_operator.Base.{false, List, [], ◌∷◌, some, ◌≡◌, refl, All, Any}
use mailout_operator.Text.{Bytes, codes, same, has, cut, to_lower, trim_space, add}
use mailout_operator.Api.Samples.{sample_gateway, sample_account}
use mailout_operator.Access.{gateway_namespace_for}
use mailout_operator.Access.Samples.{sample_cluster}
use mailout_operator.Policy.{granted_subset}
use mailout_operator.Render.{Account}
use mailout_operator.Collect.{SecretAnswer, found, collect_accounts}
use mailout_operator.Collect.Granted.{StandsFor, IsGranted, collect_accounts-IsGranted}

abbrev secrets : Bytes → Bytes → SecretAnswer
secrets namespace name = found (λ key. codes "$2a$10$hash")

-- The green team asks for the domain of the blue team, and is served without it.
abbrev served : List Account
served =
    record {
      username = codes "blue.app";
      password_hash = codes "$2a$10$hash";
      disabled = false;
      allowed_senders = codes "app@blue.example" ∷ [];
      skip_header_from_check = false;
    }
    ∷ record {
      username = codes "green.app";
      password_hash = codes "$2a$10$hash";
      disabled = false;
      allowed_senders = [];
      skip_header_from_check = false;
    }
    ∷ []

served-eq :
    collect_accounts sample_cluster secrets
      (codes "mail")
      sample_gateway
      (sample_account (codes "blue") (codes "u") ∷ sample_account (codes "green") (codes "uu") ∷ [])
    ≡ some served
unfolding collect_accounts same has granted_subset gateway_namespace_for cut to_lower trim_space add
served-eq = refl

collect_accounts-IsGranted_example :
    All
      (λ a.
        Any
          (λ account.
            StandsFor sample_cluster secrets (codes "mail") sample_gateway a account
            × IsGranted sample_cluster secrets (codes "mail") sample_gateway a account)
          (sample_account (codes "blue") (codes "u")
            ∷ sample_account (codes "green") (codes "uu")
            ∷ []))
      served
collect_accounts-IsGranted_example =
    collect_accounts-IsGranted sample_cluster secrets (codes "mail") sample_gateway
      (sample_account (codes "blue") (codes "u") ∷ sample_account (codes "green") (codes "uu") ∷ [])
      served served-eq
