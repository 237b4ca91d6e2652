-- ===== src/Access/Tests.antt =====
-- Runs of the controller's decisions, and their theorem at a concrete input.
use mailout_operator.Base.{List, [], ◌∷◌, none, ◌≢◌, ◌⊎◌, inl, inr, refl}
use mailout_operator.Text.{Bytes, codes, same}
use mailout_operator.Api.{MailoutAccount}
use mailout_operator.Api.Samples.{sample_gateway, sample_account}
use mailout_operator.Access.{gateway_namespace_for, username_for, username_conflict}
use mailout_operator.Access.Conflict.{Claims, username_conflict_excludes}

-- Accounts that ask for one name.
abbrev object : Bytes → Bytes → MailoutAccount
object namespace uid =
    let account = sample_account namespace uid in
    record account { spec = record account.spec { username = codes "shop" } }

abbrev objects : List MailoutAccount
objects = object (codes "blue") (codes "u") ∷ object (codes "green") (codes "uu") ∷ []

object-Claims :
    (namespace uid : Bytes)
    → Claims (codes "mail") sample_gateway (codes "shop") (object namespace uid)
unfolding gateway_namespace_for username_for same
object-Claims namespace uid = record { on_gateway = refl; by_name = refl }

username_conflict_excludes_example :
    (username_conflict
        (codes "mail")
        sample_gateway
        (codes "shop")
        (object (codes "blue") (codes "u"))
        objects
      ≢ none)
    ⊎ (username_conflict
          (codes "mail")
          sample_gateway
          (codes "shop")
          (object (codes "green") (codes "uu"))
          objects
        ≢ none)
unfolding same
username_conflict_excludes_example =
    username_conflict_excludes (codes "mail") sample_gateway (codes "shop")
      (object (codes "blue") (codes "u")) (object (codes "green") (codes "uu")) objects (inl refl)
      (inr (inl refl)) refl (λ e. cc) (object-Claims (codes "blue") (codes "u"))
      (object-Claims (codes "green") (codes "uu"))
