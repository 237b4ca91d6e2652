-- ===== src/Config/Tests.antt =====
-- Runs of the configuration, and its theorems at concrete inputs.
use mailout_operator.Base.{[], ◌∷◌, ◌≡◌, ◌↔◌, refl}
use mailout_operator.Config.Samples.{cost, account, config}
use mailout_operator.Text.{codes, has, add, same}
use mailout_operator.Config.{
  partition_accounts, valid_username, all_safe, safe_byte, usable_hash, validate, numbered,
  unsafe_username, partition_from, rejection,
}
use mailout_operator.Config.Accounts.{partition_accounts_broken}
use mailout_operator.Config.Partitions.{Partitions, partition_accounts_sound}
use mailout_operator.Config.Requirements.{IsSound, validate-IsSound}

partition_accounts_sound_example :
    Partitions cost [] 0 config.accounts
      (partition_accounts cost config).0
      (partition_accounts cost config).1
partition_accounts_sound_example = partition_accounts_sound cost config

-- The account in the middle is reported, the two others are served.
config_accounts : partition_accounts cost config ≡ (
  account (codes "shop") ∷ account (codes "blog") ∷ [],
  record { username = numbered 1; reason = unsafe_username } ∷ [],
)
unfolding partition_accounts partition_from rejection valid_username all_safe safe_byte usable_hash
    has add same
config_accounts = refl

partition_accounts_broken_example :
    (partition_accounts cost config).0
    ≡ (partition_accounts cost
        (record config { accounts = account (codes "shop") ∷ account (codes "blog") ∷ [] })).0
unfolding valid_username all_safe safe_byte usable_hash
partition_accounts_broken_example =
    partition_accounts_broken cost config (account (codes "shop") ∷ [])
      (account (codes "blog") ∷ []) (account (codes "a:b")) refl refl

validate-IsSound_example : (validate config ≡ []) ↔ IsSound config
validate-IsSound_example = validate-IsSound config

config_valid : validate config ≡ []
unfolding validate has add same
config_valid = refl
