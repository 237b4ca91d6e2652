-- ===== src/Render/Tests.antt =====
-- The theorems on rendering at concrete inputs.
use mailout_operator.Render.Samples.{sample_input}
use mailout_operator.Base.{ℕ, ◌+◌, ◌≤◌, false, List, [], ◌∷◌, some, ◌≡◌, refl, arith, length}
use mathlib.Core.List.{Permᴰ}
use mailout_operator.Text.{Bytes, codes}
use mailout_operator.Config.{Config}
use mailout_operator.Config
use mailout_operator.Render.{Account, gateway_config}
use mailout_operator.Render.Ordering.{gateway_config-perm}
use mailout_operator.Render.Fit.{fit_accounts}
use mailout_operator.Render.Fit.Enough.{fit_accounts-fits}
use mailout_operator.Render.Fit.Largest.{DropsLargest, fit_accounts-DropsLargest}

abbrev named : Bytes → Account
named username = record {
  username = username;
  password_hash = codes "hash";
  disabled = false;
  allowed_senders = [];
  skip_header_from_check = false;
}

gateway_config-perm_example :
    gateway_config (sample_input (named (codes "a") ∷ named (codes "ab") ∷ []))
    ≡ gateway_config (sample_input (named (codes "ab") ∷ named (codes "a") ∷ []))
gateway_config-perm_example =
    gateway_config-perm (sample_input (named (codes "a") ∷ named (codes "ab") ∷ []))
      (named (codes "ab") ∷ named (codes "a") ∷ []) (Permᴰ.swap refl refl)
      (((λ e. cc), tt), (tt, tt))

-- Two accounts of sizes 5 and 9, in a configuration that has 2 more.
abbrev two : Config
two = gateway_config (sample_input (named (codes "abcde") ∷ named (codes "ninechars") ∷ []))

abbrev account_size : Config.Account → ℕ
account_size a = length a.username

abbrev total_size : List Config.Account → ℕ
total_size [] = 2
total_size (a ∷ accounts) = account_size a + total_size accounts

abbrev config_size : Config → ℕ
config_size c = total_size c.accounts

fit_accounts-fits_example :
    config_size (fit_accounts (λ c. some (config_size c)) (λ a. some (account_size a)) two 10).0
    ≤ 10
fit_accounts-fits_example = fit_accounts-fits config_size account_size two 10 (omega arith)

fit_accounts-DropsLargest_example :
    DropsLargest
      (λ c. some (config_size c))
      account_size
      two
      (fit_accounts (λ c. some (config_size c)) (λ a. some (account_size a)) two 10)
fit_accounts-DropsLargest_example =
    fit_accounts-DropsLargest (λ c. some (config_size c)) account_size two 10

-- The longer name goes.
fit_accounts-longer :
    (fit_accounts (λ c. some (config_size c)) (λ a. some (account_size a)) two 10).1
    ≡ codes "ninechars" ∷ []
unfolding fit_accounts gateway_config
fit_accounts-longer = refl
