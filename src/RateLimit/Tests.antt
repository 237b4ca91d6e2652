-- ===== src/RateLimit/Tests.antt =====
-- Runs of the quota, and its theorems at concrete inputs.
use mailout_operator.Base.{
  Option, ℕ, ◌+◌, ◌-◌, ◌≤◌, true, false, List, [], ◌∷◌, none, some, ◌≡◌, ◌↔◌, refl, arith,
  if◌then◌else◌,
}
use mailout_operator.Config.Samples.{config}
use mailout_operator.RateLimit.Reload.{
  Counting, limiter_of, ClientFrom, next_limiter, reusable_limiter, new_limiter,
  next_limiter_current,
}
use mailout_operator.Text.{Bytes, codes, same, same_iff, contains}
use mailout_operator.Config.{RateLimitStore, Config, valid_username, all_safe, safe_byte}
use mailout_operator.RateLimit.{same_store, same_texts, CounterStore, Limiter, messages, passed}
use mailout_operator.RateLimit.Quota.{IsCounter, passed-messages}
use mailout_operator.RateLimit.Keys.{key-injective}

-- Counts in memory.
abbrev counters : CounterStore
counters = record {
  State = Bytes → ℕ;
  incr_by = λ st k by. (λ j. if same j k then st j + by else st j, some (st k + by));
}

-- A store that is away.
abbrev away : CounterStore
away = record { State = Unit; incr_by = λ st k by. (st, none) }

abbrev count : (Bytes → ℕ) → Bytes → ℕ
count st = st

same_refl : (k : Bytes) → same k k ≡ true
same_refl k = (same_iff k k).1 refl

counters-IsCounter : IsCounter counters count
counters-IsCounter = record {
  counts = λ st k by n e. ground (arith, same_refl k);
  grows = λ st k by j. ground arith;
}

abbrev limiter : Limiter
limiter = record {
  gateway = codes "gw";
  limits = record {
    store = record {
      addresses = codes "redis:6379" ∷ [];
      master_name = [];
      db = 0;
      username = [];
      password = [];
      sentinel_username = [];
      sentinel_password = [];
      tls = false;
      insecure_skip_verify = false;
      root_ca_pem = [];
      timeout = 0;
    };
    messages_per_minute = 2;
    recipients_per_minute = 5;
  };
}

abbrev requests : List (Bytes × ℕ)
requests = (codes "shop", 2) ∷ (codes "blog", 1) ∷ (codes "shop", 9) ∷ (codes "shop", 1) ∷ []

abbrev nothing : Bytes → ℕ
nothing k = 0

passed-messages_example :
    (passed counters (some limiter) (codes "7") (codes "shop") nothing requests).0 ≤ 2 - 0
passed-messages_example =
    passed-messages counters count counters-IsCounter limiter (codes "7") (codes "shop") nothing
      requests (omega arith)

key-injective_example :
    (codes "shop" ≡ codes "shop") × (messages ≡ messages) × (codes "7" ≡ codes "7")
unfolding valid_username all_safe safe_byte contains
key-injective_example =
    key-injective (codes "gw") (codes "shop") (codes "shop") messages messages (codes "7")
      (codes "7") refl refl refl refl refl

abbrev quota_config : Config
quota_config = record config { rate_limit = some limiter.limits }

-- Clients are numbered.
abbrev open_client : RateLimitStore → Option ℕ
open_client s = some 2

abbrev before : Counting ℕ
before = record { client = 1; limiter = limiter }

abbrev reloaded : Counting ℕ
reloaded = record { client = 1; limiter = limiter_of quota_config limiter.limits }

next_limiter_current_example :
    (next_limiter open_client (some before) quota_config ≡ some (some reloaded)) ↔ (
      (reloaded.limiter ≡ limiter_of quota_config limiter.limits)
      × ClientFrom open_client (some before) limiter.limits reloaded)
next_limiter_current_example =
    next_limiter_current open_client (some before) quota_config limiter.limits reloaded refl

-- The reload with the same store keeps the client before.
reload_kept : next_limiter open_client (some before) quota_config ≡ some (some reloaded)
unfolding next_limiter reusable_limiter new_limiter same_store same_texts same
reload_kept = refl
