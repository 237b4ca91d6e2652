-- ===== src/RateLimit.antt =====
-- internal/gateway/ratelimit.go: quotas counted in a store that every replica shares. The store is
-- a parameter: its states and what a pipelined INCRBY answers.
pub mod Quota
pub mod Keys
pub mod Reload
mod Tests
use mailout_operator.Base.{
  ℕ, zero, suc, ◌+◌, ◌-◌, ◌*◌, ◌≤◌, ◌<◌, Bool, true, false, not, ◌&&◌, ◌||◌, List, [], ◌∷◌, ◌++◌,
  Option, none, some, ◌≡◌, ◌≢◌, ◌↔◌, ◌⊎◌, inl, inr, refl, sym, ap, subst, ◌∙◌, arith, ◌==◌, ltb,
  leb, if◌then◌else◌, Bool-cases, Option-cases, length, take, drop, is_empty, keep, All, Any,
  append-nil, append_assoc, length-append, some_of, some_of-or, some_of-Any, some_of-keep,
  some_of_mono, ==_iff,
}
use mailout_operator.Text.{Bytes, codes, same}
use mailout_operator.Smtp.{SmtpError}
use mailout_operator.Config.{RateLimit, RateLimitStore}

-- `none` is an error of the pipeline.
pub record CounterStore : Type 1 where
  pub State : Type 0
  pub incr_by : State → Bytes → ℕ → State × Option ℕ

pub record Limiter : Type 0 where
  pub gateway : Bytes
  pub limits : RateLimit

abbrev pub err_over_quota : Bytes → SmtpError
err_over_quota what = record {
  code = 452;
  enhanced = (4, 2, 2);
  message = codes "Too many " ++ (what ++ codes " for this account, try again later");
}

abbrev pub err_store_unavailable : SmtpError
err_store_unavailable = record {
  code = 451;
  enhanced = (4, 3, 2);
  message = codes "Quota store unavailable, try again later";
}

unfoldable pub same_texts : List Bytes → List Bytes → Bool
same_texts [] [] = true
same_texts (x ∷ xs) (y ∷ ys) = same x y && same_texts xs ys
same_texts _ _ = false

abbrev same_bool : Bool → Bool → Bool
same_bool true b = b
same_bool false b = not b

unfoldable pub same_store : RateLimitStore → RateLimitStore → Bool
unfolding same_texts
same_store a b =
    same_texts a.addresses b.addresses
    && same a.master_name b.master_name
    && a.db == b.db
    && same a.username b.username
    && same a.password b.password
    && same a.sentinel_username b.sentinel_username
    && same a.sentinel_password b.sentinel_password
    && same_bool a.tls b.tls
    && same_bool a.insecure_skip_verify b.insecure_skip_verify
    && same a.root_ca_pem b.root_ca_pem
    && a.timeout == b.timeout

pub data StoreMode : Type 0 where
  sentinel cluster standalone : StoreMode

unfoldable pub store_mode : RateLimitStore → StoreMode
store_mode s =
    if not (is_empty s.master_name)
    then sentinel
    else if ltb 1 (length s.addresses)
    then cluster
    else standalone

-- The time window is a text: the number that `key` prints.
unfoldable pub key : Bytes → Bytes → Bytes → Bytes → Bytes
key gateway account dimension window =
    codes "mailout:" ++ (gateway ++ b':' ∷ (account ++ b':' ∷ (dimension ++ b':' ∷ window)))

abbrev pub messages : Bytes
messages = codes "messages"

abbrev pub recipients_name : Bytes
recipients_name = codes "recipients"

module _ (store : CounterStore) where
  -- How the answer of the store decides: `none` lets the message go on.
  unfoldable pub decide_count : ℕ → Bytes → Option ℕ → Option SmtpError
  decide_count limit what none = some err_store_unavailable
  decide_count limit what (some count) =
      if ltb limit count then some (err_over_quota what) else none

  unfoldable pub counted : ℕ → Bytes → store.State × Option ℕ → store.State × Option SmtpError
  unfolding decide_count
  counted limit what (st, answer) = (st, decide_count limit what answer)

  -- One round of the loop over the dimensions. A limit or an amount of 0 counts nothing.
  unfoldable pub check_dimension :
      store.State → Bytes → Bytes → ℕ → ℕ → store.State × Option SmtpError
  unfolding counted
  check_dimension st k what limit by =
      if limit == 0 || by == 0 then (st, none) else counted limit what (store.incr_by st k by)

  unfoldable pub if_allowed :
      store.State × Option SmtpError
      → (store.State → store.State × Option SmtpError)
      → store.State × Option SmtpError
  if_allowed (st, some e) next = (st, some e)
  if_allowed (st, none) next = next st

  unfoldable pub check_limits :
      Limiter → Bytes → store.State → Bytes → ℕ → store.State × Option SmtpError
  unfolding check_dimension if_allowed key
  check_limits l window st account recipients =
      if_allowed
        (check_dimension st (key l.gateway account messages window) messages
          l.limits.messages_per_minute 1)
        (λ st'.
          check_dimension st' (key l.gateway account recipients_name window) recipients_name
            l.limits.recipients_per_minute recipients)

  -- `check`: without a limiter nothing is counted.
  unfoldable pub check :
      Option Limiter → Bytes → store.State → Bytes → ℕ → store.State × Option SmtpError
  unfolding check_limits
  check none window st account recipients = (st, none)
  check (some l) window st account recipients = check_limits l window st account recipients

  -- How many checks of one account pass, and with how many recipients, along a row of checks of
  -- any accounts within one window.
  unfoldable pub passed : Option Limiter → Bytes → Bytes → store.State → List (Bytes × ℕ) → ℕ × ℕ
  unfolding check
  passed l window who st [] = (0, 0)
  passed l window who st ((account, recipients) ∷ rest) =
      let (st', verdict) = check l window st account recipients in
      let (m, r) = passed l window who st' rest in
      if same account who
      then elim verdict [ none ↦ (suc m, r + recipients) | some e ↦ (m, r) ]
      else (m, r)
