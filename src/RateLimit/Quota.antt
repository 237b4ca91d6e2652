-- ===== src/RateLimit/Quota.antt =====
-- The quota holds, and the limiter fails closed.
use native.Mathlib.Decide.{dec_lt}
use mailout_operator.Base.{
  ◌∷◌, [], sym, ◌-◌, List, inl, inr, Bool-cases, subst, refl, Option, ℕ, ◌+◌, ◌≤◌, ◌<◌, none, some,
  ◌≡◌, arith, Option-cases,
}
use mailout_operator.Text.{same_iff, Bytes}
use mailout_operator.RateLimit.{
  err_store_unavailable, same, recipients_name, messages, key, SmtpError, check_limits, check,
  passed, Limiter, if_allowed, CounterStore, decide_count, counted, check_dimension,
}

-- What the gateway relies on within one window: a count that is answered is the old one with the
-- amount added, it is then what is stored, and no operation makes a count fall.
pub record IsCounter (store : CounterStore) (count : store.State → Bytes → ℕ) : Type 0 where
  pub counts :
      (st : store.State) (k : Bytes) (by n : ℕ)
      → (store.incr_by st k by).1 ≡ some n
      → (n ≡ count st k + by) × (count (store.incr_by st k by).0 k ≡ n)
  pub grows :
      (st : store.State) (k : Bytes) (by : ℕ) (j : Bytes)
      → count st j ≤ count (store.incr_by st k by).0 j

module _ (store : CounterStore) (count : store.State → Bytes → ℕ)
    (law : IsCounter store count) where
  check_dimension-grows :
      (st : store.State) (k what : Bytes) (limit by : ℕ) (j : Bytes)
      → count st j ≤ count (check_dimension store st k what limit by).0 j
  unfolding check_dimension counted
  check_dimension-grows st k what limit by j = ground (arith, law.grows st k by j)

  -- A dimension that lets a message pass has counted it, and stays within its limit.
  check_dimension-passes :
      (st : store.State) (k what : Bytes) (limit by : ℕ)
      → 0 < limit
      → 0 < by
      → (check_dimension store st k what limit by).1 ≡ none
      → (count st k + by ≤ count (check_dimension store st k what limit by).0 k)
        × (count (check_dimension store st k what limit by).0 k ≤ limit)
  unfolding check_dimension counted decide_count
  check_dimension-passes st k what limit by hl hb h =
      elim (Option-cases (store.incr_by st k by).1) [
        | inl e ↦ ground arith
        | inr (n, e) ↦ ground (arith, law.counts st k by n e)
      ]

  -- The count has been raised by the amount, and was then within the limit.
  abbrev Counted : store.State → store.State → Bytes → ℕ → ℕ → Type 0
  Counted before after k limit by =
      (c : ℕ) × (count before k + by ≤ c) × (c ≤ limit) × (c ≤ count after k)

  if_allowed-grows :
      (st : store.State) (r : store.State × Option SmtpError)
      (next : store.State → store.State × Option SmtpError) (j : Bytes)
      → count st j ≤ count r.0 j
      → ((s : store.State) → count s j ≤ count (next s).0 j)
      → count st j ≤ count (if_allowed store r next).0 j
  unfolding if_allowed
  if_allowed-grows st (s, some e) next j h rec = h
  if_allowed-grows st (s, none) next j h rec = omega (arith, rec s)

  module _ (l : Limiter) (window : Bytes) where
    check-grows :
        (st : store.State) (account : Bytes) (n : ℕ) (j : Bytes)
        → count st j ≤ count (check store (some l) window st account n).0 j
    unfolding check check_limits
    check-grows st account n j =
        if_allowed-grows st _ _ j
          (check_dimension-grows st (key l.gateway account messages window) messages
            l.limits.messages_per_minute 1 j)
          (λ s.
            check_dimension-grows s (key l.gateway account recipients_name window) recipients_name
              l.limits.recipients_per_minute n j)

    first_passes :
        (r : store.State × Option SmtpError) (next : store.State → store.State × Option SmtpError)
        → (if_allowed store r next).1 ≡ none
        → (r.1 ≡ none) × ((next r.0).1 ≡ none) × ((if_allowed store r next).0 ≡ (next r.0).0)
    unfolding if_allowed
    first_passes (s, some e) next h = cc
    first_passes (s, none) next h = (refl, h, refl)

    check-messages :
        (st : store.State) (account : Bytes) (n : ℕ)
        → 0 < l.limits.messages_per_minute
        → (check store (some l) window st account n).1 ≡ none
        → Counted st
            (check store (some l) window st account n).0
            (key l.gateway account messages window)
            l.limits.messages_per_minute
            1
    unfolding check check_limits
    check-messages st account n hl h =
        let k = key l.gateway account messages window in
        let one = check_dimension store st k messages l.limits.messages_per_minute 1 in
        let (p, q, e) = first_passes one _ h in
        let (a, b) =
          check_dimension-passes st k messages l.limits.messages_per_minute 1 hl (omega arith) p in
        (
          count one.0 k,
          a,
          b,
          subst (λ s. count one.0 k ≤ count s k) (sym e)
              (check_dimension-grows one.0 (key l.gateway account recipients_name window)
                recipients_name l.limits.recipients_per_minute n k),
        )

    check_recipients :
        (st : store.State) (account : Bytes) (n : ℕ)
        → 0 < l.limits.recipients_per_minute
        → 0 < n
        → (check store (some l) window st account n).1 ≡ none
        → Counted st
            (check store (some l) window st account n).0
            (key l.gateway account recipients_name window)
            l.limits.recipients_per_minute
            n
    unfolding check check_limits
    check_recipients st account n hl hn h =
        let k = key l.gateway account recipients_name window in
        let one =
          check_dimension store st (key l.gateway account messages window) messages
            l.limits.messages_per_minute 1 in
        let two = check_dimension store one.0 k recipients_name l.limits.recipients_per_minute n in
        let (p, q, e) = first_passes one _ h in
        let (a, b) =
          check_dimension-passes one.0 k recipients_name l.limits.recipients_per_minute n hl hn q in
        let up =
          check_dimension-grows st (key l.gateway account messages window) messages
            l.limits.messages_per_minute 1 k in
        (
          count two.0 k,
          omega arith,
          b,
          subst (λ s. count two.0 k ≤ count s k) (sym e) (omega arith),
        )

    -- Along any row of checks in one window, of this account and of others, the messages that pass
    -- are no more than what the limit leaves above the count at the start.
    pub passed-messages :
        (who : Bytes) (st : store.State) (reqs : List (Bytes × ℕ))
        → 0 < l.limits.messages_per_minute
        → (passed store (some l) window who st reqs).0
          ≤ l.limits.messages_per_minute - count st (key l.gateway who messages window)
    unfolding passed
    passed-messages who st [] hl = omega arith
    passed-messages who st ((account, n) ∷ reqs) hl =
        let st' = (check store (some l) window st account n).0 in
        let ih = passed-messages who st' reqs hl in
        let up = check-grows st account n (key l.gateway who messages window) in
        elim (Bool-cases (same account who)) [
          | inr other ↦ rw (other, passed) (omega arith)
          | inl mine ↦ elim (Option-cases (check store (some l) window st account n).1) [
            | inr (e, denied) ↦ rw (mine, denied, passed) (omega arith)
            | inl fine ↦
                let (c, a, b, d) =
                  subst
                    (λ w.
                      Counted st st' (key l.gateway w messages window) l.limits.messages_per_minute
                        1)
                    ((same_iff account who).0 mine) (check-messages st account n hl fine) in
                rw (mine, fine, passed) (omega arith)
          ]
        ]

    -- The same of their recipients, in sum.
    passed_recipients :
        (who : Bytes) (st : store.State) (reqs : List (Bytes × ℕ))
        → 0 < l.limits.recipients_per_minute
        → (passed store (some l) window who st reqs).1
          ≤ l.limits.recipients_per_minute - count st (key l.gateway who recipients_name window)
    unfolding passed
    passed_recipients who st [] hl = omega arith
    passed_recipients who st ((account, n) ∷ reqs) hl =
        let st' = (check store (some l) window st account n).0 in
        let ih = passed_recipients who st' reqs hl in
        let up = check-grows st account n (key l.gateway who recipients_name window) in
        elim (Bool-cases (same account who)) [
          | inr other ↦ rw (other, passed) (omega arith)
          | inl mine ↦ elim (Option-cases (check store (some l) window st account n).1) [
            | inr (e, denied) ↦ rw (mine, denied, passed) (omega arith)
            | inl fine ↦ elim (dec_lt 0 n) [
              | no none' ↦ rw (mine, fine, passed) (omega arith)
              | yes some' ↦
                  let (c, a, b, d) =
                    subst
                      (λ w.
                        Counted st st' (key l.gateway w recipients_name window)
                          l.limits.recipients_per_minute n)
                      ((same_iff account who).0 mine)
                      (check_recipients st account n hl some' fine) in
                  rw (mine, fine, passed) (omega arith)
            ]
          ]
        ]

-- The limiter fails closed: when the store does not answer the count of a message, the message is
-- refused with a temporary error, and the count of its recipients is not attempted.
check_unavailable :
    (store : CounterStore) (l : Limiter) (window : Bytes) (st : store.State) (account : Bytes)
    (n : ℕ)
    → 0 < l.limits.messages_per_minute
    → (store.incr_by st (key l.gateway account messages window) 1).1 ≡ none
    → check store (some l) window st account n
      ≡ ((store.incr_by st (key l.gateway account messages window) 1).0, some err_store_unavailable)
unfolding check check_limits check_dimension counted decide_count if_allowed
check_unavailable store l window st account n hl e = ground arith
