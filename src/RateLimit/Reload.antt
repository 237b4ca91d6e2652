-- ===== src/RateLimit/Reload.antt =====
-- internal/gateway/server.go, `reusableLimiter`, and `newLimiter`: the limiter of a new
-- configuration. Making a client of the store is a parameter; it may fail.
use mailout_operator.Base.{
  ◌∙◌, ap, inl, inr, Option-cases, Bool-cases, ◌⊎◌, Bool, true, false, not, List, [], ◌∷◌, Option,
  none, some, ◌≡◌, ◌≢◌, ◌↔◌, refl, sym, subst, arith, if◌then◌else◌, is_empty, ==_iff,
}
use mailout_operator.Text.{Bytes, same_iff}
use mailout_operator.Config.{Config, RateLimit, RateLimitStore}
use mailout_operator.RateLimit.{Limiter, same_texts, same_bool, same_store}

pub record Counting (Client : Type 0) : Type 0 where
  pub client : Client
  pub limiter : Limiter

abbrev pub limiter_of : Config → RateLimit → Limiter
limiter_of cfg r = record { gateway = cfg.hostname; limits = r }

module _ {Client : Type 0} where
  abbrev pub reuse : Config → RateLimit → Counting Client → Option (Counting Client)
  reuse cfg r prev =
      if not (same_store prev.limiter.limits.store r.store)
      then none
      else some (record { client = prev.client; limiter = limiter_of cfg r })

  unfoldable pub reusable_limiter : Option (Counting Client) → Config → Option (Counting Client)
  reusable_limiter none cfg = none
  reusable_limiter (some prev) cfg = elim cfg.rate_limit [ none ↦ none | some r ↦ reuse cfg r prev ]

  module _ (open_client : RateLimitStore → Option Client) where
    -- The outer `none` is an error, the inner one no limiter.
    abbrev pub opened : Config → RateLimit → Option (Option (Counting Client))
    opened cfg r = if is_empty r.store.addresses then none else elim (open_client r.store) [
      | none ↦ none
      | some c ↦ some (some (record { client = c; limiter = limiter_of cfg r }))
    ]

    unfoldable pub new_limiter : Config → Option (Option (Counting Client))
    new_limiter cfg = elim cfg.rate_limit [ none ↦ some none | some r ↦ opened cfg r ]

    -- What `newSnapshot` makes of the limiter before.
    unfoldable pub next_limiter :
        Option (Counting Client) → Config → Option (Option (Counting Client))
    unfolding reusable_limiter new_limiter
    next_limiter prev cfg = elim (reusable_limiter prev cfg) [
      | some l ↦ some (some l)
      | none ↦ new_limiter cfg
    ]

same_texts-equal : (xs ys : List Bytes) → same_texts xs ys ≡ true → xs ≡ ys
unfolding same_texts
same_texts-equal [] [] h = refl
same_texts-equal [] (y ∷ ys) h = cc
same_texts-equal (x ∷ xs) [] h = cc
same_texts-equal (x ∷ xs) (y ∷ ys) h = ground (arith, (same_iff x y).0, same_texts-equal xs ys)

same_bool-equal : (a b : Bool) → same_bool a b ≡ true → a ≡ b
same_bool-equal true b h = sym h
same_bool-equal false true h = cc
same_bool-equal false false h = refl

-- Stores that `sameStore` finds the same are equal in every setting.
same_store-equal : (a b : RateLimitStore) → same_store a b ≡ true → a ≡ b
unfolding same_store
same_store-equal a b h =
    let addresses_kept = same_texts-equal a.addresses b.addresses (ground arith) in
    let master_name_kept = (same_iff a.master_name b.master_name).0 (ground arith) in
    let db_kept = (==_iff a.db b.db).0 (ground arith) in
    let username_kept = (same_iff a.username b.username).0 (ground arith) in
    let password_kept = (same_iff a.password b.password).0 (ground arith) in
    let sentinel_username_kept =
      (same_iff a.sentinel_username b.sentinel_username).0 (ground arith) in
    let sentinel_password_kept =
      (same_iff a.sentinel_password b.sentinel_password).0 (ground arith) in
    let tls_kept = same_bool-equal a.tls b.tls (ground arith) in
    let insecure_skip_verify_kept =
      same_bool-equal a.insecure_skip_verify b.insecure_skip_verify (ground arith) in
    let root_ca_pem_kept = (same_iff a.root_ca_pem b.root_ca_pem).0 (ground arith) in
    let timeout_kept = (==_iff a.timeout b.timeout).0 (ground arith) in cc

same_texts_refl : (xs : List Bytes) → same_texts xs xs ≡ true
unfolding same_texts
same_texts_refl [] = refl
same_texts_refl (x ∷ xs) = ground (arith, (same_iff x x).1 refl, same_texts_refl xs)

same_bool_refl : (a : Bool) → same_bool a a ≡ true
same_bool_refl true = refl
same_bool_refl false = refl

same_store_refl : (a : RateLimitStore) → same_store a a ≡ true
unfolding same_store
same_store_refl a =
    rw
      (
        same_texts_refl a.addresses,
        (same_iff a.master_name a.master_name).1 refl,
        (==_iff a.db a.db).1 refl,
        (same_iff a.username a.username).1 refl,
        (same_iff a.password a.password).1 refl,
        (same_iff a.sentinel_username a.sentinel_username).1 refl,
        (same_iff a.sentinel_password a.sentinel_password).1 refl,
        same_bool_refl a.tls,
        same_bool_refl a.insecure_skip_verify,
        (same_iff a.root_ca_pem a.root_ca_pem).1 refl,
        (==_iff a.timeout a.timeout).1 refl,
      )
      refl

-- Stores that `sameStore` finds different differ.
same_store-different : (a b : RateLimitStore) → same_store a b ≡ false → a ≢ b
same_store-different a b h e =
    let same_self : same_store a b ≡ true =
      subst (λ v. same_store a v ≡ true) e (same_store_refl a) in
    cc

module _ {Client : Type 0} (open_client : RateLimitStore → Option Client) where
  -- There is no limiter before, or it has a store with other settings.
  abbrev pub IsNewStore : Option (Counting Client) → RateLimit → Type 0
  IsNewStore none r = Unit
  IsNewStore (some p) r = p.limiter.limits.store ≢ r.store

  -- The client is that of the limiter before, whose store has the same settings. Only when there is no
  -- such limiter is it one that was made for the store, which then has an address.
  abbrev pub ClientFrom : Option (Counting Client) → RateLimit → Counting Client → Type 0
  ClientFrom prev r k =
      ((p : Counting Client) × (prev ≡ some p)
        × (p.limiter.limits.store ≡ r.store)
        × (k.client ≡ p.client))
      ⊎ (IsNewStore prev r × (r.store.addresses ≢ []) × (open_client r.store ≡ some k.client))

  opened-limiter :
      (prev : Option (Counting Client)) (cfg : Config) (r : RateLimit) (k : Counting Client)
      → IsNewStore prev r
      → opened open_client cfg r ≡ some (some k)
      → (k.limiter ≡ limiter_of cfg r) × ClientFrom prev r k
  opened-limiter prev cfg r k new h = elim (Bool-cases (is_empty r.store.addresses)) [
    | inl y ↦ absurd (ground arith)
    | inr n ↦ elim (Option-cases (open_client r.store)) [
      | inl e ↦ absurd (ground arith)
      | inr (c, e) ↦
          let made : record { client = c; limiter = limiter_of cfg r } ≡ k = ground arith in
          (
            sym (ap (λ z. z.limiter) made),
            inr (new, (λ none_given. ground arith), e ∙ ap (λ z. some z.client) made),
          )
    ]
  ]

  reuse-limiter :
      (p : Counting Client) (cfg : Config) (r : RateLimit) (k : Counting Client)
      → same_store p.limiter.limits.store r.store ≡ true
      → reuse cfg r p ≡ some k
      → (k.limiter ≡ limiter_of cfg r) × ClientFrom (some p) r k
  reuse-limiter p cfg r k y h =
      let made : record { client = p.client; limiter = limiter_of cfg r } ≡ k = ground arith in
      (
        sym (ap (λ z. z.limiter) made),
        inl (p, refl, same_store-equal _ _ y, sym (ap (λ z. z.client) made)),
      )

  current :
      (prev : Option (Counting Client)) (cfg : Config) (r : RateLimit) (k : Counting Client)
      → cfg.rate_limit ≡ some r
      → next_limiter open_client prev cfg ≡ some (some k)
      → (k.limiter ≡ limiter_of cfg r) × ClientFrom prev r k
  unfolding next_limiter reusable_limiter new_limiter
  current none cfg r k e h = opened-limiter none cfg r k tt (ground arith)
  current (some p) cfg r k e h = elim (Bool-cases (same_store p.limiter.limits.store r.store)) [
    | inl y ↦ reuse-limiter p cfg r k y (ground arith)
    | inr n ↦ opened-limiter (some p) cfg r k (same_store-different _ _ n) (ground arith)
  ]

  ClientFrom-next_limiter :
      (prev : Option (Counting Client)) (cfg : Config) (r : RateLimit) (k : Counting Client)
      → cfg.rate_limit ≡ some r
      → k.limiter ≡ limiter_of cfg r
      → ClientFrom prev r k
      → next_limiter open_client prev cfg ≡ some (some k)
  unfolding next_limiter reusable_limiter new_limiter
  ClientFrom-next_limiter prev cfg r k e counts (inl (p, was, kept, client)) =
      let same_self : same_store p.limiter.limits.store r.store ≡ true =
        subst (λ v. same_store p.limiter.limits.store v ≡ true) kept
          (same_store_refl p.limiter.limits.store) in
      ground (arith, was, e, counts, client, same_self)
  ClientFrom-next_limiter none cfg r k e counts (inr (new, given, made)) =
      ground (arith, e, counts, made, given)
  ClientFrom-next_limiter (some p) cfg r k e counts (inr (new, given, made)) =
      elim (Bool-cases (same_store p.limiter.limits.store r.store)) [
        | inl y ↦ absurd (new (same_store-equal _ _ y))
        | inr n ↦ ground (arith, e, counts, made, given)
      ]

  -- With a quota in the new configuration, a snapshot gets exactly this limiter: it counts by the new
  -- limits and host name. If the limiter before has a store with the same settings, its client goes
  -- on. Only otherwise, there being no limiter before or one whose store differs, it has the client
  -- that was made for the store, whose addresses are then not empty.
  pub next_limiter_current :
      (prev : Option (Counting Client)) (cfg : Config) (r : RateLimit) (k : Counting Client)
      → cfg.rate_limit ≡ some r
      → (next_limiter open_client prev cfg ≡ some (some k))
        ↔ ((k.limiter ≡ limiter_of cfg r) × ClientFrom prev r k)
  next_limiter_current prev cfg r k e = (
    current prev cfg r k e,
    λ (counts, client). ClientFrom-next_limiter prev cfg r k e counts client,
  )
