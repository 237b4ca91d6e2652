-- ===== src/Collect/Granted.antt =====
-- What an account that a gateway serves may send from.
use mailout_operator.Base.{
  Bool, true, false, List, [], ◌∷◌, Option, none, some, ◌≡◌, ◌⊎◌, inl, inr, refl, sym, subst, arith,
  Bool-cases, is_empty, All, Any, All-map,
}
use mailout_operator.Text.{Bytes, to_lower}
use mailout_operator.Policy.{new_sender_policy, allows, bare_address, granted_subset}
use mailout_operator.Policy.Grants.{Covers, allows_iff}
use mailout_operator.Policy.Narrowing.{allows-granted_subset}
use mailout_operator.Api.{MailoutAccount, MailoutGateway}
use mailout_operator.Access.{Labelling, is_on, username_for, namespace_allowed, granted_senders}
use mailout_operator.Access.Grants.{GrantWith, granted_senders-GrantWith}
use mailout_operator.Render.{Account}
use mailout_operator.Collect.{
  SecretAnswer, found, not_found, get_failed, password_hash_key, Collected, skipped,
  failed_to_collect, collected, render_account_of, collect_with_secret, collect_allowed,
  collect_one, collect_more, collect_accounts,
}

module _ {Selector Labels : Type 0} (cluster : Labelling Selector Labels)
    (get_secret : Bytes → Bytes → SecretAnswer) (operator_namespace : Bytes)
    (gw : MailoutGateway Selector) where
  -- The served account stands for this object: it refers to the gateway, which accepts its namespace; the
  -- username is its own, and the hash is that of its Secret.
  pub record StandsFor (a : Account) (account : MailoutAccount) : Type 0 where
    pub on_gateway : is_on operator_namespace gw account ≡ true
    pub accepted : namespace_allowed cluster gw account.namespace ≡ some true
    pub named : a.username ≡ username_for account
    pub secret :
        (read : Bytes → Bytes) × (get_secret account.namespace account.spec.secret_ref ≡ found read)
        × (a.password_hash ≡ read password_hash_key)
        × (is_empty a.password_hash ≡ false)
    pub disabled_kept : a.disabled ≡ account.spec.disabled

  -- Each address it may use is covered by a grant of the gateway that applies to its namespace.
  abbrev pub IsGranted : Account → MailoutAccount → Type 0
  IsGranted a account =
      (addr : Bytes)
      → allows (new_sender_policy a.allowed_senders) addr ≡ true
      → Any (GrantWith cluster (Covers (to_lower (bare_address addr))) account.namespace)
          gw.spec.allowed_senders

  render_account_of-eq :
      (account : MailoutAccount) (hash : Bytes) (granted : Option (List Bytes)) (a : Account)
      → render_account_of account hash granted ≡ collected a
      → (senders : List Bytes) × (granted ≡ some senders)
        × (a.username ≡ username_for account)
        × (a.password_hash ≡ hash)
        × (a.disabled ≡ account.spec.disabled)
        × (a.allowed_senders ≡ (granted_subset senders account.spec.allowed_senders).0)
  unfolding render_account_of
  render_account_of-eq account hash none a h = absurd (ground arith)
  render_account_of-eq account hash (some senders) a h =
      (senders, refl, ground arith, ground arith, ground arith, ground arith)

  collect_with_secret-eq :
      (account : MailoutAccount) (s : SecretAnswer) (a : Account)
      → collect_with_secret cluster get_secret operator_namespace gw account s ≡ collected a
      → (read : Bytes → Bytes) × (s ≡ found read)
        × (is_empty (read password_hash_key) ≡ false)
        × (render_account_of account
              (read password_hash_key)
              (granted_senders cluster gw account.namespace)
            ≡ collected a)
  unfolding collect_with_secret
  collect_with_secret-eq account get_failed a h = absurd (ground arith)
  collect_with_secret-eq account not_found a h = absurd (ground arith)
  collect_with_secret-eq account (found read) a h =
      elim (Bool-cases (is_empty (read password_hash_key))) [
        | inl y ↦ absurd (ground arith)
        | inr n ↦ (read, refl, n, ground arith)
      ]

  collect_allowed-eq :
      (account : MailoutAccount) (v : Option Bool) (a : Account)
      → collect_allowed cluster get_secret operator_namespace gw account v ≡ collected a
      → (v ≡ some true)
        × (collect_with_secret cluster get_secret operator_namespace gw account
              (get_secret account.namespace account.spec.secret_ref)
            ≡ collected a)
  unfolding collect_allowed
  collect_allowed-eq account none a h = absurd (ground arith)
  collect_allowed-eq account (some false) a h = absurd (ground arith)
  collect_allowed-eq account (some true) a h = (refl, h)

  IsGranted-account :
      (account : MailoutAccount) (senders : List Bytes) (a : Account)
      → granted_senders cluster gw account.namespace ≡ some senders
      → a.allowed_senders ≡ (granted_subset senders account.spec.allowed_senders).0
      → IsGranted a account
  IsGranted-account account senders a g e addr h =
      granted_senders-GrantWith cluster (Covers (to_lower (bare_address addr))) gw account.namespace
        senders g
        ((allows_iff senders addr).0 (
          allows-granted_subset senders account.spec.allowed_senders addr
            (subst (λ l. allows (new_sender_policy l) addr ≡ true) e h)))

  pub collect_one-Served :
      (account : MailoutAccount) (a : Account)
      → collect_one cluster get_secret operator_namespace gw account ≡ collected a
      → StandsFor a account × IsGranted a account
  unfolding collect_one
  collect_one-Served account a h = elim (Bool-cases (is_on operator_namespace gw account)) [
    | inr n ↦ absurd (ground arith)
    | inl on ↦
        let (yes', more) =
          collect_allowed-eq account (namespace_allowed cluster gw account.namespace) a
            (ground arith) in
        let (read, got, has_hash, made) =
          collect_with_secret-eq account (get_secret account.namespace account.spec.secret_ref) a
            more in
        let (senders, g, named', hash', disabled', allowed') =
          render_account_of-eq account (read password_hash_key)
            (granted_senders cluster gw account.namespace) a made in
        (
          record {
            on_gateway = on;
            accepted = yes';
            named = named';
            secret = (read, got, hash', subst (λ l. is_empty l ≡ false) (sym hash') has_hash);
            disabled_kept = disabled';
          },
          IsGranted-account account senders a g allowed',
        )
  ]

  pub collect_more-some :
      (c : Collected) (rest : Option (List Account)) (accounts : List Account)
      → collect_more cluster get_secret operator_namespace gw c rest ≡ some accounts
      → ((c ≡ skipped) × (rest ≡ some accounts))
        ⊎ ((a : Account) × (more : List Account) × (c ≡ collected a)
            × (rest ≡ some more)
            × (accounts ≡ a ∷ more))
  unfolding collect_more
  collect_more-some failed_to_collect rest accounts h = absurd (ground arith)
  collect_more-some skipped rest accounts h = inl (refl, h)
  collect_more-some (collected a) none accounts h = absurd (ground arith)
  collect_more-some (collected a) (some more) accounts h = inr (a, more, refl, refl, ground arith)

  -- When the accounts of a gateway can be collected, each of them stands for an account object of the
  -- list, that refers to the gateway and is in a namespace it accepts, with its username and the hash
  -- of its Secret, which is not empty; and each address it may use is covered by a grant of the
  -- gateway that applies to that namespace, whatever the object asks for.
  pub collect_accounts-IsGranted :
      (items : List MailoutAccount) (accounts : List Account)
      → collect_accounts cluster get_secret operator_namespace gw items ≡ some accounts
      → All (λ a. Any (λ account. StandsFor a account × IsGranted a account) items) accounts
  unfolding collect_accounts
  collect_accounts-IsGranted [] accounts h =
      let none_left : [] ≡ accounts = ground arith in subst (All _) none_left tt
  collect_accounts-IsGranted (account ∷ items) accounts h =
      elim (collect_more-some (collect_one cluster get_secret operator_namespace gw account)
        (collect_accounts cluster get_secret operator_namespace gw items) accounts h) [
          | inl (none_here, rest) ↦
              All-map (λ a m. inr m) accounts (collect_accounts-IsGranted items accounts rest)
          | inr (a, more, one, rest, e) ↦ subst (All _) (sym e) (
            inl (collect_one-Served account a one),
            All-map (λ b m. inr m) more (collect_accounts-IsGranted items more rest),
          )
        ]
