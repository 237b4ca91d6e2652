-- ===== src/Dkim/Authority.antt =====
-- A key signs only what the sender policy of the account lets it sign.
use mailout_operator.Base.{
  Bool, true, List, [], ◌∷◌, Option, none, some, ◌≡◌, ◌⊎◌, inl, inr, ap, subst, arith, Bool-cases,
  Option-cases, Any,
}
use mailout_operator.Text.{Bytes, same, same_iff, equal_fold, codes}
use mailout_operator.Message.{HeaderField, parse_message}
use mailout_operator.Policy.{SenderPolicy, can_sign}
use mailout_operator.Spool.{Spool, Os, SpoolError, all_bytes, header_block}
use mailout_operator.Envelope.{Envelope}
use mailout_operator.Dkim.{
  LoadedKey, domain_of, key_at, key_for_from, key_in_block, key_for, signed, finish_signing,
  sign_bytes, sign_with, sign,
}

-- The domain is that of the envelope sender or of the value of a From field.
abbrev pub SenderDomain : Envelope → List HeaderField → Bytes → Type 0
SenderDomain msg hs d =
    (d ≡ domain_of msg.from)
    ⊎ Any (λ h. (equal_fold h.name (codes "From") ≡ true) × (d ≡ domain_of h.value)) hs

abbrev pub fields_of : Option (Bytes × Bool) → List HeaderField
fields_of none = []
fields_of (some (block, terminated)) = (parse_message block).headers

module _ {Signer : Type 0} where
  key_at-domain :
      (d : Bytes) (ks : List (LoadedKey Signer)) (k : LoadedKey Signer)
      → key_at d ks ≡ some k
      → k.domain ≡ d
  unfolding key_at
  key_at-domain d [] k e = absurd (ground arith)
  key_at-domain d (x ∷ ks) k e = elim (Bool-cases (same x.domain d)) [
    | inl y ↦
        let same_key : x ≡ k = ground arith in
        subst (λ z. z.domain ≡ d) same_key ((same_iff x.domain d).0 y)
    | inr n ↦ key_at-domain d ks k (ground arith)
  ]

  key_for_from-domain :
      (ks : List (LoadedKey Signer)) (hs : List HeaderField) (k : LoadedKey Signer)
      → key_for_from ks hs ≡ some k
      → Any (λ h. (equal_fold h.name (codes "From") ≡ true) × (k.domain ≡ domain_of h.value)) hs
  unfolding key_for_from
  key_for_from-domain ks [] k e = absurd (ground arith)
  key_for_from-domain ks (h ∷ hs) k e = elim (Bool-cases (equal_fold h.name (codes "From"))) [
    | inl y ↦ inl (y, key_at-domain (domain_of h.value) ks k (ground arith))
    | inr n ↦ inr (key_for_from-domain ks hs k (ground arith))
  ]

  key_in_block-domain :
      (ks : List (LoadedKey Signer)) (block : Option (Bytes × Bool)) (k : LoadedKey Signer)
      → key_in_block ks block ≡ some k
      → Any
          (λ h. (equal_fold h.name (codes "From") ≡ true) × (k.domain ≡ domain_of h.value))
          (fields_of block)
  key_in_block-domain ks none k e = absurd (ground arith)
  key_in_block-domain ks (some (block, t)) k e =
      key_for_from-domain ks (parse_message block).headers k e

  key_for-SenderDomain :
      (os : Os) (ks : List (LoadedKey Signer)) (msg : Envelope) (k : LoadedKey Signer)
      → key_for os ks msg ≡ some k
      → SenderDomain msg (fields_of (header_block os msg.body).1) k.domain
  unfolding key_for
  key_for-SenderDomain os ks msg k e = elim (Option-cases (key_at (domain_of msg.from) ks)) [
    | inl n ↦ inr (key_in_block-domain ks (header_block os msg.body).1 k (ground arith))
    | inr (j, y) ↦
        let same_key : j ≡ k = ground arith in
        inl (
          subst (λ z. z.domain ≡ domain_of msg.from) same_key
            (key_at-domain (domain_of msg.from) ks j y))
  ]

  module _ (dkim_sign : LoadedKey Signer → Bytes → Option (List Bytes)) where
    finish_signing-signed :
        (msg : Envelope) (j k : LoadedKey Signer) (r : Spool × Option SpoolError)
        → (finish_signing msg j r).1 ≡ signed k
        → j ≡ k
    finish_signing-signed msg j k (out, some e) h = absurd (ground arith)
    finish_signing-signed msg j k (out, none) h = ground arith

    sign_bytes-signed :
        (os : Os) (msg : Envelope) (j k : LoadedKey Signer) (source : Option Bytes)
        → (sign_bytes dkim_sign os msg j source).1 ≡ signed k
        → j ≡ k
    unfolding sign_bytes
    sign_bytes-signed os msg j k none h = absurd (ground arith)
    sign_bytes-signed os msg j k (some source) h = elim (Option-cases (dkim_sign j source)) [
      | inl n ↦ absurd (ground arith)
      | inr (w, n) ↦ finish_signing-signed msg j k _ (rw (n, sign_bytes) at h)
    ]

    sign_with-signed :
        (rd os : Os) (msg : Envelope) (policy : SenderPolicy) (key : Option (LoadedKey Signer))
        (k : LoadedKey Signer)
        → (sign_with dkim_sign rd os msg policy key).1 ≡ signed k
        → (key ≡ some k) × (can_sign policy k.domain ≡ true)
    unfolding sign_with
    sign_with-signed rd os msg policy none k h = absurd (ground arith)
    sign_with-signed rd os msg policy (some j) k h = elim (Bool-cases (can_sign policy j.domain)) [
      | inl y ↦
          let same_key =
            sign_bytes-signed os msg j k (all_bytes rd msg.body).1 (rw (y, sign_with) at h) in
          (ap some same_key, subst (λ z. can_sign policy z.domain ≡ true) same_key y)
      | inr n ↦ absurd (ground arith)
    ]

    -- A message is signed only with a key for the domain of its envelope sender or of a From field,
    -- and only if the sender policy of the account lets it sign for that domain.
    pub sign_authorized :
        (rd os : Os) (ks : List (LoadedKey Signer)) (msg : Envelope) (policy : SenderPolicy)
        (k : LoadedKey Signer)
        → (sign dkim_sign rd os ks msg policy).1 ≡ signed k
        → SenderDomain msg (fields_of (header_block rd msg.body).1) k.domain
          × (can_sign policy k.domain ≡ true)
    unfolding sign
    sign_authorized rd os ks msg policy k h =
        let (key, allowed) = sign_with-signed rd os msg policy (key_for rd ks msg) k h in
        (key_for-SenderDomain rd ks msg k key, allowed)
