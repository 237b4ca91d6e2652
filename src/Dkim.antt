-- ===== src/Dkim.antt =====
-- internal/gateway/dkim.go: which key signs a message, if any. Reading a private key and the
-- signature itself are parameters.
pub mod Authority
mod Tests
use mailout_operator.Base.{
  ℕ, zero, suc, ◌+◌, ◌-◌, ◌*◌, ◌≤◌, ◌<◌, Bool, true, false, not, ◌&&◌, ◌||◌, List, [], ◌∷◌, ◌++◌,
  Option, none, some, ◌≡◌, ◌≢◌, ◌↔◌, ◌⊎◌, inl, inr, refl, sym, ap, subst, ◌∙◌, arith, ◌==◌, ltb,
  leb, if◌then◌else◌, Bool-cases, Option-cases, length, take, drop, is_empty, keep, All, Any,
  append-nil, append_assoc, length-append, some_of, some_of-or, some_of-Any, some_of-keep,
  some_of_mono, ==_iff,
}
use mailout_operator.Text.{Bytes, same, equal_fold, to_lower, trim_space, cut, codes}
use mailout_operator.Message.{HeaderField, parse_message}
use mailout_operator.Policy.{SenderPolicy, can_sign, inside_brackets}
use mailout_operator.Spool.{Spool, Os, SpoolError, sibling, copy, all_bytes, header_block}
use mailout_operator.Config.{DkimKey}
use mailout_operator.Envelope.{Envelope}

pub record LoadedKey (Signer : Type 0) : Type 0 where
  pub domain : Bytes
  pub selector : Bytes
  pub signer : Signer
  pub header_keys : List Bytes

pub data SignerError : Type 0 where
  fields_required private_key two_keys : SignerError

abbrev pub domain_part : Option (Bytes × Bytes) → Bytes
domain_part none = []
domain_part (some (local, domain)) = to_lower (trim_space domain)

-- `domainOf`
unfoldable pub domain_of : Bytes → Bytes
unfolding inside_brackets
domain_of address = domain_part (cut b'@' (inside_brackets address))

pub data SignResult (Signer : Type 0) : Type 0 where
  no_key not_allowed failed_to_sign : SignResult Signer
  signed : LoadedKey Signer → SignResult Signer

module _ {Signer : Type 0} where
  -- `byDomain[domain]`
  unfoldable pub key_at : Bytes → List (LoadedKey Signer) → Option (LoadedKey Signer)
  key_at domain [] = none
  key_at domain (k ∷ ks) = if same k.domain domain then some k else key_at domain ks

  abbrev pub loaded : DkimKey → Signer → LoadedKey Signer
  loaded k signer = record {
    domain = to_lower k.domain;
    selector = k.selector;
    signer = signer;
    header_keys = k.header_keys;
  }

  -- One round of the loop of `newDKIMSigner`, over how a key is loaded.
  unfoldable pub add_key :
      (DkimKey → Option Signer)
      → List (LoadedKey Signer)
      → DkimKey
      → List (LoadedKey Signer) ⊎ SignerError
  unfolding key_at
  add_key load ks k =
      if is_empty k.domain || is_empty k.selector then inr fields_required else elim (load k) [
        | none ↦ inr private_key
        | some signer ↦ elim (key_at (to_lower k.domain) ks) [
          | some dup ↦ inr two_keys
          | none ↦ inl (loaded k signer ∷ ks)
        ]
      ]

  unfoldable pub add_keys :
      (DkimKey → Option Signer)
      → List (LoadedKey Signer)
      → List DkimKey
      → List (LoadedKey Signer) ⊎ SignerError
  unfolding add_key
  add_keys load ks [] = inl ks
  add_keys load ks (k ∷ rest) = elim (add_key load ks k) [
    | inr e ↦ inr e
    | inl ks' ↦ add_keys load ks' rest
  ]

  unfoldable pub new_dkim_signer :
      (DkimKey → Option Signer) → List DkimKey → List (LoadedKey Signer) ⊎ SignerError
  unfolding add_keys
  new_dkim_signer load keys = add_keys load [] keys

  -- The key for the first From field.
  unfoldable pub key_for_from :
      List (LoadedKey Signer) → List HeaderField → Option (LoadedKey Signer)
  unfolding domain_of key_at
  key_for_from ks [] = none
  key_for_from ks (h ∷ hs) =
      if equal_fold h.name (codes "From") then key_at (domain_of h.value) ks else key_for_from ks hs

  abbrev pub key_in_block :
      List (LoadedKey Signer) → Option (Bytes × Bool) → Option (LoadedKey Signer)
  key_in_block ks none = none
  key_in_block ks (some (block, terminated)) = key_for_from ks (parse_message block).headers

  -- `keyFor`: by the envelope sender, then by the From header.
  unfoldable pub key_for : Os → List (LoadedKey Signer) → Envelope → Option (LoadedKey Signer)
  unfolding key_for_from
  key_for os ks msg = elim (key_at (domain_of msg.from) ks) [
    | some k ↦ some k
    | none ↦ key_in_block ks (header_block os msg.body).1
  ]

  abbrev pub finish_signing :
      Envelope → LoadedKey Signer → Spool × Option SpoolError → Envelope × SignResult Signer
  finish_signing msg k (out, none) = (record msg { body = out }, signed k)
  finish_signing msg k (out, some e) = (msg, failed_to_sign)

  -- `dkim.Sign` is a parameter: what it writes for a key and a message, or `none` for its error.
  module _ (dkim_sign : LoadedKey Signer → Bytes → Option (List Bytes)) where
    unfoldable pub sign_bytes :
        Os → Envelope → LoadedKey Signer → Option Bytes → Envelope × SignResult Signer
    sign_bytes os msg k none = (msg, failed_to_sign)
    sign_bytes os msg k (some source) = elim (dkim_sign k source) [
      | none ↦ (msg, failed_to_sign)
      | some written ↦ finish_signing msg k (copy os (sibling msg.body) written)
    ]

    unfoldable pub sign_with :
        Os → Os → Envelope → SenderPolicy → Option (LoadedKey Signer) → Envelope × SignResult Signer
    unfolding sign_bytes
    sign_with rd os msg policy none = (msg, no_key)
    sign_with rd os msg policy (some k) =
        if not (can_sign policy k.domain)
        then (msg, not_allowed)
        else sign_bytes os msg k (all_bytes rd msg.body).1

    unfoldable pub sign :
        Os → Os → List (LoadedKey Signer) → Envelope → SenderPolicy → Envelope × SignResult Signer
    unfolding sign_with
    sign rd os ks msg policy = sign_with rd os msg policy (key_for rd ks msg)
