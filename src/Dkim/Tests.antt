-- ===== src/Dkim/Tests.antt =====
-- Runs of the signer, and its theorem at a concrete input.
use mailout_operator.Base.{true, List, [], ◌∷◌, Option, some, ◌≡◌, refl}
use mailout_operator.Text.{
  Bytes, codes, has, add, same, cut, to_lower, trim_space, contains, after_last,
}
use mailout_operator.Policy.{SenderPolicy, new_sender_policy, can_sign, inside_brackets}
use mailout_operator.Spool.{
  sound, fresh, copy, all_bytes, bytes_file, header_block, write, overflow, write_through,
  write_after, if_written,
}
use mailout_operator.Envelope.{Envelope}
use mailout_operator.Dkim.{LoadedKey, sign, sign_with, sign_bytes, key_for, key_at, domain_of}
use mailout_operator.Dkim.Authority.{SenderDomain, fields_of, sign_authorized}

abbrev key : LoadedKey Unit
key = record { domain = codes "example.com"; selector = codes "s1"; signer = tt; header_keys = [] }

abbrev letter : Envelope
letter = record {
  from = codes "a@Example.com";
  to = codes "b@example.net" ∷ [];
  body = (copy sound (fresh [] 100) (codes "From: a@example.com\r\n\r\nHi" ∷ [])).0;
  account = codes "shop";
}

abbrev policy : SenderPolicy
policy = new_sender_policy (codes "*@example.com" ∷ [])

abbrev dkim_sign : LoadedKey Unit → Bytes → Option (List Bytes)
dkim_sign k source = some (codes "DKIM-Signature: d=example.com\r\n" ∷ source ∷ [])

sign_authorized_example :
    SenderDomain letter (fields_of (header_block sound letter.body).1) (codes "example.com")
    × (can_sign policy (codes "example.com") ≡ true)
unfolding sign sign_with sign_bytes key_for key_at domain_of inside_brackets copy write overflow
    write_through write_after if_written all_bytes bytes_file new_sender_policy can_sign to_lower
    trim_space cut same contains after_last has add
sign_authorized_example = sign_authorized dkim_sign sound sound (key ∷ []) letter policy key refl
