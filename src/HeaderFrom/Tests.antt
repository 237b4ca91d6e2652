-- ===== src/HeaderFrom/Tests.antt =====
-- Runs of the check of the From header, and its theorem at a concrete input.
use mailout_operator.Base.{true, [], ◌∷◌, none, some, ◌≡◌, ◌↔◌, All}
use mailout_operator.Text.{Bytes, codes}
use mailout_operator.Message.{parse_message}
use mailout_operator.Message.Changes.{values}
use mailout_operator.Policy.{SenderPolicy, new_sender_policy, allows}
use mailout_operator.HeaderFrom.{clean_name, from_name, check_block}
use mailout_operator.HeaderFrom.Accepts.{check_block_accepts}

abbrev block : Bytes
block = codes "Subject: hello\r\nFROM: App <app@example.com>\r\n\r\n"

abbrev policy : SenderPolicy
policy = new_sender_policy (codes "*@example.com" ∷ [])

check_block_accepts_example : (check_block policy (some (block, true)) ≡ none) ↔ (
    (v : Bytes) × (true ≡ true)
    × All (λ h. clean_name h ≡ true) (parse_message block).headers
    × (values from_name (parse_message block).headers ≡ v ∷ [])
    × (allows policy v ≡ true))
check_block_accepts_example = check_block_accepts policy block true
