-- ===== src/Webhook/Senders.antt =====
-- `validateAllowedSenders`: the entries that an account or a grant lists. An error carries the place of
-- its entry.
use mailout_operator.Base.{
  ℕ, suc, not, ◌&&◌, List, [], ◌∷◌, ◌++◌, Option, none, some, if◌then◌else◌, is_empty,
}
use mailout_operator.Text.{Bytes, codes, same, has, add, to_lower, trim_space, cut, contains}

pub data SenderError : Type 0 where
  sender_duplicate sender_without_at sender_without_local sender_without_domain : ℕ → SenderError
  sender_partial_wildcard sender_wildcard_domain : ℕ → SenderError

-- The switch on the two parts of an entry.
unfoldable pub sender_shape : ℕ → Option (Bytes × Bytes) → List SenderError
unfolding contains
sender_shape i none = sender_without_at i ∷ []
sender_shape i (some (local, domain)) =
    if is_empty local
    then sender_without_local i ∷ []
    else if is_empty domain
    then sender_without_domain i ∷ []
    else if contains b'*' local && not (same local (codes "*"))
    then sender_partial_wildcard i ∷ []
    else if contains b'*' domain
    then sender_wildcard_domain i ∷ []
    else []

unfoldable pub validate_allowed_senders : List Bytes → ℕ → List Bytes → List SenderError
unfolding sender_shape
validate_allowed_senders seen i [] = []
validate_allowed_senders seen i (entry ∷ entries) =
    let normalized = to_lower (trim_space entry) in
    (if has normalized seen then sender_duplicate i ∷ [] else [])
    ++ (sender_shape i (cut b'@' normalized)
        ++ validate_allowed_senders (add normalized seen) (suc i) entries)
