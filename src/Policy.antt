-- ===== src/Policy.antt =====
-- internal/gateway/policy.go: what an account may send from, and have signed.
pub mod Grants
pub mod Signing
pub mod Narrowing
pub mod Whole
pub mod Split
pub mod Brackets
mod Tests
use mailout_operator.Base.{
  Bool, true, false, not, ◌&&◌, ◌||◌, List, [], ◌∷◌, ◌++◌, Option, none, some, if◌then◌else◌,
  is_empty, keep,
}
use mailout_operator.Text.{
  Bytes, codes, same, has, add, sort, to_lower, trim_space, cut, after_last, contains,
}

-- The two maps of a `senderPolicy`, each key held once.
pub record SenderPolicy : Type 0 where
  pub addresses : List Bytes
  pub domains : List Bytes

abbrev pub no_policy : SenderPolicy
no_policy = record { addresses = []; domains = [] }

-- `strings.ToLower(strings.TrimSpace(entry))`
abbrev pub normalize : Bytes → Bytes
normalize entry = to_lower (trim_space entry)

abbrev pub star : Bytes
star = codes "*"

-- One round of the loop, on the entry cut at its first at sign.
unfoldable pub add_cut : SenderPolicy → Bytes → Option (Bytes × Bytes) → SenderPolicy
add_cut p entry none = p
add_cut p entry (some (local, domain)) =
    if is_empty domain || is_empty local
    then p
    else if same local star
    then record p { domains = add domain p.domains }
    else record p { addresses = add entry p.addresses }

unfoldable pub add_entry : SenderPolicy → Bytes → SenderPolicy
unfolding add_cut
add_entry p entry = let e = normalize entry in add_cut p e (cut b'@' e)

unfoldable pub add_entries : SenderPolicy → List Bytes → SenderPolicy
unfolding add_entry
add_entries p [] = p
add_entries p (entry ∷ rest) = add_entries (add_entry p entry) rest

unfoldable pub new_sender_policy : List Bytes → SenderPolicy
unfolding add_entries
new_sender_policy allowed_senders = add_entries no_policy allowed_senders

pub empty : SenderPolicy → Bool
empty p = is_empty p.addresses && is_empty p.domains

-- What stands between the last `<` and the first `>` behind it, where both are there.
unfoldable pub inside_brackets : Bytes → Bytes
inside_brackets addr = elim (after_last b'<' addr) [
  | none ↦ addr
  | some rest ↦ elim (cut b'>' rest) [ none ↦ addr | some (inner, after) ↦ inner ]
]

unfoldable pub bare_address : Bytes → Bytes
unfolding inside_brackets
bare_address address =
    let addr = trim_space (inside_brackets (trim_space address)) in
    if contains b'@' addr then addr else []

-- The lookup in `domains` behind the first at sign.
unfoldable pub allows_domain : SenderPolicy → Option (Bytes × Bytes) → Bool
allows_domain p none = false
allows_domain p (some (local, domain)) = has domain p.domains

unfoldable pub allows : SenderPolicy → Bytes → Bool
unfolding allows_domain
allows p address =
    let addr = to_lower (bare_address address) in
    if is_empty addr
    then false
    else if has addr p.addresses
    then true
    else allows_domain p (cut b'@' addr)

unfoldable pub is_domain_of : Bytes → Option (Bytes × Bytes) → Bool
is_domain_of domain none = false
is_domain_of domain (some (local, address_domain)) = same address_domain domain

-- The loop over the exact addresses.
unfoldable pub signs_address : Bytes → List Bytes → Bool
unfolding is_domain_of
signs_address domain [] = false
signs_address domain (address ∷ rest) =
    is_domain_of domain (cut b'@' address) || signs_address domain rest

unfoldable pub can_sign : SenderPolicy → Bytes → Bool
unfolding signs_address
can_sign p domain =
    let d = normalize domain in
    if is_empty d then false else if has d p.domains then true else signs_address d p.addresses

-- Is the cut entry left uncovered? The switch of `covers`.
unfoldable pub is_uncovered : SenderPolicy → Bytes → Option (Bytes × Bytes) → Bool
is_uncovered p normalized none = true
is_uncovered p normalized (some (local, domain)) =
    if is_empty domain || is_empty local
    then true
    else if same local star
    then not (has domain p.domains)
    else not (has domain p.domains) && not (has normalized p.addresses)

unfoldable pub uncovered : SenderPolicy → Bytes → Bool
unfolding is_uncovered
uncovered p entry = let e = normalize entry in is_uncovered p e (cut b'@' e)

-- The entries that the policy does not grant, in order.
unfoldable pub covers : SenderPolicy → List Bytes → List Bytes
unfolding uncovered
covers p requested = keep (uncovered p) requested

abbrev pub wildcards : List Bytes → List Bytes
wildcards [] = []
wildcards (domain ∷ rest) = (codes "*@" ++ domain) ∷ wildcards rest

-- What the policy grants, sorted, in the syntax it was compiled from.
unfoldable pub entries : SenderPolicy → List Bytes
entries p = sort (wildcards p.domains ++ p.addresses)

-- What an account asks for, split into the part its grant covers and the rest.
unfoldable pub granted_subset : List Bytes → List Bytes → List Bytes × List Bytes
unfolding new_sender_policy covers entries
granted_subset granted requested =
    let policy = new_sender_policy granted in
    if is_empty requested
    then (entries policy, [])
    else let refused = covers policy requested in
      (keep (λ entry. not (has entry refused)) requested, refused)
