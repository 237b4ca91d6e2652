-- ===== src/Config/Usable.antt =====
-- `ValidUsername` and the cost of a hash, described without the tests of the code.
use mailout_operator.Base.{
  ℕ, ◌≤◌, ◌<◌, true, [], ◌∷◌, Option, some, ◌≡◌, ◌≢◌, ◌↔◌, refl, arith, Option-cases, length, All,
  inl, inr,
}
use mailout_operator.Text.{Bytes}
use mailout_operator.Config.{
  valid_username, all_safe, safe_byte, usable_hash, max_username_length, min_bcrypt_cost,
  max_bcrypt_cost,
}

-- Printable ASCII, no space, and none of colon, semicolon, comma, quote and backslash.
abbrev pub IsSafeByte : ℕ → Type 0
IsSafeByte b =
    (b' ' < b) × (b ≤ b'~') × (b ≢ b':') × (b ≢ b';') × (b ≢ b',') × (b ≢ b'"') × (b ≢ 92)

abbrev pub IsSafeName : Bytes → Type 0
IsSafeName u = (u ≢ []) × (length u ≤ max_username_length) × All IsSafeByte u

safe_byte_iff : (b : ℕ) → (safe_byte b ≡ true) ↔ IsSafeByte b
unfolding safe_byte
safe_byte_iff b = (
  λ h. (
    ground arith,
    ground arith,
    λ e. ground arith,
    λ e. ground arith,
    λ e. ground arith,
    λ e. ground arith,
    λ e. ground arith,
  ),
  λ (low, high, colon, semicolon, comma, quote, backslash). ground arith,
)

all_safe_iff : (u : Bytes) → (all_safe u ≡ true) ↔ All IsSafeByte u
unfolding all_safe
all_safe_iff [] = (λ h. tt, λ a. refl)
all_safe_iff (b ∷ u) =
    let ih = all_safe_iff u in
    let here = safe_byte_iff b in
    (λ h. (here.0 (ground arith), ih.0 (ground arith)), λ a. ground (arith, here.1 a.0, ih.1 a.1))

pub valid_username_iff : (u : Bytes) → (valid_username u ≡ true) ↔ IsSafeName u
unfolding valid_username
valid_username_iff u = (
  λ h. (λ e. ground arith, ground arith, (all_safe_iff u).0 (ground arith)),
  λ (given, short, safe). ground (arith, (all_safe_iff u).1 safe),
)

module _ (cost : Bytes → Option ℕ) where
  -- The hash has a cost, within the bounds.
  abbrev pub IsUsable : Bytes → Type 0
  IsUsable hash = (c : ℕ) × (cost hash ≡ some c) × (min_bcrypt_cost ≤ c) × (c ≤ max_bcrypt_cost)

  pub usable_hash_iff : (hash : Bytes) → (usable_hash cost hash ≡ true) ↔ IsUsable hash
  unfolding usable_hash
  usable_hash_iff hash = (
    λ h. elim (Option-cases (cost hash)) [
      | inl n ↦ absurd (ground arith)
      | inr (c, e) ↦ (c, e, ground arith, ground arith)
    ],
    λ (c, e, low, high). ground arith,
  )
