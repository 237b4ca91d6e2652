-- ===== src/Policy/Tests.antt =====
-- Runs of the sender policy, and its theorems at concrete inputs.
use mailout_operator.Base.{true, List, [], ◌∷◌, ◌++◌, ◌≡◌, ◌↔◌, refl, All, Any}
use mathlib.Core.List.{Perm}
use mailout_operator.Text.{
  Bytes, codes, same, add, contains, to_lower, has, cut, after_last, trim_space,
}
use mailout_operator.Policy.{new_sender_policy, bare_address, allows, can_sign, granted_subset}
use mailout_operator.Policy.Grants.{Covers, allows_iff}
use mailout_operator.Policy.Brackets.{allows-brackets}
use mailout_operator.Policy.Narrowing.{allows-granted_subset}
use mailout_operator.Policy.Split.{Granted, granted_subset-splits}

abbrev grant : List Bytes
grant = codes "*@Example.com" ∷ codes " app@other.test" ∷ []

abbrev wish : List Bytes
wish = codes "news@example.com" ∷ codes "*@other.test" ∷ codes "broken" ∷ []

granted_subset-wish :
    granted_subset grant wish
    ≡ (codes "news@example.com" ∷ [], codes "*@other.test" ∷ codes "broken" ∷ [])
unfolding granted_subset to_lower trim_space cut has same add
granted_subset-wish = refl

allows-wish :
    allows (new_sender_policy (granted_subset grant wish).0) (codes "News <news@EXAMPLE.com>")
    ≡ true
unfolding granted_subset new_sender_policy allows bare_address to_lower trim_space cut has same add
    contains after_last
allows-wish = refl

can_sign-wish :
    can_sign (new_sender_policy (granted_subset grant wish).0) (codes "example.com") ≡ true
unfolding granted_subset new_sender_policy can_sign to_lower trim_space cut has same add
can_sign-wish = refl

allows-granted_subset_example :
    allows (new_sender_policy grant) (codes "News <news@EXAMPLE.com>") ≡ true
allows-granted_subset_example =
    allows-granted_subset grant wish (codes "News <news@EXAMPLE.com>") allows-wish

allows-iff_example :
    (allows (new_sender_policy grant) (codes "a@example.com") ≡ true)
    ↔ Any (Covers (to_lower (bare_address (codes "a@example.com")))) grant
allows-iff_example = allows_iff grant (codes "a@example.com")

granted_subset-splits_example :
    Perm ((granted_subset grant wish).0 ++ (granted_subset grant wish).1) wish
    × All (Granted grant) (granted_subset grant wish).0
    × All (λ e. ¬ Granted grant e) (granted_subset grant wish).1
granted_subset-splits_example = granted_subset-splits grant wish (λ e. cc)

allows-brackets_example :
    allows
      (new_sender_policy grant)
      (codes "victim@bank.test, " ++ b'<' ∷ (codes "app@other.test" ++ b'>' ∷ []))
    ≡ allows (new_sender_policy grant) (codes "app@other.test")
unfolding contains
allows-brackets_example =
    allows-brackets (new_sender_policy grant) (codes "victim@bank.test, ") (codes "app@other.test")
      [] refl refl refl
