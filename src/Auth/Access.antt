-- ===== src/Auth/Access.antt =====
-- Who is let in, and what the LOGIN mechanism verifies.
use mailout_operator.Base.{
  ℕ, Bool, true, false, List, [], ◌∷◌, none, some, ◌≡◌, ◌≢◌, ◌↔◌, inl, inr, refl, ap, subst, ◌∙◌,
  arith, Bool-cases, Option-cases, All,
}
use mailout_operator.Text.{Bytes, same, same_iff}
use mailout_operator.Config.{Account}
use mailout_operator.Auth.{
  by_username, authenticate, initial, waiting_username, finished, LoginServer, LoginReply,
  ask_username, ask_password, out_of_turn, verify, next, next_in,
}

-- The last account of that name.
pub data IsNamed (u : Bytes) (a : Account) : List Account → Type 0 where
  here :
      {as' : List Account} → a.username ≡ u → All (λ b. b.username ≢ u) as' → IsNamed u a (a ∷ as')
  later : {b : Account} {as' : List Account} → IsNamed u a as' → IsNamed u a (b ∷ as')

by_username-none :
    (u : Bytes) (as' : List Account) → by_username u as' ≡ none → All (λ b. b.username ≢ u) as'
unfolding by_username
by_username-none u [] e = tt
by_username-none u (a ∷ as') e = elim (Option-cases (by_username u as')) [
  | inl n ↦ (λ q. ground (arith, (same_iff a.username u).1 q), by_username-none u as' n)
  | inr (b, n) ↦ absurd (ground arith)
]

by_username-IsNamed :
    (u : Bytes) (as' : List Account) (a : Account) → by_username u as' ≡ some a → IsNamed u a as'
unfolding by_username
by_username-IsNamed u [] a e = absurd (ground arith)
by_username-IsNamed u (b ∷ as') a e = elim (Option-cases (by_username u as')) [
  | inr (c, n) ↦
      let same_account : c ≡ a = ground arith in
      later (by_username-IsNamed u as' a (n ∙ ap some same_account))
  | inl n ↦ elim (Bool-cases (same b.username u)) [
    | inl y ↦
        let same_account : b ≡ a = ground arith in
        subst (λ z. IsNamed u z (b ∷ as')) same_account
          (here ((same_iff b.username u).0 y) (by_username-none u as' n))
    | inr no' ↦ absurd (ground arith)
  ]
]

none-by_username :
    (u : Bytes) (as' : List Account) → All (λ b. b.username ≢ u) as' → by_username u as' ≡ none
unfolding by_username
none-by_username u [] h = refl
none-by_username u (a ∷ as') h = elim (Bool-cases (same a.username u)) [
  | inl y ↦ absurd (h.0 ((same_iff a.username u).0 y))
  | inr n ↦ ground (arith, none-by_username u as' h.1)
]

IsNamed-by_username :
    {u : Bytes} {a : Account} {as' : List Account} → IsNamed u a as' → by_username u as' ≡ some a
unfolding by_username
IsNamed-by_username (here {as'} e h) = ground (arith, none-by_username _ as' h, (same_iff _ _).1 e)
IsNamed-by_username (later p) = ground (arith, IsNamed-by_username p)

-- Credentials are accepted, for an account, exactly if it is the last of that user name, its hash
-- fits the password and it is not disabled.
pub authenticate_iff :
    (matches : Bytes → Bytes → Bool) (accounts : List Account) (u password : Bytes) (a : Account)
    → (authenticate matches accounts u password ≡ inl a)
      ↔ (IsNamed u a accounts × (matches a.password_hash password ≡ true) × (a.disabled ≡ false))
unfolding authenticate
authenticate_iff matches accounts u password a = (
  λ h. elim (Option-cases (by_username u accounts)) [
    | inl n ↦ absurd (ground arith)
    | inr (b, n) ↦ elim (Bool-cases (matches b.password_hash password)) [
      | inr no' ↦ absurd (ground arith)
      | inl y ↦ elim (Bool-cases b.disabled) [
        | inl d ↦ absurd (ground arith)
        | inr d ↦
            let same_account : b ≡ a = ground arith in
            subst
              (λ z.
                IsNamed u z accounts
                × (matches z.password_hash password ≡ true)
                × (z.disabled ≡ false))
              same_account (by_username-IsNamed u accounts b n, y, d)
      ]
    ]
  ],
  λ (named, y, d). ground (arith, IsNamed-by_username named),
)

-- The credentials that a row of responses makes the mechanism verify.
unfoldable pub verified_by : LoginReply → List (Bytes × Bytes) → List (Bytes × Bytes)
verified_by (verify u p) rest = (u, p) ∷ rest
verified_by ask_username rest = rest
verified_by ask_password rest = rest
verified_by out_of_turn rest = rest

unfoldable pub login : LoginServer → List Bytes → List (Bytes × Bytes)
unfolding next next_in verified_by
login s [] = []
login s (r ∷ rs) = let (t, reply) = next s r in verified_by reply (login t rs)

-- The first two responses.
abbrev pub credentials : List Bytes → List (Bytes × Bytes)
credentials [] = []
credentials (u ∷ []) = []
credentials (u ∷ p ∷ rest) = (u, p) ∷ []

login-finished :
    (u : Bytes) (rs : List Bytes) → login (record { username = u; state = finished }) rs ≡ []
unfolding login
login-finished u [] = refl
login-finished u (r ∷ rs) = login-finished u rs

login-waiting :
    (u : Bytes) (rs : List Bytes)
    → login (record { username = u; state = waiting_username }) rs ≡ credentials rs
unfolding login
login-waiting u [] = refl
login-waiting u (r ∷ []) = refl
login-waiting u (r ∷ p ∷ rs) = ap (◌∷◌ (r, p)) (login-finished r rs)

-- Whatever a client answers, a LOGIN exchange verifies at most one pair of credentials: the first two
-- responses, not counting an initial one that is empty.
pub login-credentials :
    (rs : List Bytes)
    → (login (record { username = []; state = initial }) ([] ∷ rs) ≡ credentials rs)
      × ((c : ℕ) (u : Bytes)
          → login (record { username = []; state = initial }) ((c ∷ u) ∷ rs)
            ≡ credentials ((c ∷ u) ∷ rs))
unfolding login
login-credentials rs = (login-waiting [] rs, first rs)
  where
    first :
        (rs : List Bytes) (c : ℕ) (u : Bytes)
        → login (record { username = []; state = initial }) ((c ∷ u) ∷ rs)
          ≡ credentials ((c ∷ u) ∷ rs)
    first [] c u = refl
    first (p ∷ rs) c u = ap (◌∷◌ (c ∷ u, p)) (login-finished (c ∷ u) rs)
