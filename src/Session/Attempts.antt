-- ===== src/Session/Attempts.antt =====
-- How many wrong passwords one connection may try.
use mailout_operator.Base.{
  ℕ, ◌+◌, ◌-◌, ◌≤◌, Bool, false, List, [], ◌∷◌, Option, none, some, ◌≡◌, ◌⊎◌, inl, inr, arith, leb,
  Bool-cases,
}
use mailout_operator.Text.{Bytes}
use mailout_operator.Config.{Account}
use mailout_operator.Auth.{authenticate, AuthError}
use mailout_operator.Session.{
  Session, Refusal, auth_refused, auth_required, smtp, max_auth_failures, verified,
  session_authenticate,
}

-- A row of AUTH commands on one connection: whether the semaphore was acquired, the user name and the
-- password.
abbrev pub Attempt : Type 0
Attempt = Bool × (Bytes × Bytes)

-- One, if a password was verified and the credentials were refused.
unfoldable pub wrong : (Session × Option Refusal) × ℕ → ℕ
wrong ((s, some auth_refused), n) = n
wrong ((s, some auth_required), n) = 0
wrong ((s, some (smtp e)), n) = 0
wrong ((s, none), n) = 0

unfoldable pub attempts : (Bytes → Bytes → Bool) → Session → List Attempt → Session × ℕ
unfolding wrong session_authenticate
attempts matches s [] = (s, 0)
attempts matches s ((slot, (username, password)) ∷ rest) =
    let r = session_authenticate matches slot s username password in
    let (t, n) = attempts matches r.0.0 rest in (t, wrong r + n)

attempt-wrong :
    (matches : Bytes → Bytes → Bool) (slot : Bool) (s : Session) (username password : Bytes)
    → (wrong (session_authenticate matches slot s username password) + s.auth_failures
        ≡ (session_authenticate matches slot s username password).0.0.auth_failures)
      × (wrong (session_authenticate matches slot s username password)
          ≤ max_auth_failures - s.auth_failures)
unfolding wrong session_authenticate verified
attempt-wrong matches slot s username password =
    elim (Bool-cases (leb max_auth_failures s.auth_failures)) [
      | inl y ↦ rw (y, session_authenticate, wrong) (omega arith, omega arith)
      | inr n ↦ elim (Bool-cases slot) [
        | inr no' ↦ rw (n, no', session_authenticate, wrong) (omega arith, omega arith)
        | inl y ↦
            rw (n, y, session_authenticate)
              (go (authenticate matches s.snap.accounts username password) n)
      ]
    ]
  where
    go :
        (r : Account ⊎ AuthError)
        → leb max_auth_failures s.auth_failures ≡ false
        → (wrong (verified s r, 1) + s.auth_failures ≡ (verified s r).0.auth_failures)
          × (wrong (verified s r, 1) ≤ max_auth_failures - s.auth_failures)
    go (inl a) n = (omega arith, omega arith)
    go (inr e) n = (omega arith, ground arith)

-- However many AUTH commands a connection sends, at most as many wrong passwords are verified as
-- were left of the three when they began.
pub attempts-wrong :
    (matches : Bytes → Bytes → Bool) (s : Session) (rest : List Attempt)
    → (attempts matches s rest).1 ≤ max_auth_failures - s.auth_failures
unfolding attempts
attempts-wrong matches s [] = omega arith
attempts-wrong matches s ((slot, (username, password)) ∷ rest) =
    let r = session_authenticate matches slot s username password in
    let (counted, bound) = attempt-wrong matches slot s username password in
    let ih = attempts-wrong matches r.0.0 rest in omega arith
