-- ===== src/Auth.antt =====
-- internal/gateway/auth.go: credentials, and the LOGIN mechanism. Comparing a password with a
-- bcrypt hash is a parameter.
pub mod Access
mod Tests
use mailout_operator.Base.{
  Bool, not, List, [], ◌∷◌, Option, none, some, ◌⊎◌, inl, inr, if◌then◌else◌, is_empty,
}
use mailout_operator.Text.{Bytes, codes, same}
use mailout_operator.Config.{Account}

-- `byUsername[username]`: of two accounts with one name the later one counts.
unfoldable pub by_username : Bytes → List Account → Option Account
by_username u [] = none
by_username u (a ∷ as') = elim (by_username u as') [
  | some b ↦ some b
  | none ↦ if same a.username u then some a else none
]

pub data AuthError : Type 0 where
  auth_failed account_disabled : AuthError

-- The argument `matches` says whether a password fits a hash.
unfoldable pub authenticate :
    (Bytes → Bytes → Bool) → List Account → Bytes → Bytes → Account ⊎ AuthError
unfolding by_username
authenticate matches accounts username password = elim (by_username username accounts) [
  | none ↦ inr auth_failed
  | some a ↦
      if not (matches a.password_hash password)
      then inr auth_failed
      else if a.disabled
      then inr account_disabled
      else inl a
]

abbrev pub unknown_account : Bytes
unknown_account = codes "<unknown>"

unfoldable pub label : List Account → Bytes → Bytes
unfolding by_username
label accounts username = elim (by_username username accounts) [
  | some a ↦ username
  | none ↦ unknown_account
]

pub data LoginState : Type 0 where
  initial waiting_username waiting_password finished : LoginState

pub record LoginServer : Type 0 where
  pub username : Bytes
  pub state : LoginState

pub data LoginReply : Type 0 where
  ask_username ask_password out_of_turn : LoginReply
  verify : Bytes → Bytes → LoginReply

-- `Next`: the challenge, or the credentials to verify.
unfoldable pub next_in : LoginState → LoginServer → Bytes → LoginServer × LoginReply
next_in initial s response =
    if not (is_empty response)
    then (record { username = response; state = waiting_password }, ask_password)
    else (record s { state = waiting_username }, ask_username)
next_in waiting_username s response =
    (record { username = response; state = waiting_password }, ask_password)
next_in waiting_password s response = (record s { state = finished }, verify s.username response)
next_in finished s response = (s, out_of_turn)

unfoldable pub next : LoginServer → Bytes → LoginServer × LoginReply
unfolding next_in
next s response = next_in s.state s response
