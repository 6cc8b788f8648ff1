-- ===== src/Common/Authentication.antt =====
-- `TextFileAuthenticator` of src/authentication_textfile.cpp. `m_creds` is an association list, and
-- its initial contents are an argument.
pub mod Login
use smerp.Base.{ℕ, Bool, true, false, List, [], ◌∷◌, Option, none, some, if◌then◌else◌, codes, same}

pub data State : Type 0 where
  need_login need_pass compute : State

pub data AuthStep : Type 0 where
  succeed fail send_data recv_data : AuthStep

pub record TextFileAuthenticator : Type 0 where
  pub state : State
  pub creds : List (List ℕ × List ℕ)
  pub token : List ℕ
  pub login : List ℕ
  pub pass : List ℕ

abbrev pub new_authenticator : List (List ℕ × List ℕ) → TextFileAuthenticator
new_authenticator creds = record {
  state = need_login;
  creds = creds;
  token = [];
  login = [];
  pass = [];
}

-- `std::map::find`
abbrev pub find : List (List ℕ × List ℕ) → List ℕ → Option (List ℕ)
find [] login = none
find ((user, pass) ∷ rest) login = if same user login then some pass else find rest login

abbrev pub check : Option (List ℕ) → List ℕ → AuthStep
check none pass = fail
check (some expected) pass = if same expected pass then succeed else fail

unfoldable pub next_step : TextFileAuthenticator → AuthStep × TextFileAuthenticator
next_step a = elim a.state [
  | need_login ↦ (recv_data, record a { token = codes "login" })
  | need_pass ↦ (recv_data, record a { token = codes "password" })
  | compute ↦ (check (find a.creds a.login) a.pass, record a { state = need_login })
]

-- `none` for the exception.
unfoldable pub receive_data : TextFileAuthenticator → List ℕ → Option TextFileAuthenticator
receive_data a data_ = elim a.state [
  | need_login ↦ some (record a { login = data_; state = need_pass })
  | need_pass ↦ some (record a { pass = data_; state = compute })
  | compute ↦ none
]

-- A client that logs in: it answers the two requests, and asks for the verdict.
unfoldable pub attempt :
    TextFileAuthenticator → List ℕ → List ℕ → Option (AuthStep × TextFileAuthenticator)
attempt a user password = elim (receive_data (next_step a).1 user) [
  | none ↦ none
  | some b ↦ elim (receive_data (next_step b).1 password) [
    | none ↦ none
    | some c ↦ some (next_step c)
  ]
]

-- The verdicts of one attempt after another with the same authenticator.
unfoldable pub attempts :
    TextFileAuthenticator → List (List ℕ × List ℕ) → Option (List AuthStep × TextFileAuthenticator)
attempts a [] = some ([], a)
attempts a ((user, password) ∷ rest) = elim (attempt a user password) [
  | none ↦ none
  | some (verdict, b) ↦ elim (attempts b rest) [
    | none ↦ none
    | some (verdicts, c) ↦ some (verdict ∷ verdicts, c)
  ]
]
