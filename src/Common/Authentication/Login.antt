-- ===== src/Common/Authentication/Login.antt =====
-- What a `TextFileAuthenticator` grants.
use smerp.Base.{
  ℕ, ◌≡◌, refl, ap, ◌∙◌, Bool, false, List, [], ◌∷◌, Option, none, some, map, codes, same, inl, inr,
  Bool-cases, if◌then◌else◌,
}
use smerp.Common.Authentication.{
  need_login, AuthStep, succeed, fail, TextFileAuthenticator, find, check, next_step, receive_data,
  attempt, attempts,
}

-- Whether the first entry for the user has just that password.
abbrev pub grants : List (List ℕ × List ℕ) → List ℕ → List ℕ → Bool
grants [] user password = false
grants ((name, pass) ∷ rest) user password =
    if same name user then same pass password else grants rest user password

abbrev pub verdict_of : List (List ℕ × List ℕ) → List ℕ × List ℕ → AuthStep
verdict_of creds (user, password) = if grants creds user password then succeed else fail

check-find :
    (creds : List (List ℕ × List ℕ)) (user password : List ℕ)
    → check (find creds user) password ≡ verdict_of creds (user, password)
check-find [] user password = refl
check-find ((name, pass) ∷ rest) user password = elim (Bool-cases (same name user)) [
  | inl here ↦ rw here refl
  | inr away ↦ rw away (check-find rest user password)
]

-- An attempt at a waiting authenticator.
attempt-lem :
    (creds : List (List ℕ × List ℕ)) (token login pass user password : List ℕ)
    → attempt
        (record { state = need_login; creds = creds; token = token; login = login; pass = pass })
        user
        password
      ≡ some (
        verdict_of creds (user, password),
        record {
          state = need_login;
          creds = creds;
          token = codes "password";
          login = user;
          pass = password;
        },
      )
unfolding attempt next_step receive_data
attempt-lem creds token login pass user password =
    let last : TextFileAuthenticator = record {
      state = need_login;
      creds = creds;
      token = codes "password";
      login = user;
      pass = password;
    } in
    ap (λ x. some (x, last)) (check-find creds user password)

-- The verdicts that are given and the state that is left.
pub record Answers (creds : List (List ℕ × List ℕ)) (verdicts : List AuthStep)
    (result : Option (List AuthStep × TextFileAuthenticator)) : Type 0 where
  pub last : TextFileAuthenticator
  pub returns : result ≡ some (verdicts, last)
  pub waits : last.state ≡ need_login
  pub keeps : last.creds ≡ creds

-- A waiting authenticator never throws in a sequence of attempts. Each attempt succeeds if the first
-- entry for its user in the credentials has just its password, and fails if not, whatever was tried
-- before; and the authenticator waits for a login again, with the same credentials.
pub attempts-verdicts :
    (a : TextFileAuthenticator) (tried : List (List ℕ × List ℕ))
    → a.state ≡ need_login
    → Answers a.creds (map (verdict_of a.creds) tried) (attempts a tried)
unfolding attempts
attempts-verdicts a [] e = record { last = a; returns = refl; waits = e; keeps = refl }
attempts-verdicts a ((user, password) ∷ rest) e =
    let b : TextFileAuthenticator = record {
      state = need_login;
      creds = a.creds;
      token = codes "password";
      login = user;
      pass = password;
    } in
    let r = attempts-verdicts b rest refl in
    let here =
      ap (λ st. attempt (record a { state = st }) user password) e
      ∙ attempt-lem a.creds a.token a.login a.pass user password in
    record {
      last = r.last;
      returns =
          ap
            (λ x. elim x [
              | none ↦ none
              | some (verdict, b) ↦ elim (attempts b rest) [
                | none ↦ none
                | some (verdicts, c) ↦ some (verdict ∷ verdicts, c)
              ]
            ])
            here
          ∙ ap
              (λ x. elim x [
                | none ↦ none
                | some (verdicts, c) ↦ some (verdict_of a.creds (user, password) ∷ verdicts, c)
              ])
              r.returns;
      waits = r.waits;
      keeps = r.keeps;
    }
