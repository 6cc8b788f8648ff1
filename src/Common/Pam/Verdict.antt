-- ===== src/Common/Pam/Verdict.antt =====
-- What a `PAMAuthenticator` grants.
use smerp.Base.{
  ℕ, ◌≡◌, refl, sym, ap, subst, ◌⊎◌, inl, inr, Bool, true, false, ◌&&◌, List, Option, none, some,
  ◌==◌, if◌then◌else◌, Bool-cases,
}
use smerp.Common.Authentication.{AuthStep, succeed, fail, send_data, recv_data}
use smerp.Common.Pam
use smerp.Common.Pam.{
  State, need_login, has_login, need_pass, has_pass, error, pam_success, pam_incomplete, Message,
  Conv, PamAuthenticator, pam_conv_func, failed, finish, manage_account, authenticate,
  start_session, next_step, receive_data,
}

module _ (pam : Pam.Pam) where
  open pam use {Handle}

  -- The client reads the text of a failure, and asks for the verdict behind it.
  abbrev behind_text :
      Option AuthStep × PamAuthenticator pam → Option AuthStep × PamAuthenticator pam
  behind_text (some send_data, a) = next_step pam a
  behind_text (r, a) = (r, a)

  abbrev with_password :
      List ℕ → Option AuthStep × PamAuthenticator pam → Option AuthStep × PamAuthenticator pam
  with_password password (some recv_data, a) = elim (receive_data pam a password) [
    | none ↦ (none, a)
    | some b ↦ behind_text (next_step pam b)
  ]
  with_password password (r, a) = behind_text (r, a)

  -- A client that logs in: it answers the request for the login and, if there is one, that for the
  -- password; `none` for an exception.
  abbrev pub attempt :
      PamAuthenticator pam → List ℕ → List ℕ → Option AuthStep × PamAuthenticator pam
  attempt a user password = elim (receive_data pam (next_step pam a).1 user) [
    | none ↦ (none, a)
    | some b ↦ with_password password (next_step pam b)
  ]

  -- What the library is asked behind the two calls that may ask for a password.
  abbrev accepted : Option Handle → Option AuthStep
  accepted h =
      if pam.acct_mgmt h == pam_success
      then (if pam.end_session h pam_success == pam_success then some succeed else none)
      else some fail

  abbrev checked : Option Handle → ℕ → Option AuthStep
  checked h rc = if rc == pam_success then accepted h else some fail

  -- What the library says of a user and a password: the password is asked for only if the library
  -- cannot decide without it.
  abbrev pub verdict : List ℕ → List ℕ → List ℕ → List ℕ → Option AuthStep
  verdict service user password before =
      let (rc, h) = pam.start service user in
      let without =
        pam.authenticate h
          (pam_conv_func pam (record { login = user; given = false; pass = before; handle = h })) in
      let with_it =
        pam.authenticate h (
          pam_conv_func pam (record { login = user; given = true; pass = password; handle = h })) in
      if rc == pam_success
      then (if without == pam_incomplete then checked h with_it else checked h without)
      else none

  -- Behind a verdict the authenticator waits for a login, and after a refusal without a password;
  -- behind an exception it still has the login or the password that it was given.
  abbrev Waits : Option AuthStep × PamAuthenticator pam → Type 0
  Waits (some succeed, a) = a.state ≡ need_login
  Waits (some fail, a) = (a.state ≡ need_login) × (a.appdata.given ≡ false)
  Waits (none, a) = (a.state ≡ has_login) ⊎ (a.state ≡ has_pass)
  Waits (r, a) = ⊥

  abbrev HasInput : PamAuthenticator pam → Type 0
  HasInput a = (a.state ≡ has_login) ⊎ (a.state ≡ has_pass)

  pub record Decides (v : Option AuthStep) (r : Option AuthStep × PamAuthenticator pam)
      : Type 0 where
    pub answer : r.0 ≡ v
    pub waits : Waits r

  -- Behind that answer the client has its verdict, whether it would give a password or not.
  abbrev Settles : List ℕ → Option AuthStep → Option AuthStep × PamAuthenticator pam → Type 0
  Settles password v r = Decides v (with_password password r) × Decides v (behind_text r)

  account-Settles :
      (password : List ℕ) (a : PamAuthenticator pam)
      → HasInput a
      → Settles password (accepted a.appdata.handle) (manage_account pam a)
  unfolding manage_account finish failed next_step
  account-Settles password a input =
      elim (Bool-cases (pam.acct_mgmt a.appdata.handle == pam_success)) [
        | inl allowed ↦
            rw allowed
              (elim (Bool-cases (pam.end_session a.appdata.handle pam_success == pam_success)) [
                | inl ended ↦
                    rw ended (
                      record { answer = refl; waits = refl },
                      record { answer = refl; waits = refl },
                    )
                | inr open_still ↦ rw open_still (
                  record { answer = refl; waits = input },
                  record { answer = refl; waits = input },
                )
              ])
        | inr refused ↦ rw refused (
          record { answer = refl; waits = (refl, refl) },
          record { answer = refl; waits = (refl, refl) },
        )
      ]

  authenticate-Settles :
      (password : List ℕ) (at_login : Bool) (a : PamAuthenticator pam) (rc : ℕ)
      → pam.authenticate a.appdata.handle (pam_conv_func pam a.appdata) ≡ rc
      → ((at_login && (rc == pam_incomplete)) ≡ false)
      → HasInput a
      → Settles password (checked a.appdata.handle rc) (authenticate pam at_login a)
  unfolding authenticate failed next_step
  authenticate-Settles password at_login a rc e decided input =
      rw (e, decided)
        (elim (Bool-cases (rc == pam_success)) [
          | inl known ↦ rw known (account-Settles password a input)
          | inr unknown ↦ rw unknown (
            record { answer = refl; waits = (refl, refl) },
            record { answer = refl; waits = (refl, refl) },
          )
        ])

  authenticate-asks :
      (a : PamAuthenticator pam)
      → (pam.authenticate a.appdata.handle (pam_conv_func pam a.appdata) == pam_incomplete) ≡ true
      → authenticate pam true a
        ≡ (some recv_data, record a { token = Pam.codes "password"; state = need_pass })
  unfolding authenticate
  authenticate-asks a asks = rw (asks, authenticate) refl

  fresh-Decides :
      (service user password login before token text : List ℕ) (handle : Option Handle)
      → Decides (verdict service user password before) (
          attempt
            (record {
              service = service;
              state = need_login;
              appdata = record { login = login; given = false; pass = before; handle = handle };
              token = token;
              text = text;
            })
            user
            password)
  unfolding next_step receive_data start_session
  fresh-Decides service user password login before token text handle =
      let (rc, h) = pam.start service user in
      let b : PamAuthenticator pam = record {
        service = service;
        state = has_login;
        appdata = record { login = user; given = false; pass = before; handle = h };
        token = Pam.codes "login";
        text = text;
      } in
      let c : PamAuthenticator pam = record {
        service = service;
        state = has_pass;
        appdata = record { login = user; given = true; pass = password; handle = h };
        token = Pam.codes "password";
        text = text;
      } in
      let without = pam.authenticate h (pam_conv_func pam b.appdata) in
      elim (Bool-cases (rc == pam_success)) [
        | inr not_started ↦ rw not_started (record { answer = refl; waits = inl refl })
        | inl started ↦ rw started (elim (Bool-cases (without == pam_incomplete)) [
          | inl asks ↦
              rw (asks, authenticate-asks b asks)
                (authenticate-Settles password false c _ refl refl (inr refl)).1
          | inr decides ↦
              rw decides
                (authenticate-Settles password true b without refl (ap (λ x. true && x) decides)
                  (inl refl)).0
        ])
      ]

  -- An authenticator that waits for a login and was given no password grants the user just what
  -- the library says: success if the library accepts the user, with the password if it cannot
  -- decide without one, and permits the account; an exception if its session cannot be started
  -- or ended; and failure otherwise. Behind success and failure it waits for a login again, with no
  -- password after a failure; behind an exception it does not, and still has the login or the
  -- password that it was given.
  pub attempt-Decides :
      (a : PamAuthenticator pam) (user password : List ℕ)
      → a.state ≡ need_login
      → a.appdata.given ≡ false
      → Decides (verdict a.service user password a.appdata.pass) (attempt a user password)
  attempt-Decides a user password waiting fresh =
      let d = a.appdata in
      subst
        (λ st.
          Decides (verdict a.service user password d.pass)
            (attempt (record a { state = st }) user password))
        (sym waiting)
        (subst
          (λ g. Decides (verdict a.service user password d.pass) (
            attempt (record a { state = need_login; appdata = record d { given = g } }) user
              password))
          (sym fresh)
          (fresh-Decides a.service user password d.login d.pass a.token a.text d.handle))
