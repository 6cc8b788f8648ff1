-- ===== src/Common/Pam.antt =====
-- `PAMAuthenticator` and `pam_conv_func` of src/authentication_pam.cpp, over the PAM library and
-- the allocator as parameters. `errmsg` is left out: it is written and never read.
pub mod Verdict
pub mod Conversation
use smerp.Base.{
  ℕ, zero, suc, ◌-◌, Bool, true, false, ◌&&◌, ◌||◌, List, [], ◌∷◌, ◌++◌, Option, none, some, leb,
  ◌==◌, if◌then◌else◌, length, codes,
}
use smerp.Common.Authentication.{AuthStep, succeed, fail, recv_data}

pub data State : Type 0 where
  need_login has_login need_pass has_pass error : State

-- `msg_style`
pub data Style : Type 0 where
  prompt_echo_off prompt_echo_on error_msg text_info unknown : Style

-- `none` for NULL.
pub record Message : Type 0 where
  pub style : Style
  pub msg : Option (List ℕ)

-- What the conversation returns; `undefined` for a call of `strcmp` with a null pointer.
pub data Conv : Type 0 where
  conv_success : List (Option (List ℕ)) → Conv
  conv_again conv_err buf_err undefined : Conv

abbrev pub pam_success : ℕ
pam_success = 0

abbrev pub pam_incomplete : ℕ
pam_incomplete = 31

abbrev pub pam_max_num_msg : ℕ
pam_max_num_msg = 32

-- The library: a handle is NULL or one that `start` made, and `authenticate` calls the
-- conversation that it is given. The last four are `calloc`, `strdup` for the message of that number,
-- `pam_strerror`, and the printing of a number.
pub record Pam : Type 1 where
  pub Handle : Type 0
  pub start : List ℕ → List ℕ → ℕ × Option Handle
  pub authenticate : Option Handle → (List Message → Conv) → ℕ
  pub acct_mgmt : Option Handle → ℕ
  pub end_session : Option Handle → ℕ → ℕ
  pub get_item : Option Handle → ℕ
  pub allocates : Bool
  pub copies : ℕ → Bool
  pub strerror : Option Handle → ℕ → List ℕ
  pub decimal : ℕ → List ℕ

abbrev pub replicate : ℕ → List (Option (List ℕ))
replicate zero = []
replicate (suc n) = none ∷ replicate n

module _ (pam : Pam) where
  open pam use {Handle}

  -- `pam_appdata`; `given` is `has_pass`.
  pub record AppData : Type 0 where
    pub login : List ℕ
    pub given : Bool
    pub pass : List ℕ
    pub handle : Option Handle

  pub record PamAuthenticator : Type 0 where
    pub service : List ℕ
    pub state : State
    pub appdata : AppData
    pub token : List ℕ
    pub text : List ℕ

  abbrev pub new_authenticator : List ℕ → PamAuthenticator
  new_authenticator service = record {
    service = service;
    state = need_login;
    appdata = record { login = []; given = false; pass = []; handle = none };
    token = [];
    text = [];
  }

  -- The loop of `pam_conv_func` at message `i` of `n`. `r` is never advanced, since the line that
  -- does it follows the last `break` in the switch: `resp` is the first answer, whatever `i` is.
  unfoldable pub conv_loop : AppData → ℕ → ℕ → List Message → Option (List ℕ) → Conv
  conv_loop a n i [] resp = conv_success (resp ∷ replicate (n - 1))
  conv_loop a n i (m ∷ ms) resp =
      let answered = conv_loop a n (suc i) ms (some a.pass) in
      let unanswered = conv_loop a n (suc i) ms none in
      elim m.msg [
        | none ↦ conv_err
        | some text ↦ elim m.style [
          | prompt_echo_off ↦
              if a.given then (if pam.copies i then answered else conv_err) else conv_again
          | prompt_echo_on ↦ if pam.get_item a.handle == pam_success then undefined else conv_err
          | error_msg ↦ unanswered
          | text_info ↦ unanswered
          | unknown ↦ conv_err
        ]
      ]

  unfoldable pub pam_conv_func : AppData → List Message → Conv
  pam_conv_func a msgs =
      if length msgs == 0 || leb pam_max_num_msg (length msgs)
      then conv_err
      else if pam.allocates
      then conv_loop a (length msgs) 0 msgs none
      else buf_err

  -- A failure, with its text for the client.
  unfoldable pub failed : PamAuthenticator → List ℕ → ℕ → Option AuthStep × PamAuthenticator
  failed a what rc = (
    some AuthStep.send_data,
    record a {
      token = codes "message";
      text =
          what
          ++ (codes " failed with service "
              ++ (a.service
                  ++ (codes ": "
                      ++ (pam.strerror a.appdata.handle rc
                          ++ (codes " (" ++ (pam.decimal rc ++ codes ")"))))));
      state = error;
    },
  )

  -- The part behind the two calls that decide; `none` for an exception.
  unfoldable pub finish : PamAuthenticator → Option AuthStep × PamAuthenticator
  finish a =
      if pam.end_session a.appdata.handle pam_success == pam_success
      then (
        some succeed,
        record a { state = need_login; appdata = record a.appdata { handle = none; pass = [] } },
      )
      else (none, a)

  unfoldable pub manage_account : PamAuthenticator → Option AuthStep × PamAuthenticator
  manage_account a =
      let rc = pam.acct_mgmt a.appdata.handle in
      if rc == pam_success then finish a else failed a (codes "pam_acct_mgmt") rc

  -- The argument tells whether the state is HAS_LOGIN.
  unfoldable pub authenticate : Bool → PamAuthenticator → Option AuthStep × PamAuthenticator
  authenticate at_login a =
      let rc = pam.authenticate a.appdata.handle (pam_conv_func a.appdata) in
      if at_login && rc == pam_incomplete
      then (some recv_data, record a { token = codes "password"; state = need_pass })
      else if rc == pam_success
      then manage_account a
      else failed a (codes "pam_authenticate") rc

  unfoldable pub start_session : PamAuthenticator → Option AuthStep × PamAuthenticator
  start_session a =
      let (rc, handle) = pam.start a.service a.appdata.login in
      let b = record a { appdata = record a.appdata { handle = handle } } in
      if rc == pam_success then authenticate true b else (none, b)

  unfoldable pub next_step : PamAuthenticator → Option AuthStep × PamAuthenticator
  next_step a = elim a.state [
    | need_login ↦ (some recv_data, record a { token = codes "login" })
    | has_login ↦ start_session a
    | has_pass ↦ authenticate false a
    | error ↦ (
      some fail,
      record a {
        state = need_login;
        appdata = record a.appdata { handle = none; given = false; pass = [] };
      },
    )
    | need_pass ↦ (none, a)
  ]

  unfoldable pub receive_data : PamAuthenticator → List ℕ → Option PamAuthenticator
  receive_data a input = elim a.state [
    | need_login ↦
        some (record a { appdata = record a.appdata { login = input }; state = has_login })
    | need_pass ↦
        some
          (record a { appdata = record a.appdata { given = true; pass = input }; state = has_pass })
    | _ ↦ none
  ]

  unfoldable send_data : PamAuthenticator → Option (List ℕ)
  send_data a = elim a.state [ error ↦ some a.text | _ ↦ none ]
