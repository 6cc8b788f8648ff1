-- ===== src/Common/Tests.antt =====
-- The theorems on versions and authentication at concrete inputs.
use smerp.Base.{
  ℕ, ◌≡◌, refl, true, List, [], ◌∷◌, Option, none, some, arith, if◌then◌else◌, map, codes, same,
  false,
}
use smerp.Common.Authentication.{
  TextFileAuthenticator, new_authenticator, attempts, succeed, fail, AuthStep,
}
use smerp.Common.Pam
use smerp.Common.Pam.{
  Message, prompt_echo_off, text_info, Conv, conv_success, conv_again, AppData, PamAuthenticator,
  new_authenticator as new_pam, pam_conv_func, conv_loop, next_step, receive_data, authenticate,
  manage_account, finish, failed, start_session,
}
use smerp.Common.Factory.{
  Build, str2_auth_mech, get_available_mechs, get_authenticator, authenticators, is_known,
  is_member, mechs_known,
}
use smerp.Common.Pam.Verdict.{attempt, verdict, Decides, attempt-Decides}
use smerp.Common.Pam.Conversation.{pam_conv_func-last_answer}
use smerp.Common.Authentication.Login.{Answers, verdict_of, attempts-verdicts}

abbrev authenticator : TextFileAuthenticator
authenticator = new_authenticator ((codes "abaumann", codes "xx") ∷ [])

abbrev tried : List (List ℕ × List ℕ)
tried = (codes "abaumann", codes "yy") ∷ (codes "abaumann", codes "xx") ∷ []

verdicts : map (verdict_of authenticator.creds) tried ≡ fail ∷ succeed ∷ []
verdicts = refl

attempts-verdicts_example :
    Answers authenticator.creds
      (map (verdict_of authenticator.creds) tried)
      (attempts authenticator tried)
attempts-verdicts_example = attempts-verdicts authenticator tried refl

-- A library that asks for the password xx.
abbrev judge : Conv → ℕ
judge (conv_success (some pass ∷ rest)) = if same pass (codes "xx") then 0 else 7
judge conv_again = 31
judge _ = 7

abbrev password_prompt : Message
password_prompt = record { style = prompt_echo_off; msg = some (codes "Password: ") }

abbrev library : Pam.Pam
library = record {
  Handle = Unit;
  start = λ service login. (0, some tt);
  authenticate = λ h conv. judge (conv (password_prompt ∷ []));
  acct_mgmt = λ h. 0;
  end_session = λ h rc. 0;
  get_item = λ h. 0;
  allocates = true;
  copies = λ i. true;
  strerror = λ h rc. codes "Authentication failure";
  decimal = λ n. codes "7";
}

attempt-Decides_example :
    Decides library
      (verdict library (codes "smerp") (codes "abaumann") (codes "xx") [])
      (attempt library (new_pam library (codes "smerp")) (codes "abaumann") (codes "xx"))
attempt-Decides_example =
    attempt-Decides library (new_pam library (codes "smerp")) (codes "abaumann") (codes "xx") refl
      refl

pam_grants : verdict library (codes "smerp") (codes "abaumann") (codes "xx") [] ≡ some succeed
unfolding pam_conv_func conv_loop
pam_grants = refl

pam_refuses : verdict library (codes "smerp") (codes "abaumann") (codes "yy") [] ≡ some fail
unfolding pam_conv_func conv_loop
pam_refuses = refl

abbrev given : AppData library
given = record { login = codes "abaumann"; given = true; pass = codes "xx"; handle = some tt }

abbrev two_messages : List Message
two_messages = record { style = text_info; msg = some (codes "Hello") } ∷ password_prompt ∷ []

-- The password stands where the answer to the first message belongs.
pam_conv_func-last_answer_example :
    pam_conv_func library given two_messages ≡ conv_success (some (codes "xx") ∷ none ∷ [])
pam_conv_func-last_answer_example =
    pam_conv_func-last_answer library given two_messages refl refl (λ k. refl) (omega arith)
      (omega arith) (tt, tt, (tt, tt, tt))

-- Behind a success `has_pass` stays set, so that the next login is not asked for a password.
abbrev again : Option AuthStep
again =
    (next_step library (record (new_pam library []) {
      state = Pam.has_login;
      appdata = record given { pass = [] };
    })).0

second_login : again ≡ some AuthStep.send_data
unfolding next_step start_session authenticate pam_conv_func conv_loop failed
second_login = refl

abbrev with_ldap : Build
with_ldap = record {
  windows = false;
  openldap = true;
  with_pam = true;
  sasl = false;
  gssapi = false;
}

mechs_known_example :
    is_member (codes "LDAP") (get_available_mechs with_ldap)
    ≡ is_known (str2_auth_mech with_ldap (codes "LDAP"))
mechs_known_example = mechs_known with_ldap (codes "LDAP")

-- A mechanism that is available, and for which there is no authenticator.
no_authenticator : get_authenticator with_ldap (codes "LDAP") ≡ none
unfolding get_authenticator authenticators
no_authenticator = refl
