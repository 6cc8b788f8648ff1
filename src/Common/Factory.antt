-- ===== src/Common/Factory.antt =====
-- `AuthenticatorFactory` and `str2AuthMech` of src/authentication.cpp. What the build was made with is
-- an argument. The factory's map is the list of its names and of what was made under each.
use smerp.Base.{
  ℕ, ◌≡◌, refl, sym, ap, ◌∙◌, Bool, true, false, ◌&&◌, ◌||◌, List, [], ◌∷◌, ◌++◌, Option, none,
  some, if◌then◌else◌, codes, same, arith,
}

pub record Build : Type 0 where
  pub windows : Bool
  pub openldap : Bool
  pub with_pam : Bool
  pub sasl : Bool
  pub gssapi : Bool

pub data AuthMech : Type 0 where
  mech_winad mech_winkerb mech_ldap mech_pam mech_sasl mech_gssapi : AuthMech
  mech_text_file mech_undefined : AuthMech

-- A class, and the argument of its constructor.
pub data Authenticator : Type 0 where
  text_file_authenticator pam_authenticator : List ℕ → Authenticator

unfoldable pub str2_auth_mech : Build → List ℕ → AuthMech
str2_auth_mech b s =
    if same s (codes "TEXT_FILE")
    then mech_text_file
    else if b.windows && same s (codes "WINAD")
    then mech_winad
    else if b.windows && same s (codes "WINKERB")
    then mech_winkerb
    else if b.openldap && same s (codes "LDAP")
    then mech_ldap
    else if b.with_pam && same s (codes "PAM")
    then mech_pam
    else if b.sasl && same s (codes "SASL")
    then mech_sasl
    else if b.gssapi && same s (codes "GSSAPI")
    then mech_gssapi
    else mech_undefined

abbrev pub when {ℓ} : {A : Type ℓ} → Bool → List A → List A
when true xs = xs
when false xs = []

unfoldable pub get_available_mechs : Build → List (List ℕ)
get_available_mechs b =
    codes "TEXT_FILE"
    ∷ (when b.windows (codes "WINAD" ∷ codes "WINKERB" ∷ [])
        ++ (when b.openldap (codes "LDAP" ∷ [])
            ++ (when b.with_pam (codes "PAM" ∷ [])
                ++ (when b.sasl (codes "SASL" ∷ []) ++ when b.gssapi (codes "GSSAPI" ∷ [])))))

-- The constructor.
unfoldable pub authenticators : Build → List (List ℕ × Authenticator)
authenticators b =
    (codes "TEXT_FILE", text_file_authenticator (codes "creds.conf"))
    ∷ when b.with_pam ((codes "PAM", pam_authenticator (codes "smerp")) ∷ [])

-- `m_authenticators.find( method)`
abbrev pub find : List ℕ → List (List ℕ × Authenticator) → Option Authenticator
find method [] = none
find method ((name, a) ∷ rest) = if same method name then some a else find method rest

unfoldable pub get_authenticator : Build → List ℕ → Option Authenticator
get_authenticator b method = find method (authenticators b)

abbrev pub is_known : AuthMech → Bool
is_known mech_undefined = false
is_known _ = true

abbrev pub is_member : List ℕ → List (List ℕ) → Bool
is_member s [] = false
is_member s (x ∷ xs) = same s x || is_member s xs

is_member-append :
    (s : List ℕ) (xs ys : List (List ℕ))
    → is_member s (xs ++ ys) ≡ (is_member s xs || is_member s ys)
is_member-append s [] ys = refl
is_member-append s (x ∷ xs) ys = ground (arith, is_member-append s xs ys)

is_member-when :
    (s : List ℕ) (b : Bool) (xs ys : List (List ℕ))
    → is_member s (when b xs ++ ys) ≡ ((b && is_member s xs) || is_member s ys)
is_member-when s true xs ys = is_member-append s xs ys
is_member-when s false xs ys = refl

is_known-if :
    (t : Bool) (m r : AuthMech)
    → is_known m ≡ true
    → is_known (if t then m else r) ≡ (t || is_known r)
is_known-if true m r h = h
is_known-if false m r h = refl

two_names : (w a k r : Bool) → ((w && (a || (k || false))) || r) ≡ ((w && a) || ((w && k) || r))
two_names w a k r = ground arith

one_name : (w a r : Bool) → ((w && (a || false)) || r) ≡ ((w && a) || r)
one_name w a r = ground arith

last_name :
    (s : List ℕ) (b : Bool) (x : List ℕ)
    → is_member s (when b (x ∷ [])) ≡ ((b && same s x) || false)
last_name s true x = refl
last_name s false x = refl

-- A name that a part of the build adds, in the list and in the chain of tests.
same_name :
    (s : List ℕ) (b : Bool) (x : List ℕ) (ys : List (List ℕ)) (m r : AuthMech)
    → is_known m ≡ true
    → is_member s ys ≡ is_known r
    → is_member s (when b (x ∷ []) ++ ys) ≡ is_known (if b && same s x then m else r)
same_name s b x ys m r known rest =
    is_member-when s b (x ∷ []) ys
    ∙ one_name b (same s x) (is_member s ys)
    ∙ ap (λ t. (b && same s x) || t) rest
    ∙ sym (is_known-if (b && same s x) m r known)

-- A text is the name of an available mechanism exactly if `str2AuthMech` knows it.
pub mechs_known :
    (b : Build) (s : List ℕ) → is_member s (get_available_mechs b) ≡ is_known (str2_auth_mech b s)
unfolding get_available_mechs str2_auth_mech
mechs_known b s =
    let text : Bool = same s (codes "TEXT_FILE") in
    let ad : Bool = b.windows && same s (codes "WINAD") in
    let kerb : Bool = b.windows && same s (codes "WINKERB") in
    let rest = same_name s b.openldap (codes "LDAP") _ mech_ldap _ refl (
      same_name s b.with_pam (codes "PAM") _ mech_pam _ refl (
        same_name s b.sasl (codes "SASL") _ mech_sasl _ refl (
          last_name s b.gssapi (codes "GSSAPI")
          ∙ sym (
              is_known-if (b.gssapi && same s (codes "GSSAPI")) mech_gssapi mech_undefined
                refl)))) in
    ap (λ t. text || t)
      (is_member-when s b.windows (codes "WINAD" ∷ codes "WINKERB" ∷ []) _
        ∙ two_names b.windows (same s (codes "WINAD")) (same s (codes "WINKERB")) _
        ∙ ap (λ t. ad || (kerb || t)) rest
        ∙ ap (λ t. ad || t) (sym (is_known-if kerb mech_winkerb _ refl))
        ∙ sym (is_known-if ad mech_winad _ refl))
    ∙ sym (is_known-if text mech_text_file _ refl)
