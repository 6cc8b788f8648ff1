-- ===== src/Client/Quiet.antt =====
-- The socket of clients/qt/SMERPClient.cpp, and the actions that leave it as it is or open it.
use smerp.Base.{
  ◌≡◌, refl, ap, ◌∙◌, Bool, true, false, List, [], ◌∷◌, ◌++◌, Option, none, some, ℕ, if◌then◌else◌,
  codes,
}
use smerp.Client.{
  Action, connects, connects_encrypted, closes, flushes, ignores_ssl_errors, writes, emits_error,
  emits_line, adds_ca, sets_certificate, sets_key, Client, Certificate, Reaction, emits_if,
  get_certificate, initialize_ssl, open_socket, emits_all,
}

-- Whether the socket is open behind the actions, if it was at first; `none` where it is opened and
-- is open.
abbrev pub socket : Bool → List Action → Option Bool
socket b [] = some b
socket b (closes ∷ rest) = socket false rest
socket false (connects host port ∷ rest) = socket true rest
socket true (connects host port ∷ rest) = none
socket false (connects_encrypted host port ∷ rest) = socket true rest
socket true (connects_encrypted host port ∷ rest) = none
socket b (_ ∷ rest) = socket b rest

abbrev pub and_then : Option Bool → (Bool → Option Bool) → Option Bool
and_then none f = none
and_then (some b) f = f b

pub socket-append :
    (b : Bool) (xs ys : List Action)
    → socket b (xs ++ ys) ≡ and_then (socket b xs) (λ c. socket c ys)
socket-append b [] ys = refl
socket-append b (closes ∷ xs) ys = socket-append false xs ys
socket-append false (connects host port ∷ xs) ys = socket-append true xs ys
socket-append true (connects host port ∷ xs) ys = refl
socket-append false (connects_encrypted host port ∷ xs) ys = socket-append true xs ys
socket-append true (connects_encrypted host port ∷ xs) ys = refl
socket-append b (flushes ∷ xs) ys = socket-append b xs ys
socket-append b (ignores_ssl_errors ∷ xs) ys = socket-append b xs ys
socket-append b (writes text ∷ xs) ys = socket-append b xs ys
socket-append b (emits_error text ∷ xs) ys = socket-append b xs ys
socket-append b (emits_line text ∷ xs) ys = socket-append b xs ys
socket-append b (adds_ca file ∷ xs) ys = socket-append b xs ys
socket-append b (sets_certificate file ∷ xs) ys = socket-append b xs ys
socket-append b (sets_key file ∷ xs) ys = socket-append b xs ys

-- Actions that leave the socket as it is.
abbrev pub IsQuiet : List Action → Type 0
IsQuiet xs = (b : Bool) → socket b xs ≡ some b

append-IsQuiet : (xs ys : List Action) → IsQuiet xs → IsQuiet ys → IsQuiet (xs ++ ys)
append-IsQuiet xs ys q r b =
    socket-append b xs ys ∙ ap (λ o. and_then o (λ c. socket c ys)) (q b) ∙ r b

emits_if-IsQuiet : (t : Bool) (msg : List ℕ) → IsQuiet (emits_if t msg)
emits_if-IsQuiet true msg b = refl
emits_if-IsQuiet false msg b = refl

pub emits_all-IsQuiet : (errors : List (List ℕ)) → IsQuiet (emits_all errors)
emits_all-IsQuiet [] b = refl
emits_all-IsQuiet (e ∷ es) b = emits_all-IsQuiet es b

module _ (ssl : Bool) (certificate : List ℕ → Certificate) where
  get_certificate-IsQuiet : (file : List ℕ) → IsQuiet (get_certificate ssl certificate file)
  unfolding get_certificate
  get_certificate-IsQuiet file =
      let f = certificate file in
      let missing =
        emits_if (if f.exists then false else true)
          (codes "certificate " ++ (file ++ codes " doesn't exist")) in
      let closed =
        emits_if (if f.opens then false else true) (codes "can't open certificate " ++ file) in
      let empty = emits_if f.is_null (codes "empty certificate in file " ++ file) in
      let wrong =
        emits_if (if f.is_valid then false else true)
          (codes "certificate in " ++ (file ++ codes " is invalid")) in
      append-IsQuiet missing (closed ++ (empty ++ wrong)) (emits_if-IsQuiet _ _) (
        append-IsQuiet closed (empty ++ wrong) (emits_if-IsQuiet _ _)
          (append-IsQuiet empty wrong (emits_if-IsQuiet _ _) (emits_if-IsQuiet _ _)))

  -- A certificate's messages, and an action behind them that leaves the socket as it is.
  behind-IsQuiet :
      (file : List ℕ) (rest : List Action)
      → IsQuiet rest
      → IsQuiet (get_certificate ssl certificate file ++ rest)
  behind-IsQuiet file rest q =
      append-IsQuiet (get_certificate ssl certificate file) rest (get_certificate-IsQuiet file) q

  abbrev QuietReaction : Reaction → Type 0
  QuietReaction r = IsQuiet r.0

  choose_quiet :
      (t : Bool) (x y : Reaction)
      → QuietReaction x
      → QuietReaction y
      → QuietReaction (if t then x else y)
  choose_quiet true x y q r = q
  choose_quiet false x y q r = r

  initialize_ssl-IsQuiet : (c : Client) → IsQuiet (initialize_ssl ssl certificate c).0
  unfolding initialize_ssl
  initialize_ssl-IsQuiet c =
      choose_quiet c.initialized_ssl _ _ (λ b. refl)
        (behind-IsQuiet (codes "./CA.cert.pem") _ (
          behind-IsQuiet (codes "./CAclient.cert.pem") _
            (behind-IsQuiet (codes "./client.crt") _ (λ b. refl))))

  abbrev Opens : Reaction → Type 0
  Opens r = socket false r.0 ≡ some true

  choose_open : (t : Bool) (x y : Reaction) → Opens x → Opens y → Opens (if t then x else y)
  choose_open true x y q r = q
  choose_open false x y q r = r

  pub open_socket-Opens : (c : Client) → Opens (open_socket ssl certificate c)
  unfolding open_socket
  open_socket-Opens c =
      choose_open c.secure _ _
        (choose_open ssl _ _
          (socket-append false (initialize_ssl ssl certificate c).0 _
            ∙ ap
                (λ o. and_then o (λ b. socket b (
                  connects_encrypted (initialize_ssl ssl certificate c).1.host
                    (initialize_ssl ssl certificate c).1.port
                  ∷ [])))
                (initialize_ssl-IsQuiet c false))
          refl)
        refl
